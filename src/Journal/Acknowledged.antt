-- ===== src/Journal/Acknowledged.antt =====
-- The journal of src/store/journal.js from its first opening on.
use lane_broker.Prelude.{
  ℕ, ◌+◌, ◌≡◌, inl, inr, refl, sym, ap, subst, ◌∙◌, Bool, false, none, List, [], ◌∷◌, ◌++◌,
  append_assoc, arith, length, length-append,
}
use lane_broker.Journal.{Codec, Entry, Fault, Located, Rec, err, ok}
use lane_broker.Journal.Log.{
  Fate, Journal, Watermark, append, iterate, line_of, open_journal, pending_above, tail_seq,
}
use lane_broker.Journal.Lines.{Numbered, encode, located}
use lane_broker.Journal.Bytes.{located-append}
use lane_broker.Journal.Run.{
  FitsRun, JournalEvent, Represents, Represents-whole, encode-snoc, iterate-Represents,
  journal_event, journal_run, next_rec, write,
}
use lane_broker.Journal.Durable.{Result-cases, append-Appended, journal_run-Represents}

journal_run-append :
    (c : Codec) (chunk : ℕ) (xs ys : List JournalEvent) (j : Journal)
    → journal_run c chunk (xs ++ ys) j ≡ journal_run c chunk ys (journal_run c chunk xs j)
unfolding journal_run
journal_run-append c chunk [] ys j = refl
journal_run-append c chunk (x ∷ xs) ys j =
    journal_run-append c chunk xs ys (journal_event c chunk x j)

FitsRun-append :
    (c : Codec) (chunk : ℕ) (xs ys : List JournalEvent) (j : Journal)
    → FitsRun c chunk (xs ++ ys) j
    → FitsRun c chunk xs j × FitsRun c chunk ys (journal_run c chunk xs j)
unfolding journal_run
FitsRun-append c chunk [] ys j h = (tt, h)
FitsRun-append c chunk (x ∷ xs) ys j h =
    let (first, rest) = FitsRun-append c chunk xs ys (journal_event c chunk x j) h.1 in
    ((h.0, first), rest)

abbrev new_journal : Bool → List (ℕ × ℕ) → Journal
new_journal track p = record {
  file = [];
  committed_offset = 0;
  committed_seq = 0;
  track_pending = track;
  pending = p;
  broken = false;
}

ok_injective {ℓ} : {A : Type ℓ} (a b : A) → ok a ≡ ok b → a ≡ b
ok_injective a b e = cc

err-ne-ok {ℓ} : {A : Type ℓ} (f : Fault) (a : A) → err f ≡ ok a → ⊥
err-ne-ok f a e = cc

opened_new :
    (c : Codec) (chunk : ℕ) (track : Bool) (mark : Watermark) (p : List (ℕ × ℕ))
    → pending_above c chunk track mark [] ≡ ok p
    → open_journal c chunk track mark none ≡ ok (new_journal track p)
unfolding open_journal tail_seq
opened_new c chunk track mark p found = rw found refl

refused_new :
    (c : Codec) (chunk : ℕ) (track : Bool) (mark : Watermark) (f : Fault)
    → pending_above c chunk track mark [] ≡ err f
    → open_journal c chunk track mark none ≡ err f
unfolding open_journal tail_seq
refused_new c chunk track mark f failed = rw failed refl

-- Where a record stands that was appended behind others.
place_of : Codec → List Rec → Rec → Located
place_of c rs r =
    let start = length (encode c rs) in
    record { rec = r; offset = start; end = start + length (line_of c r) }

appended_place :
    (c : Codec) (chunk : ℕ) (before after : Journal) (rs : List Rec) (r : Rec)
    → Represents c chunk before rs
    → Represents c chunk after (rs ++ (r ∷ []))
    → record { rec = r; offset = before.committed_offset; end = after.committed_offset }
      ≡ place_of c rs r
unfolding place_of
appended_place c chunk before after rs r h k =
    let end : after.committed_offset ≡ length (encode c rs) + length (line_of c r) = omega (
      arith,
      k.offset,
      ap length (encode-snoc c chunk rs r),
      length-append (encode c rs) (line_of c r),
    ) in
    ap (λ o. record { rec = r; offset = o; end = after.committed_offset }) h.offset
    ∙ ap (λ e. record { rec = r; offset = length (encode c rs); end = e }) end

located_place :
    (c : Codec) (rs : List Rec) (r : Rec) (more : List Rec)
    → located c 0 ((rs ++ (r ∷ [])) ++ more)
      ≡ located c 0 rs
        ++ (place_of c rs r ∷ located c (length (encode c rs) + length (line_of c r)) more)
unfolding place_of located
located_place c rs r more =
    let start : 0 + length (encode c rs) ≡ length (encode c rs) = omega arith in
    ap (located c 0) (append_assoc rs (r ∷ []) more)
    ∙ located-append c 0 rs (r ∷ more)
    ∙ ap (λ k. located c 0 rs ++ located c k (r ∷ more)) start

-- A journal that was opened where there was no file.
new-Represents :
    (c : Codec) (chunk : ℕ) (track : Bool) (mark : Watermark) (j : Journal)
    → open_journal c chunk track mark none ≡ ok j
    → Represents c chunk j []
unfolding open_journal tail_seq encode
new-Represents c chunk track mark j e = elim (Result-cases (pending_above c chunk track mark [])) [
  | inl (p, found) ↦
      subst (λ k. Represents c chunk k [])
        (ok_injective (new_journal track p) j (sym (opened_new c chunk track mark p found) ∙ e))
        (Represents-whole c chunk (new_journal track p) [] tt tt refl refl refl)
  | inr (f, failed) ↦ absurd (err-ne-ok f j (sym (refused_new c chunk track mark f failed) ∙ e))
]

module _ (c : Codec) (chunk : ℕ) (track : Bool) (mark : Watermark) (j : Journal)
    (new : open_journal c chunk track mark none ≡ ok j) where
  -- Whatever appends, failures, crashes and restarts follow on a run, what could be read of the journal
  -- after that run can be read at the same places, and any records that are read behind it are numbered
  -- on from there; all are numbered from 1 without a gap. Every record of the runs fits a read chunk.
  pub journal_run-durable :
      (earlier later : List JournalEvent)
      → FitsRun c chunk (earlier ++ later) j
      → (rs more : List Rec) × (iterate c chunk 0 (journal_run c chunk earlier j)
          ≡ ok (located c 0 rs))
        × (iterate c chunk 0 (journal_run c chunk (earlier ++ later) j)
            ≡ ok (located c 0 (rs ++ more)))
        × Numbered 1 (rs ++ more)
  journal_run-durable earlier later fits =
      let (first, rest) = FitsRun-append c chunk earlier later j fits in
      let (rs, h) =
        journal_run-Represents c chunk earlier j [] first
          (new-Represents c chunk track mark j new) in
      let (more, k) = journal_run-Represents c chunk later _ rs rest h in
      (
        rs,
        more,
        iterate-Represents c chunk _ rs h,
        ap (iterate c chunk 0) (journal_run-append c chunk earlier later j)
            ∙ iterate-Represents c chunk _ (rs ++ more) k,
        k.numbered,
      )

  -- An append that reports a place is read there after any run that follows.
  pub journal_run-acknowledged :
      (earlier later : List JournalEvent) (owner : Bool) (at : Watermark) (entry : Entry)
      (fate : Fate) (l : Located)
      → FitsRun c chunk (earlier ++ (write owner at entry fate ∷ later)) j
      → (append c owner at entry fate (journal_run c chunk earlier j)).1 ≡ ok l
      → (before after : List Located) × (iterate c chunk 0
            (journal_run c chunk (earlier ++ (write owner at entry fate ∷ later)) j)
          ≡ ok (before ++ (l ∷ after)))
        × (l.rec.entry ≡ entry)
  unfolding journal_run journal_event place_of
  journal_run-acknowledged earlier later owner at entry fate l fits told =
      let (first, rest) =
        FitsRun-append c chunk earlier (write owner at entry fate ∷ later) j fits in
      let (rs, h) =
        journal_run-Represents c chunk earlier j [] first
          (new-Represents c chunk track mark j new) in
      let reached = journal_run c chunk earlier j in
      elim (append-Appended c chunk owner at entry fate reached rs rest.0 h) [
        | inl (e, failed, same) ↦ absurd (err-ne-ok e l (sym failed ∙ told))
        | inr (added, k) ↦
            let r = next_rec entry reached in
            let (more, m) = journal_run-Represents c chunk later _ (rs ++ (r ∷ [])) rest.1 k in
            let place : l ≡ place_of c rs r =
              ok_injective l _ (sym told ∙ added) ∙ appended_place c chunk reached _ rs r h k in
            (
              located c 0 rs,
              located c (length (encode c rs) + length (line_of c r)) more,
              ap (iterate c chunk 0)
                    (journal_run-append c chunk earlier (write owner at entry fate ∷ later) j)
                  ∙ iterate-Represents c chunk _ _ m
                  ∙ ap ok (
                      located_place c rs r more
                      ∙ ap
                          (λ p.
                            located c 0 rs
                            ++ (p ∷ located c (length (encode c rs) + length (line_of c r)) more))
                          (sym place)),
              ap (λ (x : Located). x.rec.entry) place,
            )
      ]
