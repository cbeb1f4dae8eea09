-- ===== src/Journal/Durable.antt =====
-- No record that the journal has acknowledged is lost, moved or reordered, whatever happens later.
use lane_broker.Prelude.{
  ℕ, ◌%◌, ◌≤◌, ◌≡◌, ◌⊎◌, inl, inr, refl, sym, ap, subst, ◌∙◌, Bool, false, not, some, List, [], ◌∷◌,
  ◌++◌, append-nil, append_assoc, arith, ◌==◌, if◌then◌else◌, Bool-cases, length, All-append,
  if-split,
}
use lane_broker.Journal.{
  Codec, Entry, Fault, Located, Rec, Result, err, not_owner, not_written, ok, unusable,
}
use lane_broker.Journal.Log.{
  Fate, Journal, Watermark, append, drop_replicated, drop_torn_tail, durable, left, line_of,
  oldest_pending_created_at, open_journal, pending_above, rolled_back, tail_seq,
}
use lane_broker.Journal.Lines.{Numbered, encode}
use lane_broker.Journal.Bytes.{Fits}
use lane_broker.Journal.Recovery.{drop_torn_tail-encode, tail_seq-Numbered}
use lane_broker.Journal.Run.{
  Appended, FitsEvent, FitsRun, JournalEvent, Numbered-snoc, Represents, Represents-broken,
  Represents-pending, Represents-whole, encode-snoc, journal_event, journal_run, left-Represents,
  next_rec, restart, rolled_back-Represents, write, written-Represents,
}

pub Result-cases {ℓ} :
    {A : Type ℓ} (r : Result A) → ((a : A) × (r ≡ ok a)) ⊎ ((e : Fault) × (r ≡ err e))
Result-cases (ok a) = inl (a, refl)
Result-cases (err e) = inr (e, refl)

pub oldest_pending_created_at-pending :
    (mark : Watermark) (j : Journal)
    → (p : List (ℕ × ℕ)) × ((oldest_pending_created_at mark j).0 ≡ record j { pending = p })
unfolding oldest_pending_created_at
oldest_pending_created_at-pending mark j = elim (Bool-cases j.track_pending) [
  | inl tracked ↦ (drop_replicated mark.seq j.pending, rw tracked refl)
  | inr untracked ↦ (j.pending, rw untracked refl)
]

module _ (c : Codec) (chunk : ℕ) where
  -- Keeping the pending list in order changes nothing else.
  noted-Appended :
      (mark : Watermark) (entry : Entry) (j written : Journal) (rs : List Rec) (at : ℕ × ℕ)
      → Represents c chunk written (rs ++ (next_rec entry j ∷ []))
      → (l : Located)
      → l ≡ record {
        rec = next_rec entry j;
        offset = j.committed_offset;
        end = written.committed_offset;
      }
      → let noted : Journal = record written { pending = j.pending ++ (at ∷ []) } in
        Appended c chunk entry j rs (
          if not j.track_pending
              then written
              else if length noted.pending % 8192 == 0
              then (oldest_pending_created_at mark noted).0
              else noted,
          ok l,
        )
  noted-Appended mark entry j written rs at h l e =
      let noted : Journal = record written { pending = j.pending ++ (at ∷ []) } in
      let P = λ (n : Journal). Appended c chunk entry j rs (n, ok l) in
      if-split P (not j.track_pending) written _ (λ u. inr (ap ok e, h))
        (λ t.
          if-split P (length noted.pending % 8192 == 0) _ noted
            (λ m.
              let (p, same) = oldest_pending_created_at-pending mark noted in
              subst P (sym same) (inr (ap ok e, Represents-pending c chunk written _ p h)))
            (λ m. inr (ap ok e, Represents-pending c chunk written _ _ h)))

  -- A journal that is unusable, or that another process owns, is left as it is.
  refused :
      (owner : Bool) (entry : Entry) (j : Journal) (rs : List Rec)
      → Represents c chunk j rs
      → (body : Journal × Result Located) → (j.broken ≡ false → Appended c chunk entry j rs body)
      → Appended c chunk entry j rs
          (if j.broken then (j, err unusable) else if not owner then (j, err not_owner) else body)
  refused owner entry j rs h body go =
      let P = Appended c chunk entry j rs in
      if-split P j.broken (j, err unusable) _ (λ b. inl (unusable, refl, h))
        (λ sound.
          if-split P (not owner) (j, err not_owner) body (λ o. inl (not_owner, refl, h))
            (λ o. go sound))

  -- An append that reports a place has added its record there, and one that fails has added nothing.
  pub append-Appended :
      (owner : Bool) (mark : Watermark) (entry : Entry) (fate : Fate) (j : Journal) (rs : List Rec)
      → length (line_of c (next_rec entry j)) ≤ chunk
      → Represents c chunk j rs
      → Appended c chunk entry j rs (append c owner mark entry fate j)
  unfolding append
  append-Appended owner mark entry durable j rs fits h = refused owner entry j rs h _ (λ sound.
      noted-Appended mark entry j _ rs _ (written-Represents c chunk entry j rs h sound fits) _
        refl)
  append-Appended owner mark entry rolled_back j rs fits h =
      refused owner entry j rs h _
        (λ sound. inl (not_written, refl, rolled_back-Represents c chunk entry j rs h sound))
  append-Appended owner mark entry (left kept) j rs fits h =
      refused owner entry j rs h _
        (λ sound. inl (not_written, refl, left-Represents c chunk entry j rs h sound kept fits))

  opened :
      (track : Bool) (mark : Watermark) (file kept : List ℕ) (seq : ℕ)
      → drop_torn_tail chunk file ≡ ok kept
      → tail_seq c chunk kept ≡ ok seq
      → ((e : Fault) × (open_journal c chunk track mark (some file) ≡ err e))
        ⊎ ((p : List (ℕ × ℕ)) × (open_journal c chunk track mark (some file)
              ≡ ok (record {
                file = kept;
                committed_offset = length kept;
                committed_seq = seq;
                track_pending = track;
                pending = p;
                broken = false;
              })))
  unfolding open_journal
  opened track mark file kept seq dropped last =
      elim (Result-cases (pending_above c chunk track mark kept)) [
        | inl (p, e) ↦ inr (p, rw (dropped, last, e) refl)
        | inr (f, e) ↦ inl (f, rw (dropped, last, e) refl)
      ]

  -- What opening finds in a file that was left as `Represents` says: the records, and one more where its
  -- whole line had been written.
  pub reopened :
      (j : Journal) (rs : List Rec)
      → Represents c chunk j rs
      → (more : List Rec) × (drop_torn_tail chunk j.file ≡ ok (encode c (rs ++ more)))
        × Numbered 1 (rs ++ more)
        × Fits c chunk (rs ++ more)
  reopened j rs h = elim (h.tail_kept) [
    | inl (one, short) ↦
        let same : rs ++ [] ≡ rs = append-nil rs in
        (
          [],
          ap (drop_torn_tail chunk) h.bytes
              ∙ drop_torn_tail-encode c chunk rs h.tail one short h.fits
              ∙ ap (λ l. ok (encode c l)) (sym same),
          subst (Numbered 1) (sym same) h.numbered,
          subst (Fits c chunk) (sym same) h.fits,
        )
    | inr (r, whole, next, fits) ↦
        let all = All-append (λ s. length (line_of c s) ≤ chunk) rs (r ∷ []) h.fits (fits, tt) in
        (
          r ∷ [],
          ap (drop_torn_tail chunk) (
                h.bytes
                ∙ ap (λ t. encode c rs ++ t) whole
                ∙ sym (encode-snoc c chunk rs r)
                ∙ sym (append-nil (encode c (rs ++ (r ∷ [])))))
              ∙ drop_torn_tail-encode c chunk (rs ++ (r ∷ [])) [] tt (omega arith) all,
          Numbered-snoc c chunk rs r h.numbered next,
          all,
        )
  ]

  restart-Represents :
      (track : Bool) (mark : Watermark) (j : Journal) (rs : List Rec)
      → Represents c chunk j rs
      → (more : List Rec) × Represents c chunk
          (journal_event c chunk (restart track mark) j)
          (rs ++ more)
  unfolding journal_event
  restart-Represents track mark j rs h =
      let (more, dropped, numbered, fits) = reopened j rs h in
      elim (opened track mark j.file _ _ dropped
        (tail_seq-Numbered c chunk (rs ++ more) numbered fits)) [
          | inl (e, failed) ↦ (
            [],
            rw (failed, journal_event)
                (subst (Represents c chunk _) (sym (append-nil rs))
                  (Represents-broken c chunk j rs h)),
          )
          | inr (p, done) ↦ (
            more,
            rw (done, journal_event)
                (Represents-whole c chunk _ (rs ++ more) numbered fits refl refl refl),
          )
        ]

  journal_event-Represents :
      (e : JournalEvent) (j : Journal) (rs : List Rec)
      → FitsEvent c chunk e j
      → Represents c chunk j rs
      → (more : List Rec) × Represents c chunk (journal_event c chunk e j) (rs ++ more)
  unfolding journal_event
  journal_event-Represents (restart track mark) j rs fits h = restart-Represents track mark j rs h
  journal_event-Represents (write owner mark entry fate) j rs fits h =
      elim (append-Appended owner mark entry fate j rs fits h) [
        | inl (e, failed, same) ↦ ([], subst (Represents c chunk _) (sym (append-nil rs)) same)
        | inr (added, more) ↦ (next_rec entry j ∷ [], more)
      ]

  pub journal_run-Represents :
      (es : List JournalEvent) (j : Journal) (rs : List Rec)
      → FitsRun c chunk es j
      → Represents c chunk j rs
      → (more : List Rec) × Represents c chunk (journal_run c chunk es j) (rs ++ more)
  unfolding journal_run
  journal_run-Represents [] j rs fits h = ([], subst (Represents c chunk j) (sym (append-nil rs)) h)
  journal_run-Represents (e ∷ es) j rs fits h =
      let (one, after) = journal_event-Represents e j rs fits.0 h in
      let (more, last) =
        journal_run-Represents es (journal_event c chunk e j) (rs ++ one) fits.1 after in
      (one ++ more, subst (Represents c chunk _) (append_assoc rs one more) last)
