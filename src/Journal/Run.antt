-- ===== src/Journal/Run.antt =====
-- The journal over any run of appends, failures, crashes and restarts.
use lane_broker.Prelude.{
  ℕ, suc, ◌+◌, ◌-◌, ◌≤◌, ◌≡◌, ◌⊎◌, inl, inr, refl, sym, ap, subst, ◌∙◌, Bool, true, false, some,
  List, [], ◌∷◌, ◌++◌, append-nil, arith, leb, leb→le, ◌==◌, Bool-cases, length, length-append,
  All-append, take, take-length_le, take-append_le, length-take,
}
use lane_broker.Journal.{Codec, Entry, Fault, Located, Rec, Result, err, iterate_journal, ok}
use lane_broker.Journal.Log.{Fate, Journal, Watermark, append, iterate, line_of, open_journal}
use lane_broker.Journal.Lines.{
  Follows-none, Numbered, Numbered-Follows, Numbered-append, OneLine, encode, encode-append,
  length-line_of, located,
}
use lane_broker.Journal.Bytes.{All-take, Fits}
use lane_broker.Journal.Reading.{iterate_journal-located}

pub data JournalEvent : Type 0 where
  write : (owner : Bool) (mark : Watermark) (entry : Entry) (fate : Fate) → JournalEvent
  restart : (track_pending : Bool) (mark : Watermark) → JournalEvent

-- Where the journal cannot be opened, nobody appends until the next restart.
unfoldable pub journal_event : Codec → (chunk : ℕ) → JournalEvent → Journal → Journal
journal_event c chunk (write owner mark entry fate) j = (append c owner mark entry fate j).0
journal_event c chunk (restart track mark) j =
    elim (open_journal c chunk track mark (some j.file)) [
      | ok opened ↦ opened
      | err e ↦ record j { broken = true }
    ]

unfoldable pub journal_run : Codec → (chunk : ℕ) → List JournalEvent → Journal → Journal
journal_run c chunk [] j = j
journal_run c chunk (e ∷ es) j = journal_run c chunk es (journal_event c chunk e j)

-- The record that an append writes.
abbrev pub next_rec : Entry → Journal → Rec
next_rec entry j = record { seq = j.committed_seq + 1; entry = entry }

-- No record of the run is longer than a chunk.
abbrev pub FitsEvent : Codec → (chunk : ℕ) → JournalEvent → Journal → Type 0
FitsEvent c chunk (write owner mark entry fate) j = length (line_of c (next_rec entry j)) ≤ chunk
FitsEvent c chunk (restart track mark) j = Unit

abbrev pub FitsRun : Codec → (chunk : ℕ) → List JournalEvent → Journal → Type 0
FitsRun c chunk [] j = Unit
FitsRun c chunk (e ∷ es) j = FitsEvent c chunk e j × FitsRun c chunk es (journal_event c chunk e j)

-- What may stand behind the committed lines: nothing or a part of a line, or the whole line of the next
-- record, written and not acknowledged.
abbrev pub Tail : Codec → (chunk committed : ℕ) → List ℕ → Type 0
Tail c chunk committed t =
    (OneLine t × (length t ≤ chunk - 1))
    ⊎ ((r : Rec) × (t ≡ line_of c r) × (r.seq ≡ committed + 1) × (length (line_of c r) ≤ chunk))

-- The file holds these records, committed, and a tail which is empty unless the journal is broken.
pub record Represents (c : Codec) (chunk : ℕ) (j : Journal) (rs : List Rec) : Type 0 where
  pub numbered : Numbered 1 rs
  pub fits : Fits c chunk rs
  pub offset : j.committed_offset ≡ length (encode c rs)
  pub seq : j.committed_seq ≡ length rs
  pub tail : List ℕ
  pub bytes : j.file ≡ encode c rs ++ tail
  pub tail_kept : Tail c chunk (length rs) tail
  pub tail_empty : j.broken ≡ false → tail ≡ []

module _ (c : Codec) (chunk : ℕ) where
  pub length-encode : (rs : List Rec) → length rs ≤ length (encode c rs)
  unfolding encode
  length-encode [] = omega arith
  length-encode (r ∷ rs) =
      omega (arith, length-encode rs, length-line_of c r, length-append (line_of c r) (encode c rs))

  take-Tail :
      (kept : ℕ) (r : Rec) (committed : ℕ)
      → r.seq ≡ committed + 1
      → length (line_of c r) ≤ chunk
      → Tail c chunk committed (take kept (line_of c r))
  unfolding line_of
  take-Tail kept r committed next fits = elim (Bool-cases (leb (length (line_of c r)) kept)) [
    | inl whole ↦ inr (r, take-length_le kept (line_of c r) (leb→le _ _ whole), next, fits)
    | inr part ↦
        let size = length-append (c.print r) (10 ∷ []) in
        let short : kept ≤ length (c.print r) = ground (arith, part, size) in
        let cut = take-append_le kept (c.print r) (10 ∷ []) short in
        inl (
          subst OneLine (sym cut)
              (All-take (λ b. (b == 10) ≡ false) kept (c.print r) (c.print_one_line r)),
          omega (arith, ap length cut, length-take kept (c.print r) short, fits, size),
        )
  ]

  pub Represents-whole :
      (j : Journal) (rs : List Rec)
      → Numbered 1 rs
      → Fits c chunk rs
      → j.committed_offset ≡ length (encode c rs)
      → j.committed_seq ≡ length rs
      → j.file ≡ encode c rs
      → Represents c chunk j rs
  Represents-whole j rs numbered fits offset seq bytes = record {
    numbered = numbered;
    fits = fits;
    offset = offset;
    seq = seq;
    tail = [];
    bytes = bytes ∙ sym (append-nil (encode c rs));
    tail_kept = inl (tt, omega arith);
    tail_empty = λ b. refl;
  }

  -- What is committed is read back, each record once, in order, at its place.
  pub iterate-Represents :
      (j : Journal) (rs : List Rec)
      → Represents c chunk j rs
      → iterate c chunk 0 j ≡ ok (located c 0 rs)
  unfolding iterate encode
  iterate-Represents j rs h =
      let size = length-encode rs in
      let all = length-append (encode c rs) h.tail in
      ap (λ f. iterate_journal c (some f) chunk (some j.committed_offset) (suc (length f)) 0)
        h.bytes
      ∙ ap
          (λ k.
            iterate_journal c (some (encode c rs ++ h.tail)) chunk (some k)
              (suc (length (encode c rs ++ h.tail))) 0)
          (h.offset ∙ omega arith)
      ∙ iterate_journal-located c (suc (length (encode c rs ++ h.tail))) [] rs h.tail chunk
          (omega (arith, size, all)) h.fits (Follows-none 1 rs (Numbered-Follows 1 rs h.numbered))

  pub Numbered-snoc :
      (rs : List Rec) (r : Rec)
      → Numbered 1 rs
      → r.seq ≡ length rs + 1
      → Numbered 1 (rs ++ (r ∷ []))
  Numbered-snoc rs r h e = Numbered-append 1 rs (r ∷ []) h (omega (arith, e), tt)

  pub encode-snoc :
      (rs : List Rec) (r : Rec) → encode c (rs ++ (r ∷ [])) ≡ encode c rs ++ line_of c r
  unfolding encode
  encode-snoc rs r =
      encode-append c rs (r ∷ []) ∙ ap (λ l. encode c rs ++ l) (append-nil (line_of c r))

  -- The outcome of an append: it failed and nothing is added, or its record is.
  abbrev pub Appended : Entry → Journal → List Rec → Journal × Result Located → Type 0
  Appended entry j rs after =
      ((e : Fault) × (after.1 ≡ err e) × Represents c chunk after.0 rs)
      ⊎ ((after.1
            ≡ ok (record {
              rec = next_rec entry j;
              offset = j.committed_offset;
              end = after.0.committed_offset;
            }))
          × Represents c chunk after.0 (rs ++ (next_rec entry j ∷ [])))

  pub Represents-pending :
      (j : Journal) (rs : List Rec) (p : List (ℕ × ℕ))
      → Represents c chunk j rs
      → Represents c chunk (record j { pending = p }) rs
  Represents-pending j rs p h = record {
    numbered = h.numbered;
    fits = h.fits;
    offset = h.offset;
    seq = h.seq;
    tail = h.tail;
    bytes = h.bytes;
    tail_kept = h.tail_kept;
    tail_empty = h.tail_empty;
  }

  pub Represents-broken :
      (j : Journal) (rs : List Rec)
      → Represents c chunk j rs
      → Represents c chunk (record j { broken = true }) rs
  Represents-broken j rs h = record {
    numbered = h.numbered;
    fits = h.fits;
    offset = h.offset;
    seq = h.seq;
    tail = h.tail;
    bytes = h.bytes;
    tail_kept = h.tail_kept;
    tail_empty = λ b. cc;
  }

  module _ (entry : Entry) (j : Journal) (rs : List Rec) (h : Represents c chunk j rs)
      (sound : j.broken ≡ false) where
    pub file_whole : j.file ≡ encode c rs
    file_whole =
        h.bytes ∙ ap (λ t. encode c rs ++ t) (h.tail_empty sound) ∙ append-nil (encode c rs)

    pub rolled_back-Represents :
        Represents c chunk (record j { file = take j.committed_offset j.file }) rs
    rolled_back-Represents = Represents-whole _ rs h.numbered h.fits h.offset h.seq (
        ap (λ k. take k j.file) h.offset
        ∙ ap (take (length (encode c rs))) file_whole
        ∙ take-length_le _ (encode c rs) (omega arith))

    pub written-Represents :
        length (line_of c (next_rec entry j)) ≤ chunk
        → Represents c chunk
            (record j {
              file = j.file ++ line_of c (next_rec entry j);
              committed_seq = j.committed_seq + 1;
              committed_offset = j.committed_offset + length (line_of c (next_rec entry j));
            })
            (rs ++ (next_rec entry j ∷ []))
    written-Represents fits =
        let r = next_rec entry j in
        Represents-whole _ _ (Numbered-snoc rs r h.numbered (omega (arith, h.seq)))
          (All-append (λ s. length (line_of c s) ≤ chunk) rs (r ∷ []) h.fits (fits, tt))
          (omega (
            arith,
            h.offset,
            ap length (encode-snoc rs r),
            length-append (encode c rs) (line_of c r),
          ))
          (omega (arith, h.seq, length-append rs (r ∷ [])))
          (ap (λ f. f ++ line_of c r) file_whole ∙ sym (encode-snoc rs r))

    pub left-Represents :
        (kept : ℕ)
        → length (line_of c (next_rec entry j)) ≤ chunk
        → Represents c chunk
            (record j { file = j.file ++ take kept (line_of c (next_rec entry j)); broken = true })
            rs
    left-Represents kept fits = record {
      numbered = h.numbered;
      fits = h.fits;
      offset = h.offset;
      seq = h.seq;
      tail = take kept (line_of c (next_rec entry j));
      bytes = ap (λ f. f ++ take kept (line_of c (next_rec entry j))) file_whole;
      tail_kept = take-Tail kept (next_rec entry j) (length rs) (omega (arith, h.seq)) fits;
      tail_empty = λ b. cc;
    }
