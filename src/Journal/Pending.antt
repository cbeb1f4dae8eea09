-- ===== src/Journal/Pending.antt =====
-- The list of pending records that the journal of src/store/journal.js keeps in memory for /metrics.
use lane_broker.Prelude.{
  ℕ, suc, ◌+◌, ◌-◌, ◌%◌, ◌≤◌, ◌<◌, ◌≡◌, refl, sym, ap, ◌∙◌, true, false, not, some, List, [], ◌∷◌,
  ◌++◌, map, append-nil, append_assoc, arith, ltb, ◌==◌, if◌then◌else◌, length, filter_by,
  length-append, if-split,
}
use lane_broker.Journal.{Codec, Entry, Located, Rec, Result, iterate_journal, ok}
use lane_broker.Journal.Log.{
  Journal, Watermark, append, drop_torn_tail, durable, line_of, oldest_pending_created_at,
  open_journal, pending_above, pending_of,
}
use lane_broker.Journal.Lines.{
  Follows-none, Numbered, Numbered-Follows, Numbered-append, Numbered-drop, OneLine, encode,
  encode-append, located,
}
use lane_broker.Journal.Bytes.{All-suffix, Fits}
use lane_broker.Journal.Reading.{iterate_journal-located}
use lane_broker.Journal.Run.{length-encode, next_rec}
use lane_broker.Journal.Recovery.{drop_torn_tail-encode, tail_seq-Numbered}
use lane_broker.Journal.Tracked.{Tracks, first_above, oldest_pending-first_above, stamp_of}

map-stamp_of-snoc :
    (rs : List Rec) (r : Rec)
    → map stamp_of (rs ++ (r ∷ [])) ≡ map stamp_of rs ++ ((r.seq, r.entry.created_at) ∷ [])
map-stamp_of-snoc [] r = refl
map-stamp_of-snoc (q ∷ rs) r = ap (λ l. stamp_of q ∷ l) (map-stamp_of-snoc rs r)

-- A write keeps the list, also when it trims it.
append-Tracks :
    (c : Codec) (mark : Watermark) (n : ℕ) (entry : Entry) (j : Journal) (rs : List Rec)
    → let r : Rec = record { seq = j.committed_seq + 1; entry = entry } in
      Numbered 1 (rs ++ (r ∷ []))
      → Tracks n rs j
      → n ≤ mark.seq
      → j.broken ≡ false
      → Tracks mark.seq (rs ++ (r ∷ [])) (append c true mark entry durable j).0
unfolding append
append-Tracks c mark n entry j rs order (old, kept, split, few, same, tracked) later sound =
    let r : Rec = record { seq = j.committed_seq + 1; entry = entry } in
    let start = j.committed_offset in
    let noted : Journal = record j {
      file = j.file ++ line_of c r;
      committed_seq = r.seq;
      committed_offset = start + length (line_of c r);
      pending = j.pending ++ ((r.seq, entry.created_at) ∷ []);
    } in
    let held : Tracks mark.seq (rs ++ (r ∷ [])) noted = (
      old,
      kept ++ (r ∷ []),
      ap (λ l. l ++ (r ∷ [])) split ∙ append_assoc old kept (r ∷ []),
      omega (arith, few, later),
      ap (λ l. l ++ ((r.seq, entry.created_at) ∷ [])) same ∙ sym (map-stamp_of-snoc kept r),
      tracked,
    ) in
    let P = Tracks mark.seq (rs ++ (r ∷ [])) in
    let next : P (
        if not j.track_pending
        then record j {
          file = j.file ++ line_of c r;
          committed_seq = r.seq;
          committed_offset = start + length (line_of c r);
        }
        else if length noted.pending % 8192 == 0
        then (oldest_pending_created_at mark noted).0
        else noted) =
      if-split P (not j.track_pending) _ _ (λ u. cc (u, tracked))
        (λ t.
          if-split P (length noted.pending % 8192 == 0) (oldest_pending_created_at mark noted).0
            noted
            (λ m. (oldest_pending-first_above mark mark.seq noted _ order held (omega arith)).1)
            (λ m. held)) in
    if-split (λ (p : Journal × Result Located). P p.0) j.broken _ _ (λ b. cc (b, sound)) (λ b. next)

filter_by-Numbered :
    (c : Codec) (mark first at : ℕ) (rs : List Rec)
    → Numbered first rs
    → mark < first
    → map pending_of (filter_by (λ (l : Located). ltb mark l.rec.seq) (located c at rs))
      ≡ map stamp_of rs
unfolding located pending_of
filter_by-Numbered c mark first at [] h above = refl
filter_by-Numbered c mark first at (r ∷ rs) h above =
    let kept : ltb mark r.seq ≡ true = ground (arith, h.0, above) in
    rw kept (
      ap (λ l. stamp_of r ∷ l)
        (filter_by-Numbered c mark (first + 1) _ rs h.1 (omega (arith, above))))

-- Opening at the end of a record tracks the records behind it.
open_journal-Tracks :
    (c : Codec) (chunk : ℕ) (mark : Watermark) (file : List ℕ) (before rest : List Rec)
    → drop_torn_tail chunk file ≡ ok (encode c (before ++ rest))
    → Numbered 1 (before ++ rest)
    → Fits c chunk (before ++ rest)
    → mark.seq ≡ length before
    → mark.offset ≡ length (encode c before)
    → (j : Journal) × (open_journal c chunk true mark (some file) ≡ ok j)
      × Tracks mark.seq (before ++ rest) j
      × (j.committed_seq ≡ length (before ++ rest))
      × (j.broken ≡ false)
unfolding open_journal pending_above
open_journal-Tracks c chunk mark file before rest dropped order fits at_seq at_offset =
    let p = map stamp_of rest in
    let kept = encode c (before ++ rest) in
    let size : length kept ≡ length (encode c before) + length (encode c rest) =
      ap length (encode-append c before rest) ∙ length-append (encode c before) (encode c rest) in
    let long : length rest ≤ length (encode c rest) = length-encode c chunk rest in
    let inside : ltb (length kept) mark.offset ≡ false = ground (arith, size, at_offset) in
    let order_rest = Numbered-drop 1 before rest order in
    let at = length (encode c before) in
    let whole : kept ≡ encode c before ++ (encode c rest ++ []) =
      encode-append c before rest
      ∙ ap (λ l. encode c before ++ l) (sym (append-nil (encode c rest))) in
    let read : iterate_journal c (some kept) chunk (some (length kept)) (suc (length kept))
          mark.offset
        ≡ ok (located c at rest) =
      ap
        (λ f. iterate_journal c (some f) chunk (some (length kept)) (suc (length kept)) mark.offset)
        whole
      ∙ ap
          (λ n.
            iterate_journal c (some (encode c before ++ (encode c rest ++ []))) chunk (some n)
              (suc (length kept)) mark.offset)
          size
      ∙ ap
          (λ n.
            iterate_journal c (some (encode c before ++ (encode c rest ++ []))) chunk
              (some (at + length (encode c rest))) (suc (length kept)) n)
          at_offset
      ∙ iterate_journal-located c (suc (length kept)) before rest [] chunk
          (omega (arith, size, long))
          (All-suffix (λ s. length (line_of c s) ≤ chunk) before rest fits)
          (Follows-none (1 + length before) rest
            (Numbered-Follows (1 + length before) rest order_rest)) in
    let found : pending_above c chunk true mark kept ≡ ok p =
      rw (inside, read)
        (ap ok (
          filter_by-Numbered c mark.seq (1 + length before) at rest order_rest
            (omega (arith, at_seq)))) in
    (
      record {
        file = kept;
        committed_offset = length kept;
        committed_seq = length (before ++ rest);
        track_pending = true;
        pending = p;
        broken = false;
      },
      rw (dropped, tail_seq-Numbered c chunk (before ++ rest) order fits, found) refl,
      (before, rest, refl, omega (arith, at_seq), refl, refl),
      refl,
      refl,
    )

-- A journal that tracks what is pending, opened at a watermark that stands at the end of a record, after
-- a crash that may have left the beginning of a line, and written to once, reports the time of the first
-- record above the watermark of the asking, or none, if the watermarks do not go back, the records are
-- numbered from 1 and fit a read chunk, and the torn line is shorter than that.
pub oldest_pending-first_above_written :
    (c : Codec) (chunk : ℕ) (opened written asked : Watermark) (before rest : List Rec)
    (torn : List ℕ) (entry : Entry)
    → Numbered 1 (before ++ rest)
    → Fits c chunk (before ++ rest)
    → OneLine torn
    → length torn ≤ chunk - 1
    → opened.seq ≡ length before
    → opened.offset ≡ length (encode c before)
    → opened.seq ≤ written.seq
    → written.seq ≤ asked.seq
    → (j : Journal) × (open_journal c chunk true opened (some (encode c (before ++ rest) ++ torn))
        ≡ ok j)
      × ((oldest_pending_created_at asked (append c true written entry durable j).0).1
          ≡ first_above asked.seq ((before ++ rest) ++ (next_rec entry j ∷ [])))
oldest_pending-first_above_written c chunk opened written asked before rest torn entry order fits
      one short at_seq at_offset later last =
    let rs = before ++ rest in
    let dropped = drop_torn_tail-encode c chunk rs torn one short fits in
    let (j, done, tracks, seq, sound) =
      open_journal-Tracks c chunk opened _ before rest dropped order fits at_seq at_offset in
    let longer : Numbered 1 (rs ++ (next_rec entry j ∷ [])) =
      Numbered-append 1 rs (next_rec entry j ∷ []) order (omega (arith, seq), tt) in
    let held = append-Tracks c written opened.seq entry j rs longer tracks later sound in
    (j, done, (oldest_pending-first_above asked written.seq _ _ longer held last).0)
