-- ===== src/Journal/Reading.antt =====
-- Reading the journal in chunks: every record comes back once, whatever the size of a chunk.
use lane_broker.Prelude.{
  ℕ, zero, suc, ◌+◌, ◌-◌, ◌≤◌, ◌<◌, min, ◌≡◌, refl, sym, ap, subst, ◌∙◌, true, false, Option, none,
  some, List, [], ◌∷◌, ◌++◌, append_assoc, arith, leb, length, length-append, take, drop,
  take-append, take-append_le, drop-append_self,
}
use lane_broker.Journal.{
  Codec, Located, Rec, iterate_journal, last_end, last_newline, ok, read_journal_from, read_lines,
}
use lane_broker.Journal.Log.{line_of}
use lane_broker.Journal.Lines.{
  Follows, Follows-behind, Follows-prefix, encode, encode-append, length-line_of, located,
  read_lines-encode,
}
use lane_broker.Journal.Bytes.{
  last_newline-append, All-suffix, Fits, encode_ends, located-append, last_end-located, Cut,
  take-encode,
}

module _ (c : Codec) where
  -- One chunk, where the bytes read are known and hold a line.
  read_journal_from-buf :
      (file buf : List ℕ) (at max_bytes limit n : ℕ) (want : Option ℕ)
      → at < limit
      → limit ≤ length file
      → take (min max_bytes (limit - at)) (drop at file) ≡ buf
      → last_newline buf ≡ some n
      → read_journal_from c (some file) at max_bytes want (some limit) ≡ read_lines c at [] want buf
  unfolding read_journal_from
  read_journal_from-buf file buf at max_bytes limit n want below within bytes nl =
      let size : min (length file) limit ≡ limit = omega arith in
      let more : leb limit at ≡ false = ground arith in rw (size, more, bytes, nl) refl

  -- A chunk that starts at a record and is no shorter than its line gives that record and those behind it
  -- that the chunk holds whole.
  pub read_journal_from-chunk :
      (before : List Rec) (r : Rec) (rs : List Rec) (tail : List ℕ) (max_bytes : ℕ)
      (want : Option ℕ)
      → length (line_of c r) ≤ max_bytes
      → Follows want (r ∷ rs)
      → (xs ys : List Rec) × (rs ≡ xs ++ ys)
        × (read_journal_from c
              (some (encode c before ++ (encode c (r ∷ rs) ++ tail)))
              (length (encode c before))
              max_bytes
              want
              (some (length (encode c before) + length (encode c (r ∷ rs))))
            ≡ ok (located c (length (encode c before)) (r ∷ xs)))
  unfolding encode Cut
  read_journal_from-chunk before r rs tail max_bytes want fits follows =
      let at = length (encode c before) in
      let all = encode c (r ∷ rs) in
      let m = min max_bytes (at + length all - at) in
      let (xs, ys, t, split, bytes, torn) = take-encode c (m - length (line_of c r)) rs in
      let long : length (line_of c r) ≤ m =
        omega (arith, length-append (line_of c r) (encode c rs)) in
      let buf : take m (drop at (encode c before ++ (all ++ tail))) ≡ encode c (r ∷ xs) ++ t =
        ap (take m) (drop-append_self (encode c before) (all ++ tail))
        ∙ take-append_le m all tail (omega arith)
        ∙ take-append m (line_of c r) (encode c rs) long
        ∙ ap (λ l. line_of c r ++ l) bytes
        ∙ sym (append_assoc (line_of c r) (encode c xs) t) in
      let (a, ends) = encode_ends c r xs in
      let nl : last_newline (encode c (r ∷ xs) ++ t) ≡ some (length a) =
        ap (λ l. last_newline (l ++ t)) ends
        ∙ ap last_newline (append_assoc a (10 ∷ []) t)
        ∙ last_newline-append a t torn in
      (
        xs,
        ys,
        split,
        read_journal_from-buf _ _ at max_bytes (at + length all) (length a) want
              (omega (arith, length-append (line_of c r) (encode c rs), length-line_of c r))
              (omega (arith, length-append (encode c before) (all ++ tail), length-append all tail))
              buf nl
            ∙ read_lines-encode c at (r ∷ xs) t want torn
                (Follows-prefix want (r ∷ xs) ys (subst (λ l. Follows want (r ∷ l)) split follows)),
      )

  pub read_journal_from-end :
      (file : List ℕ) (at max_bytes limit : ℕ) (want : Option ℕ)
      → limit ≤ at
      → read_journal_from c (some file) at max_bytes want (some limit) ≡ ok []
  unfolding read_journal_from
  read_journal_from-end file at max_bytes limit want h =
      let past : leb (min (length file) limit) at ≡ true = ground arith in rw past refl

  iterate_journal-end :
      (file : List ℕ) (at max_bytes limit fuel : ℕ)
      → read_journal_from c (some file) at max_bytes none (some limit) ≡ ok []
      → iterate_journal c (some file) max_bytes (some limit) (suc fuel) at ≡ ok []
  unfolding iterate_journal
  iterate_journal-end file at max_bytes limit fuel e = rw (e, iterate_journal) refl

  iterate_journal-chunk :
      (file : List ℕ) (at max_bytes limit fuel : ℕ) (l : Located) (ls more : List Located)
      → read_journal_from c (some file) at max_bytes none (some limit) ≡ ok (l ∷ ls)
      → iterate_journal c (some file) max_bytes (some limit) fuel (last_end l ls) ≡ ok more
      → iterate_journal c (some file) max_bytes (some limit) (suc fuel) at ≡ ok ((l ∷ ls) ++ more)
  unfolding iterate_journal
  iterate_journal-chunk file at max_bytes limit fuel l ls more e more_read =
      rw (e, iterate_journal) (rw more_read refl)

  -- The chunks from a record on give all the records from there to the limit, each once and in order.
  pub iterate_journal-located :
      (fuel : ℕ) (before rest : List Rec) (tail : List ℕ) (max_bytes : ℕ)
      → length rest < fuel
      → Fits c max_bytes rest
      → Follows none rest
      → iterate_journal c
          (some (encode c before ++ (encode c rest ++ tail)))
          max_bytes
          (some (length (encode c before) + length (encode c rest)))
          fuel
          (length (encode c before))
        ≡ ok (located c (length (encode c before)) rest)
  unfolding located encode
  iterate_journal-located zero before rest tail max_bytes f fits follows = absurd (omega arith)
  iterate_journal-located (suc fuel) before [] tail max_bytes f fits follows =
      iterate_journal-end _ (length (encode c before)) max_bytes _ fuel
        (read_journal_from-end _ _ max_bytes _ none (omega arith))
  iterate_journal-located (suc fuel) before (r ∷ rs) tail max_bytes f fits follows =
      let at = length (encode c before) in
      let (xs, ys, split, read) =
        read_journal_from-chunk before r rs tail max_bytes none fits.0 follows in
      let next = before ++ (r ∷ xs) in
      let all : encode c (r ∷ rs) ≡ encode c (r ∷ xs) ++ encode c ys =
        ap (λ l. encode c (r ∷ l)) split ∙ encode-append c (r ∷ xs) ys in
      let past : encode c next ≡ encode c before ++ encode c (r ∷ xs) =
        encode-append c before (r ∷ xs) in
      let file : encode c before ++ (encode c (r ∷ rs) ++ tail)
          ≡ encode c next ++ (encode c ys ++ tail) =
        ap (λ l. encode c before ++ (l ++ tail)) all
        ∙ ap (λ l. encode c before ++ l) (append_assoc (encode c (r ∷ xs)) (encode c ys) tail)
        ∙ sym (append_assoc (encode c before) (encode c (r ∷ xs)) (encode c ys ++ tail))
        ∙ ap (λ l. l ++ (encode c ys ++ tail)) (sym past) in
      let start : at + length (encode c (r ∷ xs)) ≡ length (encode c next) =
        sym (ap length past ∙ length-append (encode c before) (encode c (r ∷ xs))) in
      let limit : at + length (encode c (r ∷ rs)) ≡ length (encode c next) + length (encode c ys) =
        omega (arith, start, ap length all, length-append (encode c (r ∷ xs)) (encode c ys)) in
      let fewer : length ys < fuel = omega (arith, ap length split, length-append xs ys) in
      let bytes = encode c before ++ (encode c (r ∷ rs) ++ tail) in
      let top = at + length (encode c (r ∷ rs)) in
      iterate_journal-chunk bytes at max_bytes top fuel _ _ _ read (
        ap (λ k. iterate_journal c (some bytes) max_bytes (some top) fuel k)
          (last_end-located c at r xs ∙ start)
        ∙ ap (λ b. iterate_journal c (some b) max_bytes (some top) fuel (length (encode c next)))
            file
        ∙ ap
            (λ k.
              iterate_journal c (some (encode c next ++ (encode c ys ++ tail))) max_bytes (some k)
                fuel (length (encode c next)))
            limit
        ∙ iterate_journal-located fuel next ys tail max_bytes fewer
            (All-suffix (λ s. length (line_of c s) ≤ max_bytes) (r ∷ xs) ys
              (subst (λ l. Fits c max_bytes (r ∷ l)) split fits))
            (Follows-behind none (r ∷ xs) ys (subst (λ l. Follows none (r ∷ l)) split follows)))
      ∙ ap (λ k. ok (located c at (r ∷ xs) ++ located c k ys)) (sym start)
      ∙ ap ok (sym (located-append c at (r ∷ xs) ys) ∙ ap (λ l. located c at (r ∷ l)) (sym split))
