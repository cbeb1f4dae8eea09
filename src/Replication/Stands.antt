-- ===== src/Replication/Stands.antt =====
-- Where the watermark of src/store/replicate.js stands in the journal, and how it moves on.
use lane_broker.Prelude.{
  ℕ, ◌+◌, ◌≡◌, sym, ap, subst, ◌∙◌, some, List, [], ◌∷◌, ◌++◌, append_assoc, arith, length,
  length-append,
}
use lane_broker.Journal.{Codec, Rec}
use lane_broker.Journal.Log.{Journal, line_of}
use lane_broker.Journal.Lines.{Follows, encode, encode-append, located}
use lane_broker.Replication.{ReplicationState}
use lane_broker.Replication.Settled.{marked}

module _ (c : Codec) (j : Journal) where
  -- The watermark stands behind the records `before`, and those of `rest` are committed behind it.
  abbrev pub Stands : (before rest : List Rec) → ReplicationState → Type 0
  Stands before rest s =
      (tail : List ℕ) × (j.file ≡ encode c before ++ (encode c rest ++ tail))
      × (j.committed_offset ≡ length (encode c before) + length (encode c rest))
      × (s.replicated_offset ≡ length (encode c before))
      × Follows (some (s.replicated_seq + 1)) rest

  marked-located :
      (s : ReplicationState) (at : ℕ) (r : Rec) (rs : List Rec)
      → (marked s (located c at (r ∷ rs))).replicated_offset ≡ at + length (encode c (r ∷ rs))
  unfolding marked located encode
  marked-located s at r [] = omega (arith, length-append (line_of c r) [])
  marked-located s at r (x ∷ rs) =
      marked-located
        (record s { replicated_seq = r.seq; replicated_offset = at + length (line_of c r) })
        (at + length (line_of c r)) x rs
      ∙ omega (arith, length-append (line_of c r) (encode c (x ∷ rs)))

  marked-Follows :
      (s : ReplicationState) (at : ℕ) (r : Rec) (rs ys : List Rec)
      → Follows (some (s.replicated_seq + 1)) (r ∷ (rs ++ ys))
      → Follows (some ((marked s (located c at (r ∷ rs))).replicated_seq + 1)) ys
  unfolding marked located
  marked-Follows s at r [] ys h = h.1
  marked-Follows s at r (x ∷ rs) ys h =
      marked-Follows
        (record s { replicated_seq = r.seq; replicated_offset = at + length (line_of c r) })
        (at + length (line_of c r)) x rs ys h.1

  pub Stands-marked :
      (before : List Rec) (r : Rec) (rs xs ys : List Rec) (s : ReplicationState)
      → rs ≡ xs ++ ys
      → Stands before (r ∷ rs) s
      → Stands (before ++ (r ∷ xs)) ys (marked s (located c (length (encode c before)) (r ∷ xs)))
  Stands-marked before r rs xs ys s split (tail, file, top, at, order) =
      let all : encode c (r ∷ rs) ≡ encode c (r ∷ xs) ++ encode c ys =
        ap (λ l. encode c (r ∷ l)) split ∙ encode-append c (r ∷ xs) ys in
      let past = encode-append c before (r ∷ xs) in
      let start : length (encode c before) + length (encode c (r ∷ xs))
          ≡ length (encode c (before ++ (r ∷ xs))) =
        sym (ap length past ∙ length-append (encode c before) (encode c (r ∷ xs))) in
      (
        tail,
        file
            ∙ ap (λ l. encode c before ++ (l ++ tail)) all
            ∙ ap (λ l. encode c before ++ l) (append_assoc (encode c (r ∷ xs)) (encode c ys) tail)
            ∙ sym (append_assoc (encode c before) (encode c (r ∷ xs)) (encode c ys ++ tail))
            ∙ ap (λ l. l ++ (encode c ys ++ tail)) (sym past),
        omega (arith, top, start, ap length all, length-append (encode c (r ∷ xs)) (encode c ys)),
        marked-located s (length (encode c before)) r xs ∙ start,
        marked-Follows s (length (encode c before)) r xs ys
            (subst (λ l. Follows (some (s.replicated_seq + 1)) (r ∷ l)) split order),
      )
