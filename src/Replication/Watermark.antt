-- ===== src/Replication/Watermark.antt =====
-- The watermark of src/store/replicate.js behind records of the journal.
use lane_broker.Prelude.{
  ℕ, ◌+◌, ◌≡◌, refl, sym, ap, ◌∙◌, true, false, some, List, [], ◌∷◌, ◌++◌, arith, length,
  length-append, take, drop,
}
use lane_broker.Replication.Settled.{marked}
use lane_broker.Journal.Log.{line_of}
use lane_broker.Journal.Lines.{Follows, encode, located, out_of_order-false}
use lane_broker.Journal.{Codec, Located, Rec}
use lane_broker.Replication.{ReplicationState}

pub located-split :
    (c : Codec) (at : ℕ) (rs : List Rec) (done stop : List Located)
    → located c at rs ≡ done ++ stop
    → (xs ys : List Rec) × (rs ≡ xs ++ ys)
      × (done ≡ located c at xs)
      × (stop ≡ located c (at + length (encode c xs)) ys)
unfolding located encode
located-split c at rs [] stop e =
    ([], rs, refl, refl, sym e ∙ ap (λ k. located c k rs) (omega arith))
located-split c at [] (d ∷ done) stop e = absurd (omega (arith, ap length e))
located-split c at (r ∷ rs) (d ∷ done) stop e =
    let next = at + length (line_of c r) in
    let (xs, ys, split, before, behind) = located-split c next rs done stop (ap (drop 1) e) in
    let end : next + length (encode c xs) ≡ at + length (encode c (r ∷ xs)) =
      omega (arith, length-append (line_of c r) (encode c xs)) in
    (
      r ∷ xs,
      ys,
      ap (λ l. r ∷ l) split,
      sym (ap (λ l. take 1 l ++ done) e)
          ∙ ap (λ l. record { rec = r; offset = at; end = next } ∷ l) before,
      behind ∙ ap (λ k. located c k ys) end,
    )

pub located-nil : (c : Codec) (at : ℕ) (rs : List Rec) → located c at rs ≡ [] → rs ≡ []
unfolding located
located-nil c at [] e = refl
located-nil c at (r ∷ rs) e = absurd (omega (arith, ap length e))

pub true-ne-false : true ≡ false → ⊥
true-ne-false e = cc

module _ (c : Codec) where
  pub marked-replicated_seq :
      (s : ReplicationState) (at : ℕ) (rs : List Rec)
      → Follows (some (s.replicated_seq + 1)) rs
      → (marked s (located c at rs)).replicated_seq ≡ s.replicated_seq + length rs
  unfolding marked located
  marked-replicated_seq s at [] h = omega arith
  marked-replicated_seq s at (r ∷ rs) h =
      let next = at + length (line_of c r) in
      let here : r.seq ≡ s.replicated_seq + 1 =
        out_of_order-false (s.replicated_seq + 1) r.seq h.0 in
      omega (
        arith,
        here,
        marked-replicated_seq (record s { replicated_seq = r.seq; replicated_offset = next }) next
            rs h.1,
      )

  pub marked-replicated_offset :
      (s : ReplicationState) (at : ℕ) (rs : List Rec)
      → s.replicated_offset ≡ at
      → (marked s (located c at rs)).replicated_offset ≡ at + length (encode c rs)
  unfolding marked located encode
  marked-replicated_offset s at [] h = omega (arith, h)
  marked-replicated_offset s at (r ∷ rs) h =
      let next = at + length (line_of c r) in
      marked-replicated_offset (record s { replicated_seq = r.seq; replicated_offset = next }) next
        rs refl
      ∙ omega (arith, length-append (line_of c r) (encode c rs))
