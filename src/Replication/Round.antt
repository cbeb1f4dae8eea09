-- ===== src/Replication/Round.antt =====
-- How far a round of src/store/replicate.js moves the watermark, and why it stops there.
use lane_broker.Prelude.{
  ℕ, suc, ◌+◌, ◌≤◌, ◌≡◌, ◌⊎◌, inl, inr, refl, sym, ap, subst, ◌∙◌, Bool, true, false, Option, some,
  List, [], ◌++◌, append-nil, append_assoc, arith, is_some, length, length-append, All,
}
use lane_broker.Replication.Drain.{Drains, drain-stop}
use lane_broker.Replication.Stands.{Stands}
use lane_broker.Replication.Settled.{Settled, StopsAt, marked}
use lane_broker.Journal.Run.{Represents, length-encode}
use lane_broker.Journal.Log.{Journal, line_of}
use lane_broker.Journal.Bytes.{All-suffix, located-append}
use lane_broker.Journal.Lines.{
  Follows, Follows-prefix, Numbered, Numbered-Follows, Numbered-drop, encode, encode-append,
  located,
}
use lane_broker.Journal.{Codec, Located, Rec}
use lane_broker.Replication.{
  Answers, Ending, ReplicationState, displaced, drain, drained, round, ship, threw,
}
use lane_broker.Replication.Watermark.{
  located-nil, located-split, marked-replicated_offset, marked-replicated_seq, true-ne-false,
}

-- The record can be shipped, and the store keeps its owner meanwhile.
abbrev pub Fine : Codec → (chunk : ℕ) → Journal → (Located → Answers) → Located → Type 0
Fine c chunk j answers l =
    (is_some (ship c chunk j (answers l) l) ≡ true) × ((answers l).owner ≡ true)

-- The outcome of a round from the watermark behind `before`: the records that it moved past are
-- settled, the watermark stands behind them, and it stopped for the reason that it gives.
abbrev pub RoundOutcome :
    Codec
    → (chunk : ℕ) → Journal
    → (Located → Answers)
    → (owns : Bool) (before rest : List Rec) → Option (ReplicationState × Ending)
    → Type 0
RoundOutcome c chunk j answers owns before rest result =
    (sent kept : List Rec) × (after : ReplicationState) × (ending : Ending) × (rest ≡ sent ++ kept)
    × (result ≡ some (after, ending))
    × (after.replicated_seq ≡ length (before ++ sent))
    × (after.replicated_offset ≡ length (encode c (before ++ sent)))
    × All (Settled c chunk j answers) (located c (length (encode c before)) sent)
    × ((owns ≡ false)
        ⊎ StopsAt c chunk j answers ending (located c (length (encode c (before ++ sent))) kept))

module _ (c : Codec) (chunk : ℕ) (j : Journal) (answers : Located → Answers)
    (before rest : List Rec) (s : ReplicationState) (h : Represents c chunk j (before ++ rest))
    (seq : s.replicated_seq ≡ length before)
    (offset : s.replicated_offset ≡ length (encode c before)) where
  Represents-Stands : Stands c j before rest s
  Represents-Stands =
      let all = encode-append c before rest in
      (
        h.tail,
        h.bytes ∙ ap (λ l. l ++ h.tail) all ∙ append_assoc (encode c before) (encode c rest) h.tail,
        h.offset ∙ ap length all ∙ length-append (encode c before) (encode c rest),
        offset,
        Numbered-Follows (s.replicated_seq + 1) rest (
            subst (λ k. Numbered k rest) (omega (arith, seq))
              (Numbered-drop 1 before rest h.numbered)),
      )

  drained_far : Drains c chunk j answers (suc (length j.file)) before rest s
  drained_far =
      drain-stop c chunk j answers (suc (length j.file)) before rest s
        (omega (
          arith,
          length-encode c chunk rest,
          ap length h.bytes,
          ap length (encode-append c before rest),
          length-append (encode c (before ++ rest)) h.tail,
          length-append (encode c before) (encode c rest),
        ))
        (All-suffix (λ r. length (line_of c r) ≤ chunk) before rest h.fits) Represents-Stands

  -- What the last write of a round makes of the ending.
  last_write :
      (owns : Bool) (now : ℕ) (m : ReplicationState) (ending : Ending) (left_over : List Located)
      → drain c chunk j answers (suc (length j.file)) s ≡ some (m, ending)
      → StopsAt c chunk j answers ending left_over
      → (after : ReplicationState) × (last : Ending) × (round c chunk j answers owns now
            (suc (length j.file))
            s
          ≡ some (after, last))
        × (after.replicated_seq ≡ m.replicated_seq)
        × (after.replicated_offset ≡ m.replicated_offset)
        × ((owns ≡ false) ⊎ StopsAt c chunk j answers last left_over)
  unfolding round
  last_write true now m drained left_over run why = (
    record m { failed_rounds = 0; last_round_at = some now },
    drained,
    rw (run, round) refl,
    refl,
    refl,
    inr why,
  )
  last_write true now m threw left_over run why = (
    record m { failed_rounds = m.failed_rounds + 1; last_round_at = some now },
    threw,
    rw (run, round) refl,
    refl,
    refl,
    inr why,
  )
  last_write false now m drained left_over run why =
      (m, displaced, rw (run, round) refl, refl, refl, inl refl)
  last_write false now m threw left_over run why =
      (m, displaced, rw (run, round) refl, refl, refl, inl refl)
  last_write owns now m displaced left_over run why =
      (m, displaced, rw (run, round) refl, refl, refl, inr why)

  pub round-RoundOutcome :
      (owns : Bool) (now : ℕ)
      → RoundOutcome c chunk j answers owns before rest
          (round c chunk j answers owns now (suc (length j.file)) s)
  round-RoundOutcome owns now =
      let (done, stop, ending, all, run, settled, why) = drained_far in
      let at = length (encode c before) in
      let (sent, kept, split, done_is, stop_is) = located-split c at rest done stop all in
      let (after, last, ran, same_seq, same_offset, because) =
        last_write owns now (marked s done) ending stop run why in
      let past : at + length (encode c sent) ≡ length (encode c (before ++ sent)) = sym (
        ap length (encode-append c before sent)
        ∙ length-append (encode c before) (encode c sent)) in
      let order =
        Follows-prefix (some (s.replicated_seq + 1)) sent kept
          (subst (Follows (some (s.replicated_seq + 1))) split Represents-Stands.4) in
      (
        sent,
        kept,
        after,
        last,
        split,
        ran,
        same_seq
            ∙ ap (λ l. (marked s l).replicated_seq) done_is
            ∙ marked-replicated_seq c s at sent order
            ∙ omega (arith, seq, length-append before sent),
        same_offset
            ∙ ap (λ l. (marked s l).replicated_offset) done_is
            ∙ marked-replicated_offset c s at sent offset
            ∙ past,
        subst (All (Settled c chunk j answers)) done_is settled,
        subst (λ l. (owns ≡ false) ⊎ StopsAt c chunk j answers last l)
            (stop_is ∙ ap (λ k. located c k kept) past) because,
      )

  StopsAt-Fine :
      (ending : Ending) (ls : List Located)
      → All (Fine c chunk j answers) ls
      → StopsAt c chunk j answers ending ls
      → (ending ≡ drained) × (ls ≡ [])
  StopsAt-Fine drained ls fine why = (refl, why)
  StopsAt-Fine threw ls fine (l, more, split, thrown) = absurd (
      true-ne-false (sym (subst (All (Fine c chunk j answers)) split fine).0.0 ∙ ap is_some thrown))
  StopsAt-Fine displaced ls fine (l, more, split, lost) =
      absurd (true-ne-false (sym (subst (All (Fine c chunk j answers)) split fine).0.1 ∙ lost))

  -- If every record above the watermark can be shipped and the store keeps its owner, the round ends with
  -- the watermark at the end of what is committed.
  pub round-drained :
      (now : ℕ)
      → All (Fine c chunk j answers) (located c (length (encode c before)) rest)
      → (after : ReplicationState) × (round c chunk j answers true now (suc (length j.file)) s
          ≡ some (after, drained))
        × (after.replicated_seq ≡ j.committed_seq)
        × (after.replicated_offset ≡ j.committed_offset)
  round-drained now fine =
      let (sent, kept, after, ending, split, ran, at_seq, at_offset, settled, because) =
        round-RoundOutcome true now in
      let at = length (encode c before) in
      let past : at + length (encode c sent) ≡ length (encode c (before ++ sent)) = sym (
        ap length (encode-append c before sent)
        ∙ length-append (encode c before) (encode c sent)) in
      let fine_kept =
        All-suffix (Fine c chunk j answers) (located c at sent)
          (located c (length (encode c (before ++ sent))) kept)
          (subst (All (Fine c chunk j answers))
            (ap (located c at) split
              ∙ located-append c at sent kept
              ∙ ap (λ k. located c at sent ++ located c k kept) past)
            fine) in
      elim because [
        | inl e ↦ absurd (true-ne-false e)
        | inr why ↦
            let (same, none_kept) = StopsAt-Fine ending _ fine_kept why in
            let whole : sent ≡ rest =
              sym
                (split ∙ ap (λ l. sent ++ l) (located-nil c _ kept none_kept) ∙ append-nil sent) in
            (
              after,
              ran ∙ ap (λ e. some (after, e)) same,
              at_seq ∙ ap (λ l. length (before ++ l)) whole ∙ sym h.seq,
              at_offset ∙ ap (λ l. length (encode c (before ++ l))) whole ∙ sym h.offset,
            )
      ]
