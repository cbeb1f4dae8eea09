-- ===== src/Replication/Drain.antt =====
-- Draining the journal from the watermark (the loop of `round` in src/store/replicate.js).
use lane_broker.Prelude.{
  ℕ, zero, suc, ◌+◌, ◌≤◌, ◌<◌, ◌≡◌, refl, sym, ap, subst, ◌∙◌, Option, some, List, [], ◌∷◌, ◌++◌,
  append-nil, append_assoc, arith, length, length-append, All, All-append,
}
use lane_broker.Journal.{Codec, Located, Rec, Result, ok, read_journal_from}
use lane_broker.Journal.Log.{Journal, line_of}
use lane_broker.Journal.Lines.{encode, encode-append, located}
use lane_broker.Journal.Bytes.{All-suffix, Fits, located-append}
use lane_broker.Journal.Reading.{read_journal_from-chunk, read_journal_from-end}
use lane_broker.Replication.{
  Answers, Ending, ReplicationState, displaced, drain, drained, ship_entries, threw,
}
use lane_broker.Replication.Settled.{Settled, StopsAt, marked, marked-append, ship_entries-stop}
use lane_broker.Replication.Stands.{Stands, Stands-marked}

module _ (c : Codec) (chunk : ℕ) (j : Journal) (answers : Located → Answers) where
  located_past :
      (before : List Rec) (r : Rec) (xs ys : List Rec)
      → located c (length (encode c before)) (r ∷ (xs ++ ys))
        ≡ located c (length (encode c before)) (r ∷ xs)
          ++ located c (length (encode c (before ++ (r ∷ xs)))) ys
  located_past before r xs ys =
      located-append c (length (encode c before)) (r ∷ xs) ys
      ∙ ap (λ k. located c (length (encode c before)) (r ∷ xs) ++ located c k ys)
          (sym (
            ap length (encode-append c before (r ∷ xs))
            ∙ length-append (encode c before) (encode c (r ∷ xs))))

  -- Draining settles and marks the entries before a stop.
  abbrev pub Drains : (fuel : ℕ) (before rest : List Rec) → ReplicationState → Type 0
  Drains fuel before rest s =
      (done stop : List Located) × (ending : Ending) × (located c (length (encode c before)) rest
        ≡ done ++ stop)
      × (drain c chunk j answers fuel s ≡ some (marked s done, ending))
      × All (Settled c chunk j answers) done
      × StopsAt c chunk j answers ending stop

  abbrev next_chunk : ReplicationState → Result (List Located)
  next_chunk s =
      read_journal_from c (some j.file) s.replicated_offset chunk (some (s.replicated_seq + 1))
        (some j.committed_offset)

  next_chunk-Stands :
      (before rest : List Rec) (s : ReplicationState)
      → (stands : Stands c j before rest s)
      → next_chunk s
        ≡ read_journal_from c
            (some (encode c before ++ (encode c rest ++ stands.0)))
            (length (encode c before))
            chunk
            (some (s.replicated_seq + 1))
            (some (length (encode c before) + length (encode c rest)))
  next_chunk-Stands before rest s (tail, file, top, at, order) =
      ap
        (λ f.
          read_journal_from c (some f) s.replicated_offset chunk (some (s.replicated_seq + 1))
            (some j.committed_offset))
        file
      ∙ ap
          (λ k.
            read_journal_from c (some (encode c before ++ (encode c rest ++ tail))) k chunk
              (some (s.replicated_seq + 1)) (some j.committed_offset))
          at
      ∙ ap
          (λ k.
            read_journal_from c (some (encode c before ++ (encode c rest ++ tail)))
              (length (encode c before)) chunk (some (s.replicated_seq + 1)) (some k))
          top

  drain-end :
      (fuel : ℕ) (s : ReplicationState)
      → next_chunk s ≡ ok []
      → drain c chunk j answers (suc fuel) s ≡ some (s, drained)
  unfolding drain
  drain-end fuel s e = rw (e, drain) refl

  drain-chunk :
      (fuel : ℕ) (s after : ReplicationState) (ending : Ending) (l : Located) (ls : List Located)
      → next_chunk s ≡ ok (l ∷ ls)
      → ship_entries c chunk j answers (l ∷ ls) s ≡ (after, ending)
      → drain c chunk j answers (suc fuel) s
        ≡ elim ending as (λ e. Option (ReplicationState × Ending)) [
          | drained ↦ drain c chunk j answers fuel after
          | threw ↦ some (after, threw)
          | displaced ↦ some (after, displaced)
        ]
  unfolding drain
  drain-chunk fuel s after ending l ls e pass =
      rw (e, drain)
        (ap
          (λ (p : ReplicationState × Ending).
            elim p.1 as (λ e. Option (ReplicationState × Ending)) [
              | drained ↦ drain c chunk j answers fuel p.0
              | threw ↦ some (p.0, threw)
              | displaced ↦ some (p.0, displaced)
            ])
          pass)

  stop-append :
      (all done stop more : List Located) (e : all ≡ done ++ stop)
      → all ++ more ≡ done ++ (stop ++ more)
  stop-append all done stop more e = ap (λ l. l ++ more) e ∙ append_assoc done stop more

  -- One chunk of a round, by how it ends.
  drain-step :
      (fuel : ℕ) (s : ReplicationState) (before : List Rec) (r : Rec) (xs ys : List Rec)
      → next_chunk s ≡ ok (located c (length (encode c before)) (r ∷ xs))
      → (done stop : List Located) (ending : Ending)
      → located c (length (encode c before)) (r ∷ xs) ≡ done ++ stop
      → ship_entries c chunk j answers (located c (length (encode c before)) (r ∷ xs)) s
        ≡ (marked s done, ending)
      → All (Settled c chunk j answers) done
      → StopsAt c chunk j answers ending stop
      → Drains fuel
          (before ++ (r ∷ xs))
          ys
          (marked s (located c (length (encode c before)) (r ∷ xs)))
      → Drains (suc fuel) before (r ∷ (xs ++ ys)) s
  unfolding located
  drain-step fuel s before r xs ys read done stop drained all pass settled whole later =
      let at = length (encode c before) in
      let chunk_done : done ≡ located c at (r ∷ xs) =
        sym (all ∙ ap (λ l. done ++ l) whole ∙ append-nil done) in
      let (more, rest, ending, split, run, more_settled, why) = later in
      (
        done ++ more,
        rest,
        ending,
        located_past before r xs ys
            ∙ ap (λ l. located c at (r ∷ xs) ++ l) split
            ∙ ap (λ l. l ++ (more ++ rest)) (sym chunk_done)
            ∙ sym (append_assoc done more rest),
        drain-chunk fuel s _ drained _ _ read pass
            ∙ ap (λ l. drain c chunk j answers fuel (marked s l)) chunk_done
            ∙ run
            ∙ ap (λ l. some (marked (marked s l) more, ending)) (sym chunk_done)
            ∙ ap (λ t. some (t, ending)) (sym (marked-append s done more)),
        All-append (Settled c chunk j answers) done more settled more_settled,
        why,
      )
  drain-step fuel s before r xs ys read done stop threw all pass settled (l, more, split, thrown)
        later =
      let rest = located c (length (encode c (before ++ (r ∷ xs)))) ys in
      (
        done,
        stop ++ rest,
        threw,
        located_past before r xs ys ∙ stop-append _ done stop rest all,
        drain-chunk fuel s _ threw _ _ read pass,
        settled,
        (l, more ++ rest, ap (λ k. k ++ rest) split, thrown),
      )
  drain-step fuel s before r xs ys read done stop displaced all pass settled (l, more, split, lost)
        later =
      let rest = located c (length (encode c (before ++ (r ∷ xs)))) ys in
      (
        done,
        stop ++ rest,
        displaced,
        located_past before r xs ys ∙ stop-append _ done stop rest all,
        drain-chunk fuel s _ displaced _ _ read pass,
        settled,
        (l, more ++ rest, ap (λ k. k ++ rest) split, lost),
      )

  refl_located : (before : List Rec) → located c (length (encode c before)) [] ≡ []
  unfolding located
  refl_located before = refl

  no_more :
      (before : List Rec)
      → length (encode c before) + length (encode c []) ≤ length (encode c before)
  unfolding encode
  no_more before = omega arith

  -- Draining from a watermark settles records up to the first that cannot be shipped, marks those, and
  -- ends because of that one or because there is none.
  pub drain-stop :
      (fuel : ℕ) (before rest : List Rec) (s : ReplicationState)
      → length rest < fuel
      → Fits c chunk rest
      → Stands c j before rest s
      → Drains fuel before rest s
  unfolding marked
  drain-stop zero before rest s f fits stands = absurd (omega arith)
  drain-stop (suc fuel) before [] s f fits stands = (
    [],
    [],
    drained,
    refl_located before,
    drain-end fuel s (
        next_chunk-Stands before [] s stands
        ∙ read_journal_from-end c _ _ chunk _ _ (no_more before)),
    tt,
    refl,
  )
  drain-stop (suc fuel) before (r ∷ rs) s f fits stands =
      let (xs, ys, split, read) =
        read_journal_from-chunk c before r rs stands.0 chunk (some (s.replicated_seq + 1)) fits.0
          stands.4 in
      let chunk_read = next_chunk-Stands before (r ∷ rs) s stands ∙ read in
      let (done, stop, ending, all, pass, settled, why) =
        ship_entries-stop c chunk j answers (located c (length (encode c before)) (r ∷ xs)) s in
      subst (λ l. Drains (suc fuel) before (r ∷ l) s) (sym split)
        (drain-step fuel s before r xs ys chunk_read done stop ending all pass settled why (
          drain-stop fuel (before ++ (r ∷ xs)) ys _
            (omega (arith, ap length split, length-append xs ys))
            (All-suffix (λ x. length (line_of c x) ≤ chunk) xs ys
              (subst (Fits c chunk) split fits.1))
            (Stands-marked c j before r rs xs ys s split stands)))
