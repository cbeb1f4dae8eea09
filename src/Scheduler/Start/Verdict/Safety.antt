-- ===== src/Scheduler/Start/Verdict/Safety.antt =====
-- What a start of `tryStart` (src/scheduler.js) has passed.
use lane_broker.Prelude.{
  ◌≡◌, ◌⊎◌, inl, inr, true, false, ◌&&◌, ◌||◌, none, some, arith, Bool-cases, is_some, All,
  if-split,
}
use lane_broker.Scheduler.Start.{
  Context, Settings, Evidence, is_blocked, queue_of, head_conflicted, is_head, candidate,
}
use lane_broker.Scheduler.Start.Verdict.{
  Decision, Gates, runnable, floor_walk, floor_winner, bypass_trial, names_ticket, lift_trial,
  floor_admit, bypass_admit, lifted, selection_refusal, gate_refusal, record_refusal, refusal,
  gate_tests,
}
use lane_broker.Scheduler.Start.Verdict.Walks.{
  Agrees, Fine, or_refusal-none, first_refusal-none, floor_walk-Fine, Fine-ticket,
}
use lane_broker.Scheduler.Start.Verdict.Candidates.{candidate-Fine}

module _ (c : Context) (cfg : Settings) (e : Evidence) where
  selection_cases :
      selection_refusal c cfg e ≡ none
      → names_ticket c (candidate c cfg e) ≡ false
      → (lift_trial c cfg e ≡ true) ⊎ ((is_head c ≡ true) × (head_conflicted c ≡ false))
  unfolding selection_refusal
  selection_cases h n =
      ground (arith, Bool-cases (lift_trial c cfg e), Bool-cases (is_some (candidate c cfg e)))

  lift_cases :
      (d : Decision) (g : Gates)
      → gate_refusal c cfg e d g ≡ none
      → names_ticket c (candidate c cfg e) ≡ false
      → lift_trial c cfg e ≡ true
      → lifted c cfg e d g ≡ true
  unfolding gate_refusal
  lift_cases d g h n l =
      let (paused, (unlifted, rest)) = first_refusal-none (gate_tests c cfg e d g) h in
      ground (arith, unlifted, n, l)

  -- A start that the candidate does not name was lifted, or is that of a head without a conflict.
  start_cases :
      (d : Decision) (g : Gates)
      → refusal c cfg e d g ≡ none
      → names_ticket c (candidate c cfg e) ≡ false
      → (lifted c cfg e d g ≡ true) ⊎ ((is_head c ≡ true) × (head_conflicted c ≡ false))
  unfolding refusal
  start_cases d g h n =
      let (s, q, r) =
        or_refusal-none (selection_refusal c cfg e) (gate_refusal c cfg e d g)
          (record_refusal c cfg e d g) h in
      elim (selection_cases s n) [ inl l ↦ inl (lift_cases d g q n l) | inr k ↦ inr k ]

  floor_winner-Fine : All (Agrees c.ticket) (queue_of c) → Fine c (floor_winner c e)
  unfolding floor_winner
  floor_winner-Fine agree =
      if-split (Fine c) (e.floor_barred || (runnable c e c.head && e.head_admitted)) none
        (floor_walk c e (queue_of c)) (λ h. tt) (λ h. floor_walk-Fine c e (queue_of c) agree)

  bypass-unblocked : bypass_trial c cfg e ≡ true → is_blocked c.held c.ticket ≡ false
  unfolding bypass_trial
  bypass-unblocked h = ground arith

  lifted-unblocked :
      (d : Decision) (g : Gates)
      → All (Agrees c.ticket) (queue_of c)
      → lifted c cfg e d g ≡ true
      → is_blocked c.held c.ticket ≡ false
  unfolding lifted floor_admit bypass_admit
  lifted-unblocked d g agree h = elim (Bool-cases (bypass_trial c cfg e)) [
    | inl b ↦ bypass-unblocked b
    | inr b ↦ Fine-ticket c (floor_winner c e) (floor_winner-Fine agree) (ground arith)
  ]

  -- If the queue's own record of the ticket agrees with it, a ticket that starts is blocked by no
  -- held lease: on every path, past the head or not.
  pub start-unblocked :
      (d : Decision) (g : Gates)
      → All (Agrees c.ticket) (queue_of c)
      → refusal c cfg e d g ≡ none
      → is_blocked c.held c.ticket ≡ false
  start-unblocked d g agree h = elim (Bool-cases (names_ticket c (candidate c cfg e))) [
    | inl n ↦ Fine-ticket c (candidate c cfg e) (candidate-Fine c cfg e agree) n
    | inr n ↦ elim (start_cases d g h n) [
      | inl l ↦ lifted-unblocked d g agree l
      | inr (i, k) ↦ Fine-ticket c (some c.head) (k, agree.0) (ground arith)
    ]
  ]
