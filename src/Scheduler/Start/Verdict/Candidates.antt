-- ===== src/Scheduler/Start/Verdict/Candidates.antt =====
-- The ticket that `tryStart` (src/scheduler.js) lets start past others.
use lane_broker.Prelude.{
  ◌≡◌, refl, Bool, true, false, not, ◌&&◌, ◌||◌, none, some, arith, if◌then◌else◌, All, if-split,
}
use lane_broker.Scheduler.Blocking.{select_candidate, select_capacity_candidate}
use lane_broker.Scheduler.Start.{
  Context, Settings, Evidence, lease_key, is_blocked, running_weight, queue_of, head_conflicted,
  head_capacity_blocked, is_head, safe_backfill, express_eligible, priority_yield_eligible,
  express_admit, head_bypass, walk_queue, rest_of, select_resource_candidate, conflict_pick,
  or_option, conflict_candidate, capacity_candidate, open_candidate, candidate,
}
use lane_broker.Scheduler.Start.Verdict.Walks.{
  Agrees, Fine, walk_queue-Agrees, All-rest, or_option-Fine, select_candidate-Fine,
  select_capacity_candidate-Fine, resource_loop-Fine, delay-unblocked,
}

module _ (c : Context) (cfg : Settings) (e : Evidence) where
  safe-unblocked : safe_backfill c cfg e ≡ true → is_blocked c.held c.ticket ≡ false
  unfolding safe_backfill
  safe-unblocked h = delay-unblocked c c.ticket (ground arith)

  yield-unblocked : priority_yield_eligible c cfg e ≡ true → is_blocked c.held c.ticket ≡ false
  unfolding priority_yield_eligible
  yield-unblocked h = delay-unblocked c c.ticket (ground arith)

  express-unblocked : express_eligible c cfg e ≡ true → is_blocked c.held c.ticket ≡ false
  unfolding express_eligible
  express-unblocked h = ground arith

  passing-unblocked :
      (safe_backfill c cfg e || head_bypass c cfg e) ≡ true → is_blocked c.held c.ticket ≡ false
  unfolding head_bypass express_admit
  passing-unblocked h = ground (arith, safe-unblocked, yield-unblocked, express-unblocked)

  resource-Fine :
      (reserved : Bool)
      → All (Agrees c.ticket) (queue_of c)
      → Fine c (select_resource_candidate c e reserved)
  unfolding select_resource_candidate
  resource-Fine reserved agree =
      resource_loop-Fine c reserved e.claim_of (rest_of (walk_queue c)) none
        (All-rest c (walk_queue c) (walk_queue-Agrees c agree)) tt

  conflict_pick-Fine :
      All (Agrees c.ticket) (queue_of c)
      → Fine c (or_option (conflict_pick c e) (select_candidate lease_key (walk_queue c) c.held))
  unfolding conflict_pick
  conflict_pick-Fine agree =
      let walk = select_candidate-Fine c (walk_queue c) (walk_queue-Agrees c agree) in
      if-split (λ o. Fine c (or_option o (select_candidate lease_key (walk_queue c) c.held)))
        (head_conflicted c && not e.skip_exhausted && e.behind_conflict_record)
        (select_resource_candidate c e true) none
        (λ h. or_option-Fine c _ _ (resource-Fine true agree) walk) (λ h. walk)

  capacity-Fine : All (Agrees c.ticket) (queue_of c) → Fine c (capacity_candidate c e)
  capacity-Fine agree =
      if-split (Fine c) (e.capacity_skip_exhausted || e.capacity_reserved) none
        (select_capacity_candidate lease_key (walk_queue c) c.held (running_weight c.held)
          c.weight_capacity)
        (λ h. tt)
        (λ h.
          select_capacity_candidate-Fine c (walk_queue c) (running_weight c.held) c.weight_capacity
            (walk_queue-Agrees c agree))

  open-Fine :
      head_conflicted c ≡ false → All (Agrees c.ticket) (queue_of c) → Fine c (open_candidate c e)
  open-Fine k agree =
      if-split (Fine c) (e.resource_backfill && not (is_head c))
        (select_resource_candidate c e false) (some c.head) (λ h. resource-Fine false agree)
        (λ h. (k, agree.0))

  pub candidate-Fine : All (Agrees c.ticket) (queue_of c) → Fine c (candidate c cfg e)
  unfolding candidate
  candidate-Fine agree =
      if-split (Fine c) (safe_backfill c cfg e || head_bypass c cfg e) (some c.ticket)
        (if head_conflicted c
          then conflict_candidate c e
          else if head_capacity_blocked c
          then capacity_candidate c e
          else open_candidate c e)
        (λ h. (passing-unblocked h, λ i. (refl, refl, refl)))
        (λ h.
          if-split (Fine c) (head_conflicted c) (conflict_candidate c e)
            (if head_capacity_blocked c then capacity_candidate c e else open_candidate c e)
            (λ k.
              if-split (Fine c) e.skip_exhausted none
                (or_option (conflict_pick c e) (select_candidate lease_key (walk_queue c) c.held))
                (λ x. tt) (λ x. conflict_pick-Fine agree))
            (λ k.
              if-split (Fine c) (head_capacity_blocked c) (capacity_candidate c e)
                (open_candidate c e) (λ x. capacity-Fine agree) (λ x. open-Fine k agree)))
