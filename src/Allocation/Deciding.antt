-- ===== src/Allocation/Deciding.antt =====
-- The decisions over the queue and the selection among them, `evaluateQueue` of src/allocation.js.
use lane_broker.Prelude.{
  ℕ, ◌+◌, Bool, true, false, not, ◌&&◌, ◌||◌, Option, none, some, List, [], ◌∷◌, ltb, ◌==◌,
  if◌then◌else◌, length, filter_by, find_by, any_by,
}
use lane_broker.Records.{is_sim}
use lane_broker.Allocation.{
  Candidate, Held, Pool, Reason, conflict, evaluate_candidate, guarded, is_counted, sim_armed,
  unreadable, used_by_class,
}

-- One row of the evaluation: `none` is an unreadable record.
pub record Decision : Type 0 where
  pub id : Option ℕ
  pub index : ℕ
  pub eligible : Bool
  pub reason : Reason
  pub effective_claim : ℕ
  pub safe_backfill : Bool

unfoldable pub decide : Pool → (first_claim index : ℕ) → Candidate → Decision
decide p first_claim index t =
    let safe = ltb 0 index && t.safe_backfill in
    let v =
      evaluate_candidate
        (record p {
          reserved_head = if safe then first_claim else 0;
          idle_exempt = p.idle_exempt && index == 0;
        })
        t in
    record {
      id = some t.id;
      index = index;
      eligible = v.eligible && not (t.conflict_blocked || not (length t.guards == 0));
      reason =
          if t.conflict_blocked
          then conflict
          else elim t.guards [ [] ↦ v.reason | g ∷ gs ↦ guarded g ];
      effective_claim = v.effective_claim;
      safe_backfill = safe;
    }

unfoldable pub decisions : Pool → (first_claim index : ℕ) → List (Option Candidate) → List Decision
decisions p first_claim index [] = []
decisions p first_claim index (none ∷ queue) =
    record {
      id = none;
      index = index;
      eligible = false;
      reason = unreadable;
      effective_claim = 0;
      safe_backfill = false;
    }
    ∷ []
decisions p first_claim index (some t ∷ queue) =
    decide p first_claim index t ∷ decisions p first_claim (index + 1) queue

pub data SelectionReason : Type 0 where
  empty_queue head reserved_head safe_pick skip_budget_exhausted no_eligible backfill :
      SelectionReason

pub record Selection : Type 0 where
  pub pick : Option Decision
  pub reason : SelectionReason
  pub consumed : ℕ

-- The reduction by `d.effectiveClaim < best.effectiveClaim`, from the best so far.
unfoldable pub smallest : Decision → List Decision → Decision
smallest best [] = best
smallest best (d ∷ ds) =
    smallest (if ltb d.effective_claim best.effective_claim then d else best) ds

-- With the budget used up, only a safe backfill is picked.
unfoldable pub pick_safe : Option Decision → Selection
pick_safe none = record { pick = none; reason = skip_budget_exhausted; consumed = 0 }
pick_safe (some d) = record { pick = some d; reason = safe_pick; consumed = 0 }

unfoldable pub select_behind : (open_budget : Bool) → List Decision → Selection
select_behind false behind = pick_safe (find_by (λ (d : Decision). d.safe_backfill) behind)
select_behind true [] = record { pick = none; reason = no_eligible; consumed = 0 }
select_behind true (d ∷ ds) =
    let best = smallest d ds in
    record {
      pick = some best;
      reason = if best.safe_backfill then safe_pick else backfill;
      consumed = if best.safe_backfill then 0 else 1;
    }

unfoldable pub select : (used limit : ℕ) (reserved : Bool) → List Decision → Selection
select used limit reserved [] = record { pick = none; reason = empty_queue; consumed = 0 }
select used limit reserved (d ∷ ds) =
    if d.eligible
    then record { pick = some d; reason = head; consumed = 0 }
    else if reserved
    then record { pick = none; reason = reserved_head; consumed = 0 }
    else select_behind (ltb used limit) (filter_by (λ (e : Decision). e.eligible) ds)

-- What is charged and whether sims are armed, as the locks see it; `p` gives the unit, the budget and
-- what is busy outside any lease.
unfoldable pub pool_of :
    Pool
    → (held : List Held) (queue : List (Option Candidate))
    → (now : ℕ) (last_sim_demand_at : Option ℕ) (window : ℕ) → Pool
pool_of p held queue now last window =
    let used = used_by_class held in
    let queued =
      any_by (λ q. elim q [ none ↦ false | some t ↦ is_sim (Candidate.class t) ]) queue in
    let charged = any_by (λ (l : Held). is_counted l && is_sim l.class) held in
    record p {
      used_tests = used.0;
      used_sims = used.1;
      armed = p.sims_can_arm && sim_armed now last queued charged window;
    }

-- The head's full claim.
unfoldable pub head_claim : List (Option Candidate) → ℕ
head_claim [] = 0
head_claim (none ∷ queue) = 0
head_claim (some t ∷ queue) = t.claim

unfoldable pub evaluate_queue :
    Pool
    → (held : List Held) (queue : List (Option Candidate))
    → (now : ℕ) (last_sim_demand_at : Option ℕ) (window used limit : ℕ) (reserved : Bool)
    → Selection
evaluate_queue p held queue now last window used limit reserved =
    select used limit reserved
      (decisions (pool_of p held queue now last window) (head_claim queue) 0 queue)
