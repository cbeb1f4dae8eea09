-- ===== src/Allocation.antt =====
-- The allocation between tests and sims that runs beside the live admission (src/allocation.js). CPU is a
-- number in a fixed unit, `unit` of them to a core; the locks, which are fractions of the budget, are
-- written in hundredths of it, so a comparison multiplies by 100. What the live scheduler knows of a
-- ticket (its estimate, its conflicts, its other guards) comes with it in a `Candidate`.
mod Deciding
mod Locks
mod Picks
mod Whole
mod Tests
use lane_broker.Prelude.{
  ℕ, ◌+◌, ◌-◌, ◌*◌, ◌/◌, min, max, Bool, true, false, not, ◌&&◌, ◌||◌, Option, none, some, List, [],
  ◌∷◌, ltb, leb, if◌then◌else◌, or_else,
}
use lane_broker.Records.{Class, LeaseState, running, orphaned, is_sim, test, sim}

-- A held lease: `demand` is the live charge of `charges`, or else what leaseDemandBasis gives.
pub record Held : Type 0 where
  pub synthetic : Bool
  pub state : LeaseState
  pub class : Class
  pub live_charge : Option ℕ
  pub demand_basis : ℕ

unfoldable pub is_charged : LeaseState → Bool
is_charged running = true
is_charged orphaned = true
is_charged LeaseState.done = false

unfoldable pub is_counted : Held → Bool
is_counted l = not l.synthetic && is_charged l.state

-- What tests and what sims are charged.
unfoldable pub used_by_class : List Held → ℕ × ℕ
used_by_class [] = (0, 0)
used_by_class (l ∷ ls) =
    let (tests, sims) = used_by_class ls in
    let demand = or_else l.live_charge l.demand_basis in
    if not (is_counted l)
    then (tests, sims)
    else if is_sim l.class
    then (tests, sims + demand)
    else (tests + demand, sims)

unfoldable pub sim_armed :
    (now : ℕ) (last_sim_demand_at : Option ℕ) (sim_queued sim_charged : Bool) (window : ℕ) → Bool
sim_armed now last queued charged window =
    if queued || charged then true else elim last [ none ↦ false | some at ↦ leb (now - at) window ]

-- The locks in hundredths: those of tests always, those of sims while they are armed.
unfoldable pub test_lock : (budget : ℕ) → ℕ
test_lock budget = 15 * budget

unfoldable pub sim_lock_ceiling : (budget : ℕ) → ℕ
sim_lock_ceiling budget = 30 * budget

unfoldable pub sim_lock : (budget : ℕ) (armed : Bool) → ℕ
sim_lock budget armed = if armed then sim_lock_ceiling budget else 0

pub data Reason : Type 0 where
  fits_now class_lock over_free clamp_impossible conflict unreadable : Reason
  guarded : (guard : ℕ) → Reason

pub record Candidate : Type 0 where
  pub id : ℕ
  pub class : Class
  pub claim : ℕ
  pub min_cpu_cores : Option ℕ
  pub conflict_blocked : Bool
  pub safe_backfill : Bool
  pub guards : List ℕ

-- `min(claim, ceil(min))` where the ticket has a minimum
unfoldable pub floor_claim : (unit : ℕ) → Candidate → ℕ
floor_claim unit t = elim t.min_cpu_cores [
  | none ↦ t.claim
  | some m ↦ min t.claim ((m + (unit - 1)) / unit * unit)
]

-- What a candidate is measured against.
pub record Pool : Type 0 where
  pub unit : ℕ
  pub budget : ℕ
  pub used_tests : ℕ
  pub used_sims : ℕ
  pub external_busy : ℕ
  pub reserved_head : ℕ
  pub armed : Bool
  pub sims_can_arm : Bool
  pub idle_exempt : Bool

pub record Verdict : Type 0 where
  pub eligible : Bool
  pub clamped_claim : ℕ
  pub effective_claim : ℕ
  pub reserved_other : ℕ
  pub reason : Reason

-- `claim > B - simLockCeiling(B)`, for a test where sims can ever be armed
unfoldable pub is_oversized : Pool → Candidate → Bool
is_oversized p t =
    not (is_sim t.class)
    && p.sims_can_arm
    && ltb (100 * p.budget) (100 * t.claim + sim_lock_ceiling p.budget)

-- `floor(B - simLockCeiling(B))`, in whole cores
unfoldable pub clamp_grant : Pool → ℕ
clamp_grant p = (100 * p.budget - sim_lock_ceiling p.budget) / (100 * p.unit) * p.unit

-- What the other class may still claim of its lock, in hundredths.
unfoldable pub reserved_other : Pool → Class → ℕ
reserved_other p test = sim_lock p.budget p.armed - 100 * p.used_sims
reserved_other p sim = test_lock p.budget - 100 * p.used_tests

abbrev pub is_over_free : Reason → Bool
is_over_free over_free = true
is_over_free fits_now = false
is_over_free class_lock = false
is_over_free clamp_impossible = false
is_over_free conflict = false
is_over_free unreadable = false
is_over_free (guarded g) = false

unfoldable pub evaluate_candidate : Pool → Candidate → Verdict
evaluate_candidate p t =
    let impossible = is_oversized p t && ltb (clamp_grant p) p.unit in
    let clamped = if is_oversized p t && not impossible then clamp_grant p else t.claim in
    let effective = min (floor_claim p.unit t) clamped in
    let reserved = reserved_other p t.class in
    let taken = 100 * (effective + p.used_tests + p.used_sims + p.reserved_head) in
    let fits_without_lock = leb (taken + 100 * p.external_busy) (100 * p.budget) in
    let fits = leb (taken + max reserved (100 * p.external_busy)) (100 * p.budget) in
    let blocked = impossible && p.armed in
    let reason =
      if blocked
      then clamp_impossible
      else if fits
      then fits_now
      else if fits_without_lock
      then class_lock
      else over_free in
    record {
      eligible =
          not blocked
          && (fits
              || (p.idle_exempt && is_over_free reason && leb (taken + reserved) (100 * p.budget)));
      clamped_claim = clamped;
      effective_claim = effective;
      reserved_other = reserved;
      reason = reason;
    }
