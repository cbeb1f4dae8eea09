-- ===== src/Allocation/Locks.antt =====
-- What the locks of src/allocation.js keep for the other class, and that they cannot starve a test.
use lane_broker.Prelude.{
  ℕ, ◌+◌, ◌-◌, ◌*◌, ◌≤◌, ◌<◌, max, ◌≡◌, ◌⊎◌, inl, inr, refl, ap, true, false, ◌&&◌, arith, ltb,
  ltb→lt, if◌then◌else◌, Bool-cases,
}
use native.Mathlib.Nat.{mul-div-le}
use lane_broker.Allocation.{
  Candidate, Class, Pool, clamp_grant, evaluate_candidate, is_oversized, is_sim, reserved_other,
  sim, sim_lock, sim_lock_ceiling, test, test_lock,
}

-- What a verdict that admits has checked, also where the idle exemption waives the busy host.
eligible_fits :
    (p : Pool) (t : Candidate)
    → (evaluate_candidate p t).eligible ≡ true
    → 100
          * ((evaluate_candidate p t).effective_claim
              + p.used_tests
              + p.used_sims
              + p.reserved_head)
        + reserved_other p t.class
      ≤ 100 * p.budget
unfolding evaluate_candidate
eligible_fits p t e = ground (arith, e)

-- What the two classes are charged, and the lock that a class has to leave to the other.
abbrev pub used_own : Pool → Class → ℕ
used_own p test = p.used_tests
used_own p sim = p.used_sims

abbrev pub used_other : Pool → Class → ℕ
used_other p test = p.used_sims
used_other p sim = p.used_tests

abbrev pub lock_of_other : Pool → Class → ℕ
lock_of_other p test = if p.armed then 30 * p.budget else 0
lock_of_other p sim = 15 * p.budget

both_used : (p : Pool) (k : Class) → p.used_tests + p.used_sims ≡ used_own p k + used_other p k
both_used p test = refl
both_used p sim = omega arith

reserved_other-lock :
    (p : Pool) (k : Class) → reserved_other p k ≡ lock_of_other p k - 100 * used_other p k
unfolding reserved_other test_lock sim_lock sim_lock_ceiling
reserved_other-lock p test = refl
reserved_other-lock p sim = refl

-- A candidate that is admitted leaves the other class its whole lock, or what that class has charged where
-- this is more: an admitted sim leaves the tests' 15 hundredths of the budget, an admitted test those 30
-- of sims while they are armed. The idle exemption never touches the lock.
pub evaluate_candidate-leaves_lock :
    (p : Pool) (t : Candidate)
    → (evaluate_candidate p t).eligible ≡ true
    → 100 * ((evaluate_candidate p t).effective_claim + used_own p t.class + p.reserved_head)
        + max (lock_of_other p t.class) (100 * used_other p t.class)
      ≤ 100 * p.budget
evaluate_candidate-leaves_lock p t e =
    omega (arith, eligible_fits p t e, both_used p t.class, reserved_other-lock p t.class)

clamp_grant-le : (p : Pool) → 0 < p.unit → 100 * clamp_grant p ≤ 70 * p.budget
unfolding clamp_grant sim_lock_ceiling
clamp_grant-le p unit = grind (arith, mul-div-le (100 * p.budget - 30 * p.budget) (100 * p.unit))

clamp_grant_small : (p : Pool) → 0 < p.unit → clamp_grant p < p.unit → 70 * p.budget < 100 * p.unit
unfolding clamp_grant sim_lock_ceiling
clamp_grant_small p unit small = grind arith

fits_idle :
    (p : Pool) (t : Candidate)
    → (is_oversized p t && ltb (clamp_grant p) p.unit) ≡ false
    → p.used_tests + p.used_sims + p.external_busy + p.reserved_head ≡ 0
    → 100 * (if is_oversized p t then clamp_grant p else t.claim) + reserved_other p t.class
      ≤ 100 * p.budget
    → (evaluate_candidate p t).eligible ≡ true
unfolding evaluate_candidate
fits_idle p t possible idle room = elim (Bool-cases (is_oversized p t)) [
  | inl big ↦
      let grant : ltb (clamp_grant p) p.unit ≡ false = ground (arith, possible, big) in
      ground (arith, big, grant, idle, room)
  | inr small ↦ ground (arith, small, idle, room)
]

-- On a host where nothing is charged or busy, a test of any claim is admitted, but for one that is larger
-- than what the lock of sims leaves where that is less than a core.
pub evaluate_candidate-no_starvation :
    (p : Pool) (t : Candidate)
    → t.class ≡ test
    → 0 < p.unit
    → p.sims_can_arm ≡ true
    → p.used_tests + p.used_sims + p.external_busy + p.reserved_head ≡ 0
    → ((evaluate_candidate p t).eligible ≡ true)
      ⊎ ((70 * p.budget < 100 * p.unit) × (70 * p.budget < 100 * t.claim))
unfolding is_oversized sim_lock_ceiling
evaluate_candidate-no_starvation p t c unit can idle =
    let lock : reserved_other p t.class ≤ 30 * p.budget =
      ground (arith, reserved_other-lock p test, ap (reserved_other p) c) in
    let tested : is_sim t.class ≡ false = ap is_sim c in
    elim (Bool-cases (is_oversized p t)) [
      | inr small ↦
          let within : 100 * t.claim ≤ 70 * p.budget = ground (arith, small, tested, can) in
          inl (fits_idle p t (rw small refl) idle (rw small (omega (arith, within, lock))))
      | inl big ↦ elim (Bool-cases (ltb (clamp_grant p) p.unit)) [
        | inr whole ↦ inl (
            fits_idle p t (rw (big, whole) refl) idle
              (rw big (omega (arith, clamp_grant-le p unit, lock))))
        | inl tiny ↦
            inr (clamp_grant_small p unit (ltb→lt _ _ tiny), ground (arith, big, tested, can))
      ]
    ]
