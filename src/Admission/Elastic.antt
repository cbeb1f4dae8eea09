-- ===== src/Admission/Elastic.antt =====
-- The smaller claims that an elastic ticket may be granted (src/admission.js).
use lane_broker.Prelude.{
  ℕ, zero, suc, ◌+◌, ◌-◌, ◌≤◌, ◌≡◌, ◌⊎◌, refl, true, false, ◌&&◌, Option, none, some, arith, leb,
  is_some, if-split,
}
use lane_broker.Admission.{
  MemoryAnswer, memory_admits, Load, evaluate_cpu_admission, Admission, decide_admission,
  is_cpu_only_denial, elastic_loop, evaluate_elastic_admission,
}

-- A decision that admits with a sample fits its claim under the budget, with the gate open and no
-- cooldown; without one it admits on an empty broker only.
pub decide_admission-fits :
    (l : Load) (memory : MemoryAnswer) (claim : ℕ)
    → (decide_admission l memory claim).admit ≡ true
    → (memory_admits memory ≡ true)
      × (((l.sampled ≡ false) × (l.held_count ≡ 0))
          ⊎ ((l.projected claim ≤ l.budget)
              × (l.gate_is_closed ≡ false)
              × (l.cooldown_blocked ≡ false)))
unfolding decide_admission evaluate_cpu_admission
decide_admission-fits l memory claim h = ground arith

-- A grant is the decision at its own claim, which lies in the range and is admitted.
abbrev pub IsGrant : Load → MemoryAnswer → (lo hi : ℕ) → Option Admission → Type 0
IsGrant l memory lo hi none = Unit
IsGrant l memory lo hi (some a) =
    (a ≡ decide_admission l memory a.claim) × (a.admit ≡ true) × (lo ≤ a.claim) × (a.claim ≤ hi)

widen :
    (l : Load) (m : MemoryAnswer) (lo hi more : ℕ) (o : Option Admission)
    → hi ≤ more
    → IsGrant l m lo hi o
    → IsGrant l m lo more o
widen l m lo hi more none h g = tt
widen l m lo hi more (some a) h (e, y, b, c) = (e, y, b, ground arith)

elastic_loop-IsGrant :
    (l : Load) (m : MemoryAnswer) (lo count : ℕ)
    → IsGrant l m lo (lo + count) (elastic_loop l m lo count)
unfolding elastic_loop decide_admission
elastic_loop-IsGrant l m lo zero =
    if-split (IsGrant l m lo (lo + 0)) (decide_admission l m lo).admit
      (some (decide_admission l m lo)) none (λ h. (refl, h, ground arith, ground arith)) (λ h. tt)
elastic_loop-IsGrant l m lo (suc count) =
    if-split (IsGrant l m lo (lo + suc count)) (decide_admission l m (lo + suc count)).admit
      (some (decide_admission l m (lo + suc count))) (elastic_loop l m lo count)
      (λ h. (refl, h, ground arith, ground arith))
      (λ h.
        widen l m lo (lo + count) (lo + suc count) (elastic_loop l m lo count) (ground arith)
          (elastic_loop-IsGrant l m lo count))

-- An elastic grant is an admitted decision at a claim of the range, and only a denial by the CPU
-- projection alone is ever replaced by one.
pub evaluate_elastic_admission-IsGrant :
    (l : Load) (memory : MemoryAnswer) (full : Admission) (lo hi : ℕ)
    → IsGrant l memory lo hi (evaluate_elastic_admission l memory full (some (lo, hi)))
      × (is_some (evaluate_elastic_admission l memory full (some (lo, hi))) ≡ true
          → is_cpu_only_denial full ≡ true)
unfolding evaluate_elastic_admission
evaluate_elastic_admission-IsGrant l memory full lo hi = (
  if-split (IsGrant l memory lo hi) (is_cpu_only_denial full && leb lo hi)
      (elastic_loop l memory lo (hi - lo)) none
      (λ h.
        widen l memory lo (lo + (hi - lo)) hi (elastic_loop l memory lo (hi - lo)) (ground arith)
          (elastic_loop-IsGrant l memory lo (hi - lo)))
      (λ h. tt),
  λ h. ground arith,
)
