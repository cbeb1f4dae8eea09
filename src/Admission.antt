-- ===== src/Admission.antt =====
-- The CPU and memory decision for one claim (src/admission.js): evaluateCpuAdmission,
-- unavailableDecision, decideAdmission, isCpuOnlyDenial, evaluateElasticAdmission
-- and cooldownActive. Cores are numbers in a fixed unit. The projection for a claim (projectBusy) and
-- the memory verdict (evaluateMemoryAdmission) are arguments.
pub mod Elastic
mod Tests
use lane_broker.Prelude.{
  ℕ, zero, suc, ◌+◌, ◌-◌, Bool, true, false, not, ◌&&◌, Option, none, some, List, ltb, leb, ◌==◌,
  if◌then◌else◌, any_by,
}

pub data CpuVerdict : Type 0 where
  cpu_ok sample_unavailable_empty sample_unavailable_held gate_closed cooling_down over_budget :
      CpuVerdict

-- The memory verdict: `not_sampled` without a memory report, which admits but is not `ok`.
pub data MemoryAnswer : Type 0 where
  memory_fits memory_refused not_sampled : MemoryAnswer

abbrev pub memory_admits : MemoryAnswer → Bool
memory_admits memory_refused = false
memory_admits m = true

abbrev pub is_memory_ok : MemoryAnswer → Bool
is_memory_ok memory_fits = true
is_memory_ok m = false

-- What one evaluation knows: whether the sample is usable, how many leases are held, the budget, and
-- for each claim the projected busy cores and whether memory admits it.
pub record Load : Type 0 where
  pub sampled : Bool
  pub held_count : ℕ
  pub budget : ℕ
  pub projected : ℕ → ℕ
  pub gate_is_closed : Bool
  pub cooldown_blocked : Bool

abbrev pub admits : CpuVerdict → Bool
admits cpu_ok = true
admits sample_unavailable_empty = true
admits v = false

unfoldable pub evaluate_cpu_admission : Load → (claim : ℕ) → CpuVerdict
evaluate_cpu_admission l claim =
    if not l.sampled
    then (if l.held_count == 0 then sample_unavailable_empty else sample_unavailable_held)
    else if l.gate_is_closed
    then gate_closed
    else if l.cooldown_blocked
    then cooling_down
    else if ltb l.budget (l.projected claim)
    then over_budget
    else cpu_ok

-- `decideAdmission`: the CPU verdict, the memory verdict, and whether both admit.
pub record Admission : Type 0 where
  pub cpu_reason : CpuVerdict
  pub memory_reason : MemoryAnswer
  pub admit : Bool
  pub claim : ℕ

unfoldable pub decide_admission : Load → (memory : MemoryAnswer) → (claim : ℕ) → Admission
decide_admission l memory claim =
    let cpu = evaluate_cpu_admission l claim in
    record {
      cpu_reason = cpu;
      memory_reason = memory;
      admit = admits cpu && memory_admits memory;
      claim = claim;
    }

abbrev pub is_over_budget : CpuVerdict → Bool
is_over_budget over_budget = true
is_over_budget v = false

-- `isCpuOnlyDenial`
abbrev pub is_cpu_only_denial : Admission → Bool
is_cpu_only_denial a = not a.admit && is_over_budget a.cpu_reason && is_memory_ok a.memory_reason

-- The loop of `evaluateElasticAdmission` from `lo + count` down to `lo`.
unfoldable pub elastic_loop : Load → (memory : MemoryAnswer) → (lo count : ℕ) → Option Admission
elastic_loop l memory lo zero =
    let a = decide_admission l memory lo in if a.admit then some a else none
elastic_loop l memory lo (suc count) =
    let a = decide_admission l memory (lo + suc count) in
    let smaller = elastic_loop l memory lo count in if a.admit then some a else smaller

-- `evaluateElasticAdmission` over the range of claims that `elasticClaimRange` gives, `none` where the
-- ticket is not elastic or nothing below its declaration can fit. An error is no grant.
unfoldable pub evaluate_elastic_admission :
    Load → (memory : MemoryAnswer) → Admission → (range : Option (ℕ × ℕ)) → Option Admission
evaluate_elastic_admission l memory full none = none
evaluate_elastic_admission l memory full (some (lo, hi)) =
    if is_cpu_only_denial full && leb lo hi then elastic_loop l memory lo (hi - lo) else none

-- A held lease as the cooldown reads it: `queueBypass` and `admittedAt`.
pub record Start : Type 0 where
  pub queue_bypass : Bool
  pub admitted_at : Option ℕ

abbrev pub cooling : (now cooldown_ms : ℕ) → Start → Bool
cooling now cooldown_ms s =
    not s.queue_bypass && elim s.admitted_at [ none ↦ false | some at ↦ ltb now (at + cooldown_ms) ]

unfoldable pub cooldown_active : List Start → (now cooldown_ms : ℕ) → Bool
cooldown_active held now cooldown_ms = any_by (cooling now cooldown_ms) held
