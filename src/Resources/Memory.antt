-- ===== src/Resources/Memory.antt =====
-- Memory admission (src/resources.js, evaluateMemoryAdmission): what an admitted claim leaves, at once
-- and over a run of admissions.
use lane_broker.Prelude.{
  ℕ, zero, suc, ◌+◌, ◌-◌, ◌≤◌, ◌≡◌, ◌↔◌, refl, Bool, true, false, Option, none, some, List, [], ◌∷◌,
  arith, if◌then◌else◌,
}
use lane_broker.Resources.{
  MemoryVerdict, memory_ok, HeldMemory, growth_reserve, reserved_bytes, evaluate_memory_admission,
}

-- What each held lease comes to use, within its reservation.
abbrev pub AreWithin : (used : List ℕ) → List HeldMemory → Type 0
AreWithin [] [] = Unit
AreWithin [] (m ∷ held) = ⊥
AreWithin (u ∷ used) [] = ⊥
AreWithin (u ∷ used) (m ∷ held) = (u ≤ m.requested) × AreWithin used held

-- What the leases then take beyond what they were observed to use.
abbrev pub grown : (used : List ℕ) → List HeldMemory → ℕ
grown [] held = 0
grown (u ∷ used) [] = 0
grown (u ∷ used) (m ∷ held) = (u - m.observed) + grown used held

abbrev pub in_all : List ℕ → ℕ
in_all [] = 0
in_all (u ∷ used) = u + in_all used

-- The reserve stays free, of the total, where it is known, and of what is available.
abbrev pub ReserveIsLeft : (available : ℕ) (total : Option ℕ) (reserve bytes more : ℕ) → Type 0
ReserveIsLeft available none reserve bytes more = more + reserve ≤ available
ReserveIsLeft available (some t) reserve bytes more =
    (bytes ≤ t - reserve) × (more + reserve ≤ available)

AreWithin-bounds :
    (used : List ℕ) (held : List HeldMemory)
    → AreWithin used held
    → (in_all used ≤ reserved_bytes held) × (grown used held ≤ growth_reserve held)
unfolding reserved_bytes growth_reserve
AreWithin-bounds [] held w = omega arith
AreWithin-bounds (u ∷ used) [] w = absurd w
AreWithin-bounds (u ∷ used) (m ∷ held) w =
    let rest = AreWithin-bounds used held w.1 in
    (omega (arith, w.0, rest.0), omega (arith, w.0, rest.1))

-- Every lease may come to use all of its reservation.
all_used :
    (held : List HeldMemory)
    → (used : List ℕ) × AreWithin used held
      × (in_all used ≡ reserved_bytes held)
      × (grown used held ≡ growth_reserve held)
unfolding reserved_bytes growth_reserve
all_used [] = ([], tt, refl, refl)
all_used (m ∷ held) =
    let (used, within, bytes, more) = all_used held in
    (m.requested ∷ used, (omega arith, within), omega (arith, bytes), omega (arith, more))

memory_ok_iff :
    (available : ℕ) (total : Option ℕ) (held : List HeldMemory) (candidate reserve : ℕ)
    → (evaluate_memory_admission (some available) total held candidate reserve ≡ memory_ok)
      ↔ ReserveIsLeft available total reserve
          (reserved_bytes held + candidate)
          (growth_reserve held + candidate)
unfolding evaluate_memory_admission
memory_ok_iff available none held candidate reserve = ground arith
memory_ok_iff available (some t) held candidate reserve = ground arith

ReserveIsLeft-less :
    (available : ℕ) (total : Option ℕ) (reserve bytes bytes' more more' : ℕ)
    → bytes' ≤ bytes
    → more' ≤ more
    → ReserveIsLeft available total reserve bytes more
    → ReserveIsLeft available total reserve bytes' more'
ReserveIsLeft-less available none reserve bytes bytes' more more' b m l = omega (arith, m, l)
ReserveIsLeft-less available (some t) reserve bytes bytes' more more' b m l =
    (omega (arith, b, l.0), omega (arith, m, l.1))

-- A claim is admitted on a memory report exactly if, whatever each held lease comes to use within its
-- reservation, what they use and the claim are within the total less the reserve, where the total is
-- known, and what they use beyond the observed, the claim and the reserve are within the available.
pub evaluate_memory_admission-leaves_reserve :
    (available : ℕ) (total : Option ℕ) (held : List HeldMemory) (candidate reserve : ℕ)
    → (evaluate_memory_admission (some available) total held candidate reserve ≡ memory_ok) ↔ (
        (used : List ℕ)
        → AreWithin used held
        → ReserveIsLeft available total reserve
            (in_all used + candidate)
            (grown used held + candidate))
evaluate_memory_admission-leaves_reserve available total held candidate reserve =
    let ok = memory_ok_iff available total held candidate reserve in
    (
      λ e used within.
          let le = AreWithin-bounds used held within in
          ReserveIsLeft-less available total reserve _ _ _ _ (omega (arith, le.0))
            (omega (arith, le.1)) (ok.0 e),
      λ fits.
          let (used, within, bytes, more) = all_used held in
          ok.1 (
            ReserveIsLeft-less available total reserve _ _ _ _ (omega (arith, bytes))
              (omega (arith, more)) (fits used within)),
    )

-- What happens to the memory of the held leases: a claim asks for admission, a lease ends, a sample
-- changes what was observed.
pub data MemoryEvent : Type 0 where
  ask : (candidate available : ℕ) → MemoryEvent
  finish : (index : ℕ) → MemoryEvent
  sample : (HeldMemory → ℕ) → MemoryEvent

abbrev pub sampled_held : (HeldMemory → ℕ) → List HeldMemory → List HeldMemory
sampled_held f [] = []
sampled_held f (m ∷ held) = record { requested = m.requested; observed = f m } ∷ sampled_held f held

abbrev pub drop_nth : ℕ → List HeldMemory → List HeldMemory
drop_nth n [] = []
drop_nth zero (m ∷ held) = held
drop_nth (suc n) (m ∷ held) = m ∷ drop_nth n held

abbrev pub is_ok : MemoryVerdict → Bool
is_ok memory_ok = true
is_ok v = false

unfoldable pub memory_step : (total reserve : ℕ) → List HeldMemory → MemoryEvent → List HeldMemory
memory_step total reserve held (ask candidate available) =
    if is_ok (evaluate_memory_admission (some available) (some total) held candidate reserve)
    then record { requested = candidate; observed = 0 } ∷ held
    else held
memory_step total reserve held (finish n) = drop_nth n held
memory_step total reserve held (sample f) = sampled_held f held

unfoldable pub memory_run :
    (total reserve : ℕ) → List HeldMemory → List MemoryEvent → List HeldMemory
memory_run total reserve held [] = held
memory_run total reserve held (e ∷ es) =
    memory_run total reserve (memory_step total reserve held e) es

reserved_bytes-sampled_held :
    (f : HeldMemory → ℕ) (held : List HeldMemory)
    → reserved_bytes (sampled_held f held) ≡ reserved_bytes held
unfolding reserved_bytes
reserved_bytes-sampled_held f [] = refl
reserved_bytes-sampled_held f (m ∷ held) = omega (arith, reserved_bytes-sampled_held f held)

reserved_bytes-drop_nth :
    (n : ℕ) (held : List HeldMemory) → reserved_bytes (drop_nth n held) ≤ reserved_bytes held
unfolding reserved_bytes
reserved_bytes-drop_nth n [] = omega arith
reserved_bytes-drop_nth zero (m ∷ held) = omega arith
reserved_bytes-drop_nth (suc n) (m ∷ held) = omega (arith, reserved_bytes-drop_nth n held)

reserved_bytes-memory_step :
    (total reserve : ℕ) (held : List HeldMemory) (e : MemoryEvent)
    → reserved_bytes held ≤ total - reserve
    → reserved_bytes (memory_step total reserve held e) ≤ total - reserve
unfolding memory_step reserved_bytes evaluate_memory_admission
reserved_bytes-memory_step total reserve held (ask candidate available) h = ground (arith, h)
reserved_bytes-memory_step total reserve held (finish n) h =
    omega (arith, h, reserved_bytes-drop_nth n held)
reserved_bytes-memory_step total reserve held (sample f) h =
    omega (arith, h, reserved_bytes-sampled_held f held)

-- Over any run of admissions, ends of leases and samples that starts within the total less the reserve,
-- what is reserved stays within it.
pub reserved_bytes-memory_run :
    (total reserve : ℕ) (held : List HeldMemory) (es : List MemoryEvent)
    → reserved_bytes held ≤ total - reserve
    → reserved_bytes (memory_run total reserve held es) ≤ total - reserve
unfolding memory_run
reserved_bytes-memory_run total reserve held [] h = h
reserved_bytes-memory_run total reserve held (e ∷ es) h =
    reserved_bytes-memory_run total reserve (memory_step total reserve held e) es
      (reserved_bytes-memory_step total reserve held e h)
