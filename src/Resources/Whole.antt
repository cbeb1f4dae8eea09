-- ===== src/Resources/Whole.antt =====
-- Whole cores (src/resources.js): what `Math.floor` and `Math.ceil` of a number of cores say.
use lane_broker.Prelude.{ℕ, suc, ◌+◌, ◌-◌, ◌*◌, ◌/◌, ◌≤◌, ◌<◌, ◌≡◌, ◌↔◌, arith}
use native.Mathlib.Nat.{le-div_iff_mul-le, div-lt_iff_lt-mul}
use lane_broker.Resources.{Host, floor_cores, ceil_cores}

pub le-floor_cores : (h : Host) (c x : ℕ) → 0 < h.unit → (c ≤ floor_cores h x) ↔ (c * h.unit ≤ x)
unfolding floor_cores
le-floor_cores h c x pos = le-div_iff_mul-le pos

pub ceil_cores-le : (h : Host) (c x : ℕ) → 0 < h.unit → (ceil_cores h x ≤ c) ↔ (x ≤ c * h.unit)
unfolding ceil_cores
ceil_cores-le h c x pos =
    let q : ((x + (h.unit - 1)) / h.unit < suc c) ↔ (x + (h.unit - 1) < suc c * h.unit) =
      div-lt_iff_lt-mul pos in
    let m : suc c * h.unit ≡ h.unit + c * h.unit = omega arith in
    (
      λ le. omega (arith, q.0 (omega (arith, le)), m),
      λ le. omega (arith, q.1 (omega (arith, le, m, pos))),
    )
