-- ===== src/Priority.antt =====
-- Priority scores, the order of the queue and the reservation that heads it (src/priority.js), and
-- the priority clock (src/priority-clock.js). The weights are natural numbers in a fixed unit, and a
-- score is kept multiplied by `200 * priority_age_max_ms`, so that every factor is exact; the
-- rounding of the floating-point original is left out.
pub mod Order
pub mod Reservation
pub mod Aging
mod Tests
use lane_broker.Prelude.{
  ℕ, ◌+◌, ◌-◌, ◌*◌, ◌≤◌, ◌<◌, min, max, Bool, true, false, not, ◌&&◌, ◌||◌, Option, none, some,
  List, [], ◌∷◌, ◌++◌, map, ltb, leb, ◌==◌, if◌then◌else◌, or_else, sort_by,
}
use lane_broker.Records.{Class, sim, is_sim, Tier, low, medium, high, Ticket}

abbrev pub tier_base : Tier → ℕ
tier_base low = 0
tier_base medium = 1
tier_base high = 2

abbrev pub priority_of : Ticket → Tier
priority_of t = or_else t.priority_admitted medium

-- `resolveLaneNice`: the lane's own nice, the tier's, or the global one; and `effectiveNice`, for nices
-- that are not negative.
unfoldable pub resolve_lane_nice : (own tiered : Option ℕ) → (lane_nice : ℕ) → ℕ
resolve_lane_nice own tiered lane_nice = or_else own (or_else tiered lane_nice)

unfoldable pub effective_nice : (target current : ℕ) → ℕ
effective_nice target current = min 19 (max target current)

-- `sanitizeAccruedMs` and `remotePriorityFrom`: what a runner believes of a submitter's header.
unfoldable pub sanitize_accrued_ms : Option ℕ → ℕ
sanitize_accrued_ms none = 0
sanitize_accrued_ms (some ms) = if leb ms 86400000 then ms else 0

unfoldable pub remote_priority_from : (requested : Option Tier) → (accrued : Option ℕ) → Tier × ℕ
remote_priority_from requested accrued = (or_else requested medium, sanitize_accrued_ms accrued)

-- `originOrNow`: an origin in the future of the priority clock is not trusted.
unfoldable pub origin_or_now : Option ℕ → (now_eff : ℕ) → ℕ
origin_or_now none now_eff = now_eff
origin_or_now (some t) now_eff = if leb t now_eff then t else now_eff

unfoldable pub waited_ms : Ticket → (now_eff : ℕ) → ℕ
waited_ms t now_eff = now_eff - origin_or_now t.prio_origin_at now_eff

unfoldable pub credited_wait_ms : Ticket → (now_eff : ℕ) → ℕ
credited_wait_ms t now_eff = if not t.aging || t.exclusive then 0 else waited_ms t now_eff

pub record PriorityConfig : Type 0 where
  pub weight_tier : ℕ
  pub weight_age : ℕ
  pub priority_age_max_ms : ℕ

-- What config.js requires of the weights and of the age cap.
abbrev pub IsValidConfig : PriorityConfig → Type 0
IsValidConfig cfg =
    (0 < cfg.weight_tier) × (cfg.weight_tier ≤ cfg.weight_age) × (0 < cfg.priority_age_max_ms)

abbrev pub starvation_horizon_ms : PriorityConfig → ℕ
starvation_horizon_ms cfg = 3 * cfg.priority_age_max_ms

abbrev pub is_high : Tier → Bool
is_high high = true
is_high t = false

-- The weight of a whole tier factor, in hundredths of the unit of the score.
abbrev pub tier_unit : PriorityConfig → ℕ
tier_unit cfg = cfg.weight_tier * cfg.priority_age_max_ms

unfoldable pub reaches_top : Ticket → (now_eff : ℕ) → PriorityConfig → Bool
reaches_top t now_eff cfg =
    is_high (priority_of t) || leb (starvation_horizon_ms cfg) (credited_wait_ms t now_eff)

unfoldable pub score : Ticket → (now_eff : ℕ) → PriorityConfig → ℕ
score t now_eff cfg =
    let aged = cfg.weight_age * min cfg.priority_age_max_ms (credited_wait_ms t now_eff) in
    min (if reaches_top t now_eff cfg then 200 * tier_unit cfg else 198 * tier_unit cfg)
      (100 * (tier_unit cfg * tier_base (priority_of t)) + 200 * aged)

-- `effectiveRank`
unfoldable pub effective_rank : Ticket → (now_eff : ℕ) → PriorityConfig → ℕ
effective_rank t now_eff cfg =
    let s = score t now_eff cfg in
    if leb (200 * tier_unit cfg) s then 2 else if leb (100 * tier_unit cfg) s then 1 else 0

unfoldable pub sim_rank : Ticket → (now_eff : ℕ) → PriorityConfig → (sims_after_tests : Bool) → ℕ
sim_rank t now_eff cfg sims_after_tests =
    if sims_after_tests && is_sim t.class && ltb (waited_ms t now_eff) cfg.priority_age_max_ms
    then 1
    else 0

-- The comparator of `orderQueue`: score down, then sim rank, then sequence number.
unfoldable pub goes_before :
    (now_eff : ℕ) → PriorityConfig → (sims_after_tests : Bool) → Ticket → Ticket → Bool
goes_before now_eff cfg after a b =
    let sa = score a now_eff cfg in
    let sb = score b now_eff cfg in
    let ra = sim_rank a now_eff cfg after in
    let rb = sim_rank b now_eff cfg after in
    ltb sb sa || (sa == sb && (ltb ra rb || (ra == rb && ltb a.seq b.seq)))

module _ (now_eff : ℕ) (cfg : PriorityConfig) (sims_after_tests : Bool) where
  -- `flush` of `orderQueue`: the run of readable records, sorted.
  abbrev pub flush : List Ticket → List (Option Ticket)
  flush run = map some (sort_by (goes_before now_eff cfg sims_after_tests) run)

  unfoldable pub order_from : (run : List Ticket) → List (Option Ticket) → List (Option Ticket)
  order_from run [] = flush run
  order_from run (none ∷ rs) = flush run ++ (none ∷ order_from [] rs)
  order_from run (some t ∷ rs) = order_from (run ++ (t ∷ [])) rs

  unfoldable pub order_queue : List (Option Ticket) → List (Option Ticket)
  order_queue raw = order_from [] raw

-- `advanceHwm`: the mark that is stored and the effective time that is returned.
unfoldable pub advance_hwm : (stored wall_now : ℕ) → (written : Bool) → ℕ × ℕ
advance_hwm stored wall_now written =
    if leb wall_now stored
    then (stored, stored)
    else (if written then wall_now else stored, wall_now)

-- `effectiveNow`, which only reads the mark; a missing one is 0.
unfoldable pub effective_now : (stored : Option ℕ) → (wall_now : ℕ) → ℕ
effective_now stored wall_now = max wall_now (or_else stored 0)
