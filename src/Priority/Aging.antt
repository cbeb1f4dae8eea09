-- ===== src/Priority/Aging.antt =====
-- What tiers and waiting decide (src/priority.js), and the clock they are read from.
use lane_broker.Prelude.{
  ℕ, ◌*◌, ◌≤◌, ◌<◌, min, ◌≡◌, ◌≢◌, ◌⊎◌, inl, inr, refl, Bool, true, false, arith, Option-cases,
  mul_pos, mul_mono,
}
use lane_broker.Priority.{
  priority_of, origin_or_now, waited_ms, credited_wait_ms, PriorityConfig, IsValidConfig,
  starvation_horizon_ms, is_high, tier_unit, reaches_top, score, advance_hwm,
}
use lane_broker.Records.{Tier, low, medium, high, Ticket}

tier_cases : (t : Tier) → (is_high t ≡ false) ⊎ (t ≡ high)
tier_cases low = inl refl
tier_cases medium = inl refl
tier_cases high = inr refl

-- A high ticket has the highest score there is, however long others waited.
score-high :
    (t : Ticket) (now_eff : ℕ) (cfg : PriorityConfig)
    → priority_of t ≡ high
    → score t now_eff cfg ≡ 200 * tier_unit cfg
unfolding score reaches_top
score-high t now_eff cfg h = ground (arith, Option-cases t.priority_admitted)

-- A ticket below high scores strictly less than every high ticket until its credited wait reaches
-- the starvation horizon.
pub score_below_high :
    (t h : Ticket) (now_eff : ℕ) (cfg : PriorityConfig)
    → IsValidConfig cfg
    → priority_of h ≡ high
    → priority_of t ≢ high
    → credited_wait_ms t now_eff < starvation_horizon_ms cfg
    → score t now_eff cfg < score h now_eff cfg
unfolding score reaches_top
score_below_high t h now_eff cfg v eh et w = ground (
  arith,
  score-high h now_eff cfg eh,
  mul_pos cfg.weight_tier cfg.priority_age_max_ms v.0 v.2,
  tier_cases (priority_of t),
)

-- From the horizon on, a ticket of any tier ties a high ticket, and no score exceeds a high one's.
pub score_at_horizon :
    (t h : Ticket) (now_eff : ℕ) (cfg : PriorityConfig)
    → IsValidConfig cfg
    → priority_of h ≡ high
    → starvation_horizon_ms cfg ≤ credited_wait_ms t now_eff
    → score t now_eff cfg ≡ score h now_eff cfg
unfolding score reaches_top
score_at_horizon t h now_eff cfg v eh w = ground (
  arith,
  score-high h now_eff cfg eh,
  mul_mono cfg.weight_tier cfg.weight_age cfg.priority_age_max_ms
      (min cfg.priority_age_max_ms (credited_wait_ms t now_eff)) v.1 (ground arith),
)

credited_wait_ms_mono :
    (t : Ticket) (now later : ℕ) → now ≤ later → credited_wait_ms t now ≤ credited_wait_ms t later
unfolding credited_wait_ms waited_ms origin_or_now
credited_wait_ms_mono t now later h = ground (arith, Option-cases t.prio_origin_at)

-- A later effective time gives a ticket at least the score of an earlier one.
pub score_mono :
    (t : Ticket) (now later : ℕ) (cfg : PriorityConfig)
    → now ≤ later
    → score t now cfg ≤ score t later cfg
unfolding score reaches_top
score_mono t now later cfg h = ground (
  arith,
  mul_mono cfg.weight_age cfg.weight_age (min cfg.priority_age_max_ms (credited_wait_ms t now))
      (min cfg.priority_age_max_ms (credited_wait_ms t later)) (ground arith)
      (ground (arith, credited_wait_ms_mono t now later h)),
  credited_wait_ms_mono t now later h,
)

-- The effective time never steps back, whatever the wall clock does, if the mark is written.
pub advance_hwm_mono :
    (stored first second : ℕ) (written : Bool)
    → (advance_hwm stored first true).1
      ≤ (advance_hwm (advance_hwm stored first true).0 second written).1
unfolding advance_hwm
advance_hwm_mono stored first second written = ground arith
