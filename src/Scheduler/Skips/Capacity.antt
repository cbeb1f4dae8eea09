-- ===== src/Scheduler/Skips/Capacity.antt =====
-- How often the selectors may pass a head that does not fit (src/scheduler.js), whatever writes
-- fail and however long it waits.
use lane_broker.Prelude.{
  ℕ, ◌+◌, ◌-◌, ◌≤◌, ◌<◌, ◌≡◌, refl, subst, Bool, true, false, not, ◌&&◌, List, [], ◌∷◌, arith,
  if◌then◌else◌, Bool-cases, All, if-split,
}
use lane_broker.Fairness.{CapacityRaw}
use lane_broker.Fairness.Stores.{SkipStore}
use lane_broker.Scheduler.Skips.{
  SkipLimits, same_phase, capacity_count_of, capacity_phase, capacity_skip_raw, capacity_block_raw,
  capacity_logged_of, is_exhausted, Poll, read_capacity_skip_state, record_capacity_skip,
  resolve_capacity_block, capacity_poll, capacity_skips,
}

module _ {S : Type 0} (store : SkipStore S) where
  abbrev pub capacity_charged : ℕ → S → ℕ
  capacity_charged id s = capacity_count_of (read_capacity_skip_state store s id)

  -- A written record is the one that counts from then on.
  write_capacity-charged :
      (id : ℕ) (s : S) (raw : CapacityRaw)
      → raw.head_id ≡ id
      → capacity_charged id (store.write_capacity s id raw) ≡ raw.count
  write_capacity-charged id s raw e = ground (arith, store.capacity_law s id raw e)

  module _ (cfg : SkipLimits) where
    resolve_capacity_block-charged :
        (id : ℕ) (s : S) (written : Bool)
        → capacity_charged id (resolve_capacity_block store cfg s id written).0
          ≡ capacity_charged id s
    unfolding resolve_capacity_block
    resolve_capacity_block-charged id s written =
        if-split (λ t. capacity_charged id t ≡ capacity_charged id s)
          (written
            && not (
                same_phase (capacity_phase cfg (read_capacity_skip_state store s id))
                  (capacity_logged_of (read_capacity_skip_state store s id))))
          (store.write_capacity s id
            (capacity_block_raw cfg id (read_capacity_skip_state store s id)))
          s (λ h. write_capacity-charged id s _ refl) (λ h. refl)

    -- What a poll leaves: the count goes up by one with each skip, which the limit allowed.
    abbrev CapacityPollOk : (id : ℕ) → S → S × Bool → Type 0
    CapacityPollOk id s q =
        (capacity_charged id q.0 ≡ capacity_charged id s + (if q.1 then 1 else 0))
        × (q.1 ≡ true → capacity_charged id s < cfg.conflict_skip_limit)

    capacity_poll-charged :
        (s : S) (p : Poll) → CapacityPollOk p.head s (capacity_poll store cfg s p)
    unfolding capacity_poll resolve_capacity_block record_capacity_skip
    capacity_poll-charged s p =
        let t = (resolve_capacity_block store cfg s p.head p.block_written).0 in
        let r = resolve_capacity_block-charged p.head s p.block_written in
        if-split (CapacityPollOk p.head s)
          (not (is_exhausted (capacity_phase cfg (read_capacity_skip_state store s p.head)))
            && p.would_start)
          (record_capacity_skip store t p.head p.skip_written) (t, false)
          (λ c.
            if-split (CapacityPollOk p.head s) p.skip_written
              (
                store.write_capacity t p.head
                    (capacity_skip_raw p.head (read_capacity_skip_state store t p.head)),
                true,
              )
              (t, false)
              (λ w. (
                ground (
                  arith,
                  r,
                  write_capacity-charged p.head t
                      (capacity_skip_raw p.head (read_capacity_skip_state store t p.head)) refl,
                ),
                λ z. ground arith,
              ))
              (λ w. (ground (arith, r), λ z. ground arith)))
          (λ c. (ground (arith, r), λ z. ground arith))

    -- Over any run of polls that find the same head not fitting, whatever writes fail and however
    -- long the run is, the head is skipped at most as often as its remaining allowance.
    pub capacity_skips-bound :
        (id : ℕ) (s : S) (ps : List Poll)
        → All (λ (p : Poll). p.head ≡ id) ps
        → capacity_skips store cfg id s ps ≤ cfg.conflict_skip_limit - capacity_charged id s
    unfolding capacity_skips
    capacity_skips-bound id s [] a = ground arith
    capacity_skips-bound id s (p ∷ ps) (e, a) =
        let q =
          subst (λ j. CapacityPollOk j s (capacity_poll store cfg s p)) e
            (capacity_poll-charged s p) in
        let rest = capacity_skips-bound id (capacity_poll store cfg s p).0 ps a in
        ground (arith, q, rest, Bool-cases (capacity_poll store cfg s p).1)
