-- ===== src/Scheduler/Skips/Bounds.antt =====
-- How often the selectors may pass a blocked head (src/scheduler.js), whatever writes fail.
use lane_broker.Prelude.{
  ℕ, ◌+◌, ◌-◌, ◌≤◌, ◌<◌, ◌≡◌, refl, sym, subst, Bool, true, false, not, ◌&&◌, ◌||◌, Option, none,
  some, List, [], ◌∷◌, arith, ltb, leb, if◌then◌else◌, Bool-cases, or_else, All, some_injective,
  if-split,
}
use lane_broker.Fairness.{ConflictRaw}
use lane_broker.Fairness.Stores.{SkipStore}
use lane_broker.Scheduler.Skips.{
  SkipLimits, count_of, since_of, head_phase, is_exhausted, Poll, phase_now, block_changed,
  block_raw, read_skip_state, record_skip, resolve_head_block, conflict_poll, conflict_skips,
}

-- A run of polls that all find `id` at the head, within the grace period that starts at `base`.
abbrev pub InGrace : SkipLimits → (id base : ℕ) → Poll → Type 0
InGrace cfg id base p = (p.head ≡ id) × (base ≤ p.now) × (p.now < base + cfg.head_block_grace_ms)

since-from :
    (base now : ℕ) (o : Option ℕ)
    → ((t : ℕ) → o ≡ some t → base ≤ t)
    → base ≤ now
    → base ≤ or_else o now
since-from base now none b g = g
since-from base now (some t) b g = b t refl

not_exhausted :
    (cfg : SkipLimits) (since now count : ℕ)
    → now < since + cfg.head_block_grace_ms
    → is_exhausted (head_phase cfg since now count) ≡ false
    → count < cfg.conflict_skip_limit
unfolding head_phase
not_exhausted cfg since now count g h = ground arith

module _ {S : Type 0} (store : SkipStore S) where
  -- The record about `id`, if it has a first blocked time, has one that is no earlier than `base`.
  abbrev pub BlockedFrom : (id base : ℕ) → S → Type 0
  BlockedFrom id base s = (t : ℕ) → since_of (read_skip_state store s id) ≡ some t → base ≤ t

  abbrev pub charged : ℕ → S → ℕ
  charged id s = count_of (read_skip_state store s id)

  read_back :
      (s : S) (id : ℕ) (raw : ConflictRaw)
      → raw.head_id ≡ id
      → read_skip_state store (store.write_conflict s id raw) id ≡ some raw
  read_back s id raw e = ground (arith, store.conflict_law s id raw e)

  -- A written record is the one that counts from then on.
  write-charged :
      (id base : ℕ) (s : S) (raw : ConflictRaw)
      → raw.head_id ≡ id
      → ((t : ℕ) → raw.blocked_since ≡ some t → base ≤ t)
      → BlockedFrom id base (store.write_conflict s id raw)
        × (charged id (store.write_conflict s id raw) ≡ raw.count)
  write-charged id base s raw e h =
      subst (λ o. ((t : ℕ) → since_of o ≡ some t → base ≤ t) × (count_of o ≡ raw.count))
        (sym (read_back s id raw e)) (h, refl)

  some-since :
      (id base now : ℕ) (s : S)
      → BlockedFrom id base s
      → base ≤ now
      → (t : ℕ) → some (or_else (since_of (read_skip_state store s id)) now) ≡ some t
      → base ≤ t
  some-since id base now s b g t e =
      subst (λ u. base ≤ u) (some_injective _ _ e) (since-from base now _ b g)

  record_skip-charged :
      (id base now : ℕ) (s : S) (written : Bool)
      → BlockedFrom id base s
      → base ≤ now
      → BlockedFrom id base (record_skip store s id now written).0
        × (charged id (record_skip store s id now written).0
            ≡ charged id s + (if (record_skip store s id now written).1 then 1 else 0))
  unfolding record_skip
  record_skip-charged id base now s true b g =
      write-charged id base s _ refl (some-since id base now s b g)
  record_skip-charged id base now s false b g = (b, ground arith)

  module _ (cfg : SkipLimits) where
    resolve_head_block-charged :
        (id base now : ℕ) (s : S) (written : Bool)
        → BlockedFrom id base s
        → base ≤ now
        → BlockedFrom id base (resolve_head_block store cfg s id now written).0
          × (charged id (resolve_head_block store cfg s id now written).0 ≡ charged id s)
    unfolding resolve_head_block
    resolve_head_block-charged id base now s written b g =
        if-split (λ t. BlockedFrom id base t × (charged id t ≡ charged id s))
          (written && block_changed cfg now (read_skip_state store s id))
          (store.write_conflict s id (block_raw cfg id now (read_skip_state store s id))) s
          (λ h. write-charged id base s _ refl (some-since id base now s b g)) (λ h. (b, refl))

    in_grace :
        (base : ℕ) (s : S) (id now : ℕ)
        → BlockedFrom id base s
        → base ≤ now
        → now < base + cfg.head_block_grace_ms
        → now < or_else (since_of (read_skip_state store s id)) now + cfg.head_block_grace_ms
    in_grace base s id now b g h =
        ground (arith, since-from base now (since_of (read_skip_state store s id)) b g)

    -- What a poll leaves: the count goes up by one with each skip, which the limit allowed.
    abbrev pub PollOk : (id base : ℕ) → S → S × Bool → Type 0
    PollOk id base s q =
        BlockedFrom id base q.0
        × (charged id q.0 ≡ charged id s + (if q.1 then 1 else 0))
        × (q.1 ≡ true → charged id s < cfg.conflict_skip_limit)

    conflict_poll-charged :
        (base : ℕ) (s : S) (p : Poll)
        → BlockedFrom p.head base s
        → base ≤ p.now
        → p.now < base + cfg.head_block_grace_ms
        → PollOk p.head base s (conflict_poll store cfg s p)
    unfolding conflict_poll resolve_head_block
    conflict_poll-charged base s p b g h =
        let r = resolve_head_block-charged p.head base p.now s p.block_written b g in
        let t = (resolve_head_block store cfg s p.head p.now p.block_written).0 in
        if-split (PollOk p.head base s)
          (not (is_exhausted (phase_now cfg p.now (read_skip_state store s p.head)))
            && p.would_start)
          (record_skip store t p.head p.now p.skip_written) (t, false)
          (λ c.
            let q = record_skip-charged p.head base p.now t p.skip_written r.0 g in
            (
              q.0,
              ground (arith, q.1, r.1),
              λ e.
                  not_exhausted cfg (or_else (since_of (read_skip_state store s p.head)) p.now)
                    p.now (charged p.head s) (in_grace base s p.head p.now b g h) (ground arith),
            ))
          (λ c. (r.0, ground (arith, r.1), λ e. ground arith))

    pub conflict_poll-PollOk :
        (id base : ℕ) (s : S) (p : Poll)
        → BlockedFrom id base s
        → InGrace cfg id base p
        → PollOk id base s (conflict_poll store cfg s p)
    conflict_poll-PollOk id base s p b (e, g, h) =
        subst (λ j. BlockedFrom j base s → PollOk j base s (conflict_poll store cfg s p)) e
          (λ b. conflict_poll-charged base s p b g h) b

    -- Over any run of polls that find the same conflicted head within its grace period, whatever
    -- writes fail, the head is skipped at most as often as its remaining allowance.
    pub conflict_skips-bound :
        (id base : ℕ) (s : S) (ps : List Poll)
        → BlockedFrom id base s
        → All (InGrace cfg id base) ps
        → conflict_skips store cfg id s ps ≤ cfg.conflict_skip_limit - charged id s
    unfolding conflict_skips
    conflict_skips-bound id base s [] b a = ground arith
    conflict_skips-bound id base s (p ∷ ps) b (g, a) =
        let q = conflict_poll-PollOk id base s p b g in
        let rest = conflict_skips-bound id base (conflict_poll store cfg s p).0 ps q.0 a in
        ground (arith, q.1, rest, Bool-cases (conflict_poll store cfg s p).1)

    -- A ticket skips a conflicted head exactly when it would start otherwise, the count can be
    -- written, and the head has allowance left or its grace period is over.
    pub conflict_poll-skips :
        (s : S) (p : Poll)
        → (conflict_poll store cfg s p).1 ≡ (
            p.would_start
            && p.skip_written
            && (ltb (charged p.head s) cfg.conflict_skip_limit
                || leb
                    (or_else (since_of (read_skip_state store s p.head)) p.now
                      + cfg.head_block_grace_ms)
                    p.now))
    unfolding conflict_poll resolve_head_block record_skip head_phase
    conflict_poll-skips s p = ground arith
