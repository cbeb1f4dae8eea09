-- ===== src/Scheduler/Skips/Interleaved.antt =====
-- The skips of a conflicted head where each ticket has its own record (src/fairness.js) and other
-- tickets stand at the head in between.
use lane_broker.Prelude.{
  ℕ, ◌-◌, ◌≤◌, ◌≡◌, inl, inr, refl, sym, subst, ◌∙◌, Bool, true, false, not, ◌&&◌, some, List, [],
  ◌∷◌, arith, ◌==◌, Bool-cases, All, if-split,
}
use lane_broker.Fairness.{ConflictRaw, Tickets}
use lane_broker.Fairness.Stores.{
  fairness_store, read_conflict_v2, write_conflict_v2, conflict_v2_lem,
}
use lane_broker.Scheduler.Skips.{
  SkipLimits, same_head, since_of, count_of, skip_raw, phase_now, block_changed, block_raw,
  is_exhausted, Poll, read_skip_state, record_skip, resolve_head_block, conflict_poll,
  conflict_skips,
}
use lane_broker.Scheduler.Skips.Bounds.{InGrace, BlockedFrom, charged, conflict_poll-PollOk}

-- What is recorded about `id` is the same in both.
abbrev SameRecord : ℕ → Tickets → Tickets → Type 0
SameRecord id s t = read_conflict_v2 t id ≡ read_conflict_v2 s id

write_elsewhere :
    (s : Tickets) (h id : ℕ) (raw : ConflictRaw)
    → raw.head_id ≡ h
    → (h == id) ≡ false
    → SameRecord id s (write_conflict_v2 s h raw)
write_elsewhere s h id raw e n = ground (arith, conflict_v2_lem s h id raw e)

conflict_poll_elsewhere :
    (cfg : SkipLimits) (s : Tickets) (p : Poll) (id : ℕ)
    → (p.head == id) ≡ false
    → SameRecord id s (conflict_poll fairness_store cfg s p).0
unfolding conflict_poll resolve_head_block record_skip fairness_store
conflict_poll_elsewhere cfg s p id n =
    let prev = read_skip_state fairness_store s p.head in
    let t = (resolve_head_block fairness_store cfg s p.head p.now p.block_written).0 in
    let kept =
      if-split (SameRecord id s) (p.block_written && block_changed cfg p.now prev)
        (write_conflict_v2 s p.head (block_raw cfg p.head p.now prev)) s
        (λ c. write_elsewhere s p.head id _ refl n) (λ c. refl) in
    let after = skip_raw p.head p.now (read_skip_state fairness_store t p.head) in
    if-split (λ (q : Tickets × Bool). SameRecord id s q.0)
      (not (is_exhausted (phase_now cfg p.now prev)) && p.would_start)
      (record_skip fairness_store t p.head p.now p.skip_written) (t, false)
      (λ c.
        if-split (λ (q : Tickets × Bool). SameRecord id s q.0) p.skip_written
          (write_conflict_v2 t p.head after, true) (t, false)
          (λ w. write_elsewhere t p.head id after refl n ∙ kept) (λ w. kept))
      (λ c. kept)

carry :
    (id base : ℕ) (s t : Tickets)
    → SameRecord id s t
    → BlockedFrom fairness_store id base s
    → BlockedFrom fairness_store id base t
      × (charged fairness_store id t ≡ charged fairness_store id s)
unfolding fairness_store
carry id base s t e b =
    subst
      (λ r.
        ((u : ℕ) → since_of (same_head r id) ≡ some u → base ≤ u)
        × (count_of (same_head r id) ≡ charged fairness_store id s))
      (sym e) (b, refl)

-- Each poll that finds `id` at the head falls within its grace period.
abbrev pub InGraceFor : SkipLimits → (id base : ℕ) → Poll → Type 0
InGraceFor cfg id base p = ((p.head == id) ≡ true) → InGrace cfg id base p

-- Over any run of polls, also where other tickets stand at the head in between and whatever writes
-- fail, a conflicted head is skipped within its grace period at most as often as its remaining
-- allowance.
pub conflict_skips-interleaved :
    (cfg : SkipLimits) (id base : ℕ) (s : Tickets) (ps : List Poll)
    → BlockedFrom fairness_store id base s
    → All (InGraceFor cfg id base) ps
    → conflict_skips fairness_store cfg id s ps
      ≤ cfg.conflict_skip_limit - charged fairness_store id s
unfolding conflict_skips
conflict_skips-interleaved cfg id base s [] b a = ground arith
conflict_skips-interleaved cfg id base s (p ∷ ps) b (g, a) =
    let t = (conflict_poll fairness_store cfg s p).0 in
    elim (Bool-cases (p.head == id)) [
      | inl e ↦
          let q = conflict_poll-PollOk fairness_store cfg id base s p b (g e) in
          let rest = conflict_skips-interleaved cfg id base t ps q.0 a in
          ground (arith, q.1, rest, e, Bool-cases (conflict_poll fairness_store cfg s p).1)
      | inr n ↦
          let q = carry id base s t (conflict_poll_elsewhere cfg s p id n) b in
          let rest = conflict_skips-interleaved cfg id base t ps q.0 a in
          ground (arith, q.1, rest, n, Bool-cases (conflict_poll fairness_store cfg s p).1)
    ]
