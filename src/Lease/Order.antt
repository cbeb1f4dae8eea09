-- ===== src/Lease/Order.antt =====
-- The order of the signals of stepOrphanReap (src/lease.js): which processes are termed before they are killed.
use lane_broker.Prelude.{
  ℕ, ◌-◌, ◌≤◌, ◌<◌, ◌≡◌, refl, ap, true, false, not, Option, none, some, List, [], ◌∷◌, arith, ◌==◌,
  or_else, is_some, any_by,
}
use lane_broker.Records.{OrphanReap}
use lane_broker.Lease.{
  orphan_kill_give_up_ms, orphan_unreadable_give_up_ms, signal_pass, held, step_orphan_reap, Lease,
  next_reap, first_pass, not, false, any_by, Member,
}

-- No key stands twice in the list.
abbrev pub Distinct : List ℕ → Type 0
Distinct [] = Unit
Distinct (x ∷ xs) = (any_by (λ k. k == x) xs ≡ false) × Distinct xs

-- What holds of the record of a reap between two passes: no member was sent the same signal twice,
-- and no KILL was sent before the grace period after the first TERM was over.
pub record IsOrderly (grace : ℕ) (state : OrphanReap) : Type 0 where
  pub termed_once : Distinct state.termed
  pub killed_once : Distinct state.killed
  pub no_early_kill : state.kill_at ≡ none → state.killed ≡ []
  pub after_grace : (k : ℕ) → state.kill_at ≡ some k → grace ≤ k - state.term_at

module _ (grace : ℕ) (lease : Lease) (state : OrphanReap) (now : ℕ)
    (rows : Option (List Member)) where
  pub next_reap_clocks :
      let next = next_reap grace lease state now rows in
      (next.term_at ≡ state.term_at)
      × ((k : ℕ) → state.kill_at ≡ some k → next.kill_at ≡ some k)
      × ((k : ℕ) → state.kill_at ≡ none → next.kill_at ≡ some k → k ≡ now)
  unfolding next_reap
  next_reap_clocks = (refl, λ k e. ground arith, λ k e f. ground arith)

-- A pass that keeps the lease writes the next record.
pub step_held :
    (grace : ℕ) (lease : Lease) (now : ℕ) (rows : Option (List Member)) (l : Lease)
    → step_orphan_reap grace lease now rows ≡ held l
    → l.orphan_reap
      ≡ some (next_reap grace lease (or_else lease.orphan_reap (first_pass now)) now rows)
unfolding step_orphan_reap signal_pass
step_held grace lease now rows l h = ground arith

module _ (grace : ℕ) (lease : Lease) (now : ℕ) (rows : Option (List Member)) (l : Lease)
    (state : OrphanReap) (reaping : lease.orphan_reap ≡ some state)
    (kept : step_orphan_reap grace lease now rows ≡ held l) where
  pub held_next : l.orphan_reap ≡ some (next_reap grace lease state now rows)
  held_next =
      rw (← ap (λ r. or_else r (first_pass now)) reaping) (step_held grace lease now rows l kept)

  -- Late passes keep a lease only if a KILL was sent, and only for so long after it.
  pub held_late :
      orphan_unreadable_give_up_ms ≤ now - state.term_at
      → is_some (next_reap grace lease state now rows).kill_at ≡ true
  unfolding step_orphan_reap signal_pass
  held_late late = ground arith

  pub held_after_kill : (k : ℕ) → state.kill_at ≡ some k → now - k < orphan_kill_give_up_ms
  unfolding step_orphan_reap
  held_after_kill k sent = ground arith

-- The record of the reap that a lease stands in, if any, is orderly.
abbrev pub Orderly : ℕ → Lease → Type 0
Orderly grace lease = (state : OrphanReap) → lease.orphan_reap ≡ some state → IsOrderly grace state
