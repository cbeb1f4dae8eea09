-- ===== src/Lease/Release.antt =====
-- The orphan reap of src/lease.js over many passes ends: the group is dead or given up.
use lane_broker.Prelude.{
  ℕ, ◌+◌, ◌≤◌, ◌≡◌, ◌⊎◌, inl, inr, refl, sym, ap, ◌∙◌, true, Option, none, some, List, [], ◌∷◌,
  ◌++◌, arith, Option-cases, or_else, is_some, All, some_injective,
}
use lane_broker.Records.{OrphanReap}
use lane_broker.Lease.{
  ReapPass, released, orphan_kill_give_up_ms, orphan_unreadable_give_up_ms, held, step_orphan_reap,
  Lease, next_reap, first_pass, Member,
}
use lane_broker.Lease.Order.{held_after_kill, held_late, held_next, next_reap_clocks, step_held}

-- One pass of the reaper: its time and what it read of the process table.
pub record Pass : Type 0 where
  pub now : ℕ
  pub rows : Option (List Member)

-- The lease file after successive passes over a lease whose supervisor and group are gone.
unfoldable pub reap_run : ℕ → Lease → List Pass → Option Lease
reap_run grace lease [] = some lease
reap_run grace lease (p ∷ ps) = elim (step_orphan_reap grace lease p.now p.rows) [
  | released n complete ↦ none
  | held l ↦ reap_run grace l ps
]

-- The reap began at `start`, and any KILL was sent by `latest`.
record Running (start latest : ℕ) (lease : Lease) : Type 0 where
  state : OrphanReap
  reaping : lease.orphan_reap ≡ some state
  began : state.term_at ≡ start
  killed_by : (k : ℕ) → state.kill_at ≡ some k → k ≤ latest

-- A KILL was sent, by `latest`.
record Killed (latest : ℕ) (lease : Lease) : Type 0 where
  state : OrphanReap
  reaping : lease.orphan_reap ≡ some state
  kill : ℕ
  sent : state.kill_at ≡ some kill
  by : kill ≤ latest

module _ (grace start latest : ℕ) (lease : Lease) (now : ℕ) (rows : Option (List Member))
    (l : Lease) (kept : step_orphan_reap grace lease now rows ≡ held l) where
  held-Running : Running start latest lease → now ≤ latest → Running start latest l
  held-Running r soon = record {
    state = next_reap grace lease r.state now rows;
    reaping = held_next grace lease now rows l r.state r.reaping kept;
    began = (next_reap_clocks grace lease r.state now rows).0 ∙ r.began;
    killed_by = by (Option-cases r.state.kill_at);
  }
    where
      by :
          (r.state.kill_at ≡ none) ⊎ ((k : ℕ) × (r.state.kill_at ≡ some k))
          → (k : ℕ) → (next_reap grace lease r.state now rows).kill_at ≡ some k
          → k ≤ latest
      by (inl unset) k e =
          omega (arith, (next_reap_clocks grace lease r.state now rows).2 k unset e)
      by (inr (j, set)) k e =
          let kept_kill = (next_reap_clocks grace lease r.state now rows).1 j set in
          omega (arith, some_injective _ _ (sym kept_kill ∙ e), r.killed_by j set)

  held-Killed : Killed latest lease → Killed latest l
  held-Killed c = record {
    state = next_reap grace lease c.state now rows;
    reaping = held_next grace lease now rows l c.state c.reaping kept;
    kill = c.kill;
    sent = (next_reap_clocks grace lease c.state now rows).1 c.kill c.sent;
    by = c.by;
  }

  late-Killed :
      Running start latest lease
      → now ≤ latest
      → start + orphan_unreadable_give_up_ms ≤ now
      → Killed latest l
  unfolding held-Running
  late-Killed r soon late = go (Option-cases (next_reap grace lease r.state now rows).kill_at)
    where
      after : Running start latest l
      after = held-Running r soon

      some_kill : is_some (next_reap grace lease r.state now rows).kill_at ≡ true
      some_kill = held_late grace lease now rows l r.state r.reaping kept (omega (arith, r.began))

      go :
          ((next_reap grace lease r.state now rows).kill_at ≡ none)
            ⊎ ((k : ℕ) × ((next_reap grace lease r.state now rows).kill_at ≡ some k))
          → Killed latest l
      go (inl unset) = absurd (ground (arith, some_kill))
      go (inr (k, e)) = record {
        state = next_reap grace lease r.state now rows;
        reaping = held_next grace lease now rows l r.state r.reaping kept;
        kill = k;
        sent = e;
        by = after.killed_by k e;
      }

  end-released : Killed latest lease → latest + orphan_kill_give_up_ms ≤ now → ⊥
  end-released c late =
      omega
        (arith, held_after_kill grace lease now rows l c.state c.reaping kept c.kill c.sent, c.by)

  first-Running : lease.orphan_reap ≡ none → now ≤ latest → Running now latest l
  first-Running fresh soon = record {
    state = next_reap grace lease (first_pass now) now rows;
    reaping =
        rw (← ap (λ r. or_else r (first_pass now)) fresh) (step_held grace lease now rows l kept);
    began = (next_reap_clocks grace lease (first_pass now) now rows).0;
    killed_by =
        λ k e. omega (arith, (next_reap_clocks grace lease (first_pass now) now rows).2 k refl e);
  }

module _ (grace : ℕ) where
  -- A pass over a lease removes the file, or the run goes on with the lease that it wrote.
  reap_run_step :
      (lease : Lease) (p : Pass) (ps : List Pass)
      → ((l : Lease)
          → step_orphan_reap grace lease p.now p.rows ≡ held l
          → reap_run grace l ps ≡ none)
      → reap_run grace lease (p ∷ ps) ≡ none
  unfolding reap_run
  reap_run_step lease p ps go_on = go (step_orphan_reap grace lease p.now p.rows) refl
    where
      go :
          (r : ReapPass)
          → step_orphan_reap grace lease p.now p.rows ≡ r
          → (elim r [ released n complete ↦ none | held l ↦ reap_run grace l ps ]) ≡ none
      go (released n complete) e = refl
      go (held l) e = go_on l e

  module _ (last : Pass) (rest : List Pass) where
    run-Killed :
        (latest : ℕ) (ps : List Pass) (lease : Lease)
        → Killed latest lease
        → latest + orphan_kill_give_up_ms ≤ last.now
        → reap_run grace lease (ps ++ last ∷ rest) ≡ none
    run-Killed latest [] lease c late =
        reap_run_step lease last rest
          (λ l kept. absurd (end-released grace 0 latest lease last.now last.rows l kept c late))
    run-Killed latest (p ∷ ps) lease c late = reap_run_step lease p (ps ++ last ∷ rest) (λ l kept.
        run-Killed latest ps l (held-Killed grace 0 latest lease p.now p.rows l kept c) late)

    run-Running :
        (start : ℕ) (mid : List Pass) (kill : Pass) (more : List Pass) (lease : Lease)
        → Running start kill.now lease
        → All (λ p. p.now ≤ kill.now) mid
        → start + orphan_unreadable_give_up_ms ≤ kill.now
        → kill.now + orphan_kill_give_up_ms ≤ last.now
        → reap_run grace lease (mid ++ kill ∷ (more ++ last ∷ rest)) ≡ none
    run-Running start [] kill more lease r soon late end =
        reap_run_step lease kill (more ++ last ∷ rest) (λ l kept.
          run-Killed kill.now more l
            (late-Killed grace start kill.now lease kill.now kill.rows l kept r (omega arith) late)
            end)
    run-Running start (p ∷ mid) kill more lease r (soon, soons) late end =
        reap_run_step lease p (mid ++ kill ∷ (more ++ last ∷ rest)) (λ l kept.
          run-Running start mid kill more l
            (held-Running grace start kill.now lease p.now p.rows l kept r soon) soons late end)

-- Where every attempt of the orphan reap is a pass that steps, the file of a lease that has none of it
-- yet is gone after a first pass, one at least 60 s after it (before which no pass came later), and one
-- at least 30 s after that, whatever the process table shows to each pass and whatever other passes come
-- in between and behind. A pass steps only while the supervisor and its group are gone.
pub reap_run_ends :
    (grace : ℕ) (lease : Lease) (first : Pass) (mid : List Pass) (kill : Pass) (more : List Pass)
    (last : Pass) (rest : List Pass)
    → lease.orphan_reap ≡ none
    → All (λ p. p.now ≤ kill.now) mid
    → first.now + orphan_unreadable_give_up_ms ≤ kill.now
    → kill.now + orphan_kill_give_up_ms ≤ last.now
    → reap_run grace lease (first ∷ (mid ++ kill ∷ (more ++ last ∷ rest))) ≡ none
reap_run_ends grace lease first mid kill more last rest fresh soons late end =
    reap_run_step grace lease first (mid ++ kill ∷ (more ++ last ∷ rest)) (λ l kept.
      run-Running grace last rest first.now mid kill more l
        (first-Running grace 0 kill.now lease first.now first.rows l kept fresh (omega arith)) soons
        late end)
