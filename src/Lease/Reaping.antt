-- ===== src/Lease/Reaping.antt =====
-- What one pass of the reaper (src/lease.js) does, and how it agrees with `lane lease-check`.
use lane_broker.Prelude.{
  ℕ, ◌-◌, ◌≤◌, ◌≡◌, ◌≢◌, ◌⊎◌, inl, inr, refl, Bool, true, false, Option, none, some, List, [],
  arith, ◌==◌, Bool-cases, Option-cases,
}
use lane_broker.Records.{orphaned, Lease}
use lane_broker.Lease.{
  next_reap, ReapPass, of_pass, orphan_unreadable_give_up_ms, orphan_kill_give_up_ms, [],
  OrphanReap, released, StartProbe, started_at, not_found, probe_failed, ProcessProbe,
  is_process_alive, Member, held, step_orphan_reap, signal_pass, Sight, kept, reap_if_stale,
  live_lease,
}

start_evidence :
    (start : StartProbe) (again : Bool) (r : ℕ)
    → (elim start [ started_at now ↦ now == r | not_found ↦ again | probe_failed ↦ true ]) ≡ false
    → ((s : ℕ) × (start ≡ started_at s) × (s ≢ r)) ⊎ ((start ≡ not_found) × (again ≡ false))
start_evidence (started_at s) again r h = inl (s, refl, ground arith)
start_evidence not_found again r h = inr (refl, h)
start_evidence probe_failed again r h = cc

-- A process is declared gone only on evidence: `kill(pid, 0)` failed, or its start time was read
-- and differs from the recorded one, or `ps` found no such process and a second `kill(pid, 0)`
-- failed as well. A probe that could not run never counts.
pub is_process_alive_evidence :
    (p : ProcessProbe) (recorded : Option ℕ)
    → is_process_alive p recorded ≡ false
    → (p.pid_alive ≡ false)
      ⊎ ((r : ℕ) × (recorded ≡ some r)
          × (((s : ℕ) × (p.start ≡ started_at s) × (s ≢ r))
              ⊎ ((p.start ≡ not_found) × (p.alive_again ≡ false))))
unfolding is_process_alive
is_process_alive_evidence p none h = inl h
is_process_alive_evidence p (some r) h = elim (Bool-cases p.pid_alive) [
  | inl alive ↦ inr (r, refl, start_evidence p.start p.alive_again r (rw alive at h))
  | inr gone ↦ inl gone
]

-- A lease that a pass keeps is ORPHANED on disk.
pub held_orphaned :
    (grace : ℕ) (lease : Lease) (now : ℕ) (rows : Option (List Member)) (l : Lease)
    → step_orphan_reap grace lease now rows ≡ held l
    → l.state ≡ orphaned
unfolding step_orphan_reap signal_pass
held_orphaned grace lease now rows l h = ground arith

-- The reaper never takes a lease that `lane lease-check` accepts on the same evidence, and what it
-- leaves of any other lease is refused by a check made on that evidence.
pub reap_if_stale-live_lease :
    (grace boot now : ℕ) (lease : Lease) (sight : Sight)
    → let after = reap_if_stale grace boot now lease sight in
      (live_lease true (some lease) boot sight.supervisor ≡ none
        → (after.action ≡ kept) × (after.file ≡ some lease))
      × (after.action ≢ kept → live_lease true after.file boot sight.supervisor ≢ none)
unfolding reap_if_stale live_lease
reap_if_stale-live_lease grace boot now lease sight = grind (arith, held_orphaned)

-- The reaper has given up on a reap that was started by an earlier pass: 30 s after the KILL, or
-- 60 s after the first pass.
abbrev pub GaveUp : Lease → ℕ → Type 0
GaveUp lease now =
    (state : OrphanReap) × (lease.orphan_reap ≡ some state)
    × (((k : ℕ) × (state.kill_at ≡ some k) × (orphan_kill_give_up_ms ≤ now - k))
        ⊎ (orphan_unreadable_give_up_ms ≤ now - state.term_at))

module _ (grace : ℕ) (lease : Lease) (now : ℕ) (rows : Option (List Member)) (n : ℕ)
    (complete : Bool) where
  first_pass_evidence :
      lease.orphan_reap ≡ none
      → step_orphan_reap grace lease now rows ≡ released n complete
      → rows ≡ some []
  unfolding step_orphan_reap signal_pass next_reap
  first_pass_evidence first h = ground arith

  before_kill_evidence :
      (state : OrphanReap)
      → lease.orphan_reap ≡ some state
      → state.kill_at ≡ none
      → step_orphan_reap grace lease now rows ≡ released n complete
      → (rows ≡ some []) ⊎ (orphan_unreadable_give_up_ms ≤ now - state.term_at)
  unfolding step_orphan_reap signal_pass
  before_kill_evidence state started unset h = ground arith

  after_kill_evidence :
      (state : OrphanReap) (k : ℕ)
      → lease.orphan_reap ≡ some state
      → state.kill_at ≡ some k
      → step_orphan_reap grace lease now rows ≡ released n complete
      → (rows ≡ some [])
        ⊎ ((orphan_kill_give_up_ms ≤ now - k)
            ⊎ (orphan_unreadable_give_up_ms ≤ now - state.term_at))
  unfolding step_orphan_reap signal_pass
  after_kill_evidence state k started set h = ground arith

released_evidence :
    (grace : ℕ) (lease : Lease) (now : ℕ) (rows : Option (List Member)) (n : ℕ) (complete : Bool)
    → step_orphan_reap grace lease now rows ≡ released n complete
    → (rows ≡ some []) ⊎ GaveUp lease now
released_evidence grace lease now rows n complete h = elim (Option-cases lease.orphan_reap) [
  | inl first ↦ inl (first_pass_evidence grace lease now rows n complete first h)
  | inr (state, started) ↦ elim (Option-cases state.kill_at) [
    | inl unset ↦
        elim (before_kill_evidence grace lease now rows n complete state started unset h) [
          | inl empty ↦ inl empty
          | inr late ↦ inr (state, started, inr late)
        ]
    | inr (k, set) ↦
        elim (after_kill_evidence grace lease now rows n complete state k started set h) [
          | inl empty ↦ inl empty
          | inr (inl late) ↦ inr (state, started, inl (k, set, late))
          | inr (inr late) ↦ inr (state, started, inr late)
        ]
  ]
]

of_pass_removed :
    (grace : ℕ) (lease : Lease) (now : ℕ) (rows : Option (List Member))
    → (of_pass lease (step_orphan_reap grace lease now rows)).file ≡ none
    → (rows ≡ some []) ⊎ GaveUp lease now
of_pass_removed grace lease now rows h = go (step_orphan_reap grace lease now rows) refl h
  where
    go :
        (r : ReapPass)
        → step_orphan_reap grace lease now rows ≡ r
        → (of_pass lease r).file ≡ none
        → (rows ≡ some []) ⊎ GaveUp lease now
    go (released n complete) e h' = released_evidence grace lease now rows n complete e
    go (held l) e h' = cc

removed_evidence :
    (grace boot now : ℕ) (lease : Lease) (sight : Sight)
    → (reap_if_stale grace boot now lease sight).file ≡ none
    → (lease.boot_id ≢ boot)
      ⊎ ((is_process_alive sight.supervisor lease.supervisor_start ≡ false)
          × (sight.group_alive ≡ false)
          × ((sight.rows ≡ some []) ⊎ GaveUp lease now))
unfolding reap_if_stale
removed_evidence grace boot now lease sight h =
    ground (arith, of_pass_removed grace lease now sight.rows)

-- A lease file is removed only if the host has rebooted since, or its supervisor and its process
-- group are gone and either the process table was read and holds no member of the lease's tree, or
-- an earlier pass started a reap on which the reaper has now given up. In all other cases the file
-- stays: as it was where the supervisor is alive, and ORPHANED otherwise.
pub reap_if_stale-file :
    (grace boot now : ℕ) (lease : Lease) (sight : Sight)
    → let after = reap_if_stale grace boot now lease sight in
      (after.file ≡ none
        → (lease.boot_id ≢ boot)
          ⊎ ((is_process_alive sight.supervisor lease.supervisor_start ≡ false)
              × (sight.group_alive ≡ false)
              × ((sight.rows ≡ some []) ⊎ GaveUp lease now)))
      × ((l : Lease)
          → after.file ≡ some l
          → (lease.boot_id ≡ boot)
            × (((is_process_alive sight.supervisor lease.supervisor_start ≡ true) × (l ≡ lease))
                ⊎ ((is_process_alive sight.supervisor lease.supervisor_start ≡ false)
                    × (l.state ≡ orphaned))))
unfolding reap_if_stale
reap_if_stale-file grace boot now lease sight =
    (λ h. removed_evidence grace boot now lease sight h, λ l h. grind (arith, held_orphaned))
