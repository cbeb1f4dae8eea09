-- ===== src/Queue/Retier.antt =====
-- What re-tiering and reaping do to queued tickets (src/scheduler.js): isQueuedSupervisorGone,
-- retierQueued and reapOrphanedQueue.
use lane_broker.Prelude.{
  ℕ, ◌≡◌, Bool, true, false, not, ◌&&◌, ◌||◌, Option, none, some, List, [], ◌∷◌, map, arith, ◌==◌,
  if◌then◌else◌, or_else, is_some, any_by,
}
use lane_broker.Records.{Tier, Ticket}
use lane_broker.Priority.{tier_base}
use lane_broker.Queue.{Files, has_id, parked_as, queued_ticket, admit_tier}

-- `isQueuedSupervisorGone`: a ticket with no recorded supervisor is never gone.
unfoldable pub is_queued_supervisor_gone :
    (alive : Ticket → Bool) → (current_boot : ℕ) → Ticket → Bool
is_queued_supervisor_gone alive current_boot t =
    is_some t.supervisor_pid
    && ((is_some t.boot_id && not (or_else t.boot_id current_boot == current_boot))
        || not (alive t))

pub data RetierRefusal : Type 0 where
  legacy_scheduler is_running is_finished is_rebinding is_remote is_unknown : RetierRefusal
  legacy_record remote_owned supervisor_gone file_gone : RetierRefusal

pub data Retier : Type 0 where
  refused : RetierRefusal → Retier
  unchanged retiered : Retier

-- What `retierQueued` reads besides the queue: the scheduler version, the markers of the id, whether it
-- is a remote attempt or owned by a submitter, and whether the file is still there at the write.
pub record RetierView : Type 0 where
  pub is_v2 : Bool
  pub has_attempt : Bool
  pub has_marker : Bool
  pub has_submitter : Bool
  pub still_there : Bool

abbrev pub same_tier : Option Tier → Option Tier → Bool
same_tier none none = true
same_tier (some a) (some b) = tier_base a == tier_base b
same_tier a b = false

abbrev pub with_tier : Tier → Tier × Bool → Ticket → Ticket
with_tier tier admitted t = record t {
  priority_requested = some tier;
  priority_admitted = some admitted.0;
  priority_demoted = admitted.1;
}

abbrev pub same_bool : Bool → Bool → Bool
same_bool true b = b
same_bool false b = not b

abbrev pub same_tiers : Ticket → Ticket → Bool
same_tiers a b =
    same_tier a.priority_requested b.priority_requested
    && same_tier a.priority_admitted b.priority_admitted
    && same_bool a.priority_demoted b.priority_demoted

-- The record is written back into its own file.
abbrev pub replaced : (id : ℕ) → Ticket → List (Option Ticket) → List (Option Ticket)
replaced id after rs = map (λ r. if has_id id r then some after else r) rs

module _ (alive : Ticket → Bool) (current_boot max_high : ℕ) (f : Files) (v : RetierView) where
  -- The checks on a record that was found, and the write.
  unfoldable pub retier_found : (tier : Tier) → Ticket → Retier × Files
  retier_found tier t =
      let after = with_tier tier (admit_tier alive max_high f.queue t.repo_id tier (some t.id)) t in
      if not t.sched_v2
      then (refused legacy_record, f)
      else if v.has_marker
      then (refused is_finished, f)
      else if v.has_submitter
      then (refused remote_owned, f)
      else if is_queued_supervisor_gone alive current_boot t
      then (refused supervisor_gone, f)
      else if same_tiers t after
      then (unchanged, f)
      else if not v.still_there
      then (refused file_gone, f)
      else (retiered, record f { queue = replaced t.id after f.queue })

  -- `retierQueued`: lease and result ownership first, then the queue record.
  unfoldable pub retier_queued : (id : ℕ) → (tier : Tier) → Retier × Files
  retier_queued id tier =
      if not v.is_v2
      then (refused legacy_scheduler, f)
      else if any_by (λ i. i == id) f.leased
      then (refused is_running, f)
      else if any_by (λ i. i == id) f.finished
      then (refused is_finished, f)
      else if any_by (parked_as id) f.parked
      then (refused is_rebinding, f)
      else elim (queued_ticket f.queue id) [
        | none ↦ (
          refused (
              if v.has_attempt
              then is_remote
              else if v.has_marker
              then is_finished
              else is_unknown),
          f,
        )
        | some t ↦ retier_found tier t
      ]

-- `reapOrphanedQueue`: `ends t` says that the result of `t` was published and its file unlinked.
unfoldable pub reap_orphaned_queue :
    (alive : Ticket → Bool) (current_boot : ℕ) (kept_id : ℕ) (ends : Ticket → Bool)
    → List (Option Ticket)
    → List (Option Ticket)
reap_orphaned_queue alive boot kept_id ends [] = []
reap_orphaned_queue alive boot kept_id ends (none ∷ rs) =
    none ∷ reap_orphaned_queue alive boot kept_id ends rs
reap_orphaned_queue alive boot kept_id ends (some t ∷ rs) =
    let rest = reap_orphaned_queue alive boot kept_id ends rs in
    if not (t.id == kept_id) && is_queued_supervisor_gone alive boot t && ends t
    then rest
    else some t ∷ rest

-- Reaping the queue takes no ticket whose supervisor is not gone: it is still queued with the same
-- record.
pub queued_ticket-reap_orphaned_queue :
    (alive : Ticket → Bool) (boot kept_id : ℕ) (ends : Ticket → Bool) (rs : List (Option Ticket))
    (id : ℕ) (t : Ticket)
    → queued_ticket rs id ≡ some t
    → is_queued_supervisor_gone alive boot t ≡ false
    → queued_ticket (reap_orphaned_queue alive boot kept_id ends rs) id ≡ some t
unfolding queued_ticket reap_orphaned_queue
queued_ticket-reap_orphaned_queue alive boot kept_id ends [] id t q g = q
queued_ticket-reap_orphaned_queue alive boot kept_id ends (none ∷ rs) id t q g =
    queued_ticket-reap_orphaned_queue alive boot kept_id ends rs id t q g
queued_ticket-reap_orphaned_queue alive boot kept_id ends (some u ∷ rs) id t q g =
    ground (arith, queued_ticket-reap_orphaned_queue alive boot kept_id ends rs id t)
