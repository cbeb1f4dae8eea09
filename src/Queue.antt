-- ===== src/Queue.antt =====
-- The queue files and what changes them (src/scheduler.js): existingTicket, admitTier, enqueue,
-- dequeueSync, withdrawQueued, restoreLocked and recoverRebinding.
-- A queue is the list of its records in the order of their sequence numbers. Whether a supervisor is
-- alive, and which ids have markers, are arguments.
pub mod Tiers
pub mod Rebinding
pub mod Retier
mod Tests
use lane_broker.Prelude.{
  ℕ, suc, Bool, true, false, not, ◌&&◌, ◌||◌, Option, none, some, List, [], ◌∷◌, ◌++◌, ltb, leb,
  ◌==◌, if◌then◌else◌, or_else, is_some, length, filter_by, any_by,
}
use lane_broker.Records.{Tier, low, medium, high, Ticket}
use lane_broker.Priority.{origin_or_now, is_high}

-- The files that decide who owns an id. An attempt is its id and its generation.
pub record Files : Type 0 where
  pub queue : List (Option Ticket)
  pub parked : List Ticket
  pub leased : List ℕ
  pub finished : List ℕ
  pub attempts : List (ℕ × ℕ)
  pub next_seq : ℕ

pub data Known : Type 0 where
  known_queued known_rebinding known_leased known_finished known_attempt : Known

abbrev pub has_id : ℕ → Option Ticket → Bool
has_id id none = false
has_id id (some t) = t.id == id

abbrev pub parked_as : ℕ → Ticket → Bool
parked_as id t = t.id == id

abbrev pub is_attempt_of : ℕ → (owner : Option ℕ) → ℕ × ℕ → Bool
is_attempt_of id none a = a.0 == id
is_attempt_of id (some generation) a = a.0 == id && not (a.1 == generation)

-- `existingTicket`: the first of the five places that knows the id.
unfoldable pub existing_ticket : Files → (id : ℕ) → (owner_generation : Option ℕ) → Option Known
existing_ticket f id owner =
    if any_by (has_id id) f.queue
    then some known_queued
    else if any_by (parked_as id) f.parked
    then some known_rebinding
    else if any_by (λ i. i == id) f.leased
    then some known_leased
    else if any_by (λ i. i == id) f.finished
    then some known_finished
    else if any_by (is_attempt_of id owner) f.attempts
    then some known_attempt
    else none

-- A queued ticket that holds the high slot of its repo.
abbrev pub is_high_option : Option Tier → Bool
is_high_option none = false
is_high_option (some t) = is_high t

abbrev pub holds_high :
    (alive : Ticket → Bool) (repo : ℕ) (excluded : Option ℕ) → Option Ticket → Bool
holds_high alive repo excluded none = false
holds_high alive repo none (some t) =
    t.repo_id == repo
    && is_high_option t.priority_requested
    && is_high_option t.priority_admitted
    && alive t
holds_high alive repo (some id) (some t) =
    not (t.id == id)
    && (t.repo_id == repo
        && is_high_option t.priority_requested
        && is_high_option t.priority_admitted
        && alive t)

unfoldable pub queued_high : (Ticket → Bool) → ℕ → Option ℕ → List (Option Ticket) → ℕ
queued_high alive repo excluded queue = length (filter_by (holds_high alive repo excluded) queue)

-- `admitTier`: the admitted tier, and whether the request was demoted.
unfoldable pub admit_tier :
    (alive : Ticket → Bool) (max_high : ℕ)
    → List (Option Ticket)
    → (repo : ℕ) → Tier
    → (excluded : Option ℕ) → Tier × Bool
admit_tier alive max_high queue repo requested excluded =
    let demoted = is_high requested && leb max_high (queued_high alive repo excluded queue) in
    (if demoted then medium else requested, demoted)

-- The record that `enqueue` writes.
unfoldable pub queued_record :
    (alive : Ticket → Bool) (max_high : ℕ) → Files → (now_eff : ℕ) → Ticket → Ticket
queued_record alive max_high f now_eff t =
    let requested = or_else t.priority_requested medium in
    let admitted = admit_tier alive max_high f.queue t.repo_id requested none in
    record t {
      seq = f.next_seq;
      sched_v2 = true;
      priority_requested = some requested;
      priority_admitted = some admitted.0;
      priority_demoted = admitted.1;
      prio_origin_at = some (origin_or_now t.prio_origin_at now_eff);
    }

-- `enqueue`: an id that is known is not queued again; a new ticket goes to the tail.
unfoldable pub enqueue :
    (alive : Ticket → Bool) (max_high : ℕ)
    → Files
    → (now_eff : ℕ) → (owner_generation : Option ℕ) → Ticket
    → Files
enqueue alive max_high f now_eff owner t =
    if is_some (existing_ticket f t.id owner) then f else record f {
      queue = f.queue ++ (some (queued_record alive max_high f now_eff t) ∷ []);
      next_seq = suc f.next_seq;
    }

-- `dequeueSync`: false only where the unlink failed.
unfoldable pub dequeue : Files → (id : ℕ) → (unlinked : Bool) → Files × Bool
dequeue f id unlinked =
    if any_by (has_id id) f.queue
    then (if unlinked
        then (record f { queue = filter_by (λ r. not (has_id id r)) f.queue }, true)
        else (f, false))
    else (f, true)

-- The record of the id, if it is queued.
unfoldable pub queued_ticket : List (Option Ticket) → ℕ → Option Ticket
queued_ticket [] id = none
queued_ticket (none ∷ rs) id = queued_ticket rs id
queued_ticket (some t ∷ rs) id =
    let rest = queued_ticket rs id in if t.id == id then some t else rest

-- `withdrawQueued`: the file is renamed to a parked one. `done` says that the migration guard, the
-- cancel marker and the renames allowed it.
unfoldable pub withdraw : Files → (id : ℕ) → (done : Bool) → Files
withdraw f id done = elim (queued_ticket f.queue id) [
  | none ↦ f
  | some t ↦
      if done
      then record f { queue = filter_by (λ r. not (has_id id r)) f.queue; parked = t ∷ f.parked }
      else f
]

-- A record that is written back takes its place by its sequence number.
unfoldable pub insert_seq : Ticket → List (Option Ticket) → List (Option Ticket)
insert_seq t [] = some t ∷ []
insert_seq t (none ∷ rs) = none ∷ insert_seq t rs
insert_seq t (some u ∷ rs) =
    let rest = insert_seq t rs in if ltb t.seq u.seq then some t ∷ some u ∷ rs else some u ∷ rest

-- `restoreLocked`, as far as the queue goes.
unfoldable pub restore : Files → Ticket → Files
restore f t = if any_by (has_id t.id) f.queue then f else record f {
  queue = insert_seq t f.queue;
  parked = filter_by (λ u. not (parked_as t.id u)) f.parked;
}

-- `recoverRebinding` for one parked record whose supervisor is dead.
unfoldable pub recover : Files → Ticket → (dispatched has_attempt has_result : Bool) → Files
recover f t dispatched has_attempt has_result =
    if dispatched || (not has_attempt && has_result)
    then record f { parked = filter_by (λ u. not (parked_as t.id u)) f.parked }
    else restore f t
