-- ===== src/Attempt.antt =====
-- The attempt record of a remote-eligible ticket (src/attempts.js): who may change it and how it ends.
-- Every operation runs under the global lock, so a history of one ticket is a list of them. The state is
-- that of one ticket: its record, its cancel marker, whether a migration is on, and the results that
-- publishTerminal's callers wrote, latest first. Phases, runners and reasons are numbers.
mod Fence
mod Terminal
mod Tests
use lane_broker.Prelude.{
  ℕ, ◌+◌, Bool, true, false, not, ◌&&◌, ◌||◌, Option, none, some, List, [], ◌∷◌, ◌==◌,
  if◌then◌else◌, or_else, is_some,
}

pub record Attempt : Type 0 where
  pub generation : ℕ
  pub remote : Bool
  pub phase : ℕ
  pub runner : Option ℕ
  pub fallback_reason : Option ℕ

-- The fields that a patch sets; no caller patches the generation.
pub record Patch : Type 0 where
  pub remote : Option Bool
  pub phase : Option ℕ
  pub runner : Option (Option ℕ)

-- A result: what its writer was told of a cancel, and the exit that the writer made of it.
pub record Outcome : Type 0 where
  pub cancelled : Bool
  pub exit : ℕ

pub record TicketState : Type 0 where
  pub attempt : Option Attempt
  pub cancelled : Bool
  pub migrating : Bool
  pub results : List Outcome

abbrev pub probe_phase : ℕ
probe_phase = 0

abbrev pub queued_phase : ℕ
queued_phase = 1

abbrev pub with_attempt : TicketState → Option Attempt → TicketState
with_attempt s a = record {
  attempt = a;
  cancelled = s.cancelled;
  migrating = s.migrating;
  results = s.results;
}

unfoldable pub patched : Attempt → Patch → Attempt
patched a p = record {
  generation = a.generation;
  remote = or_else p.remote a.remote;
  phase = or_else p.phase a.phase;
  runner = or_else p.runner a.runner;
  fallback_reason = a.fallback_reason;
}

-- `existing` is what `refuseIf` finds under the lock. The flag says whether a record was written; during
-- a migration the call throws instead.
unfoldable pub create_attempt :
    (existing : Bool) (runner : Option ℕ) → TicketState → TicketState × Bool
create_attempt existing runner s = if existing || s.migrating then (s, false) else (
  with_attempt s (
      some (record {
        generation = 0;
        remote = true;
        phase = probe_phase;
        runner = runner;
        fallback_reason = none;
      })),
  true,
)

unfoldable pub patch_attempt_locked : Patch → TicketState → TicketState
patch_attempt_locked p s = elim s.attempt [
  | none ↦ s
  | some a ↦ with_attempt s (some (patched a p))
]

-- The flag is the `ok` of the answer, false where the call throws.
unfoldable pub update_attempt :
    (expected_generation : ℕ)
    → Patch
    → (refuse_while_migrating : Bool) → TicketState
    → TicketState × Bool
update_attempt expected p refuse s = elim s.attempt [
  | none ↦ (s, false)
  | some a ↦
      if not (refuse && s.migrating) && a.generation == expected
      then (with_attempt s (some (patched a p)), true)
      else (s, false)
]

unfoldable pub fallback_to_local : (reason : ℕ) → TicketState → TicketState × Bool
fallback_to_local reason s = elim s.attempt [
  | none ↦ (s, false)
  | some a ↦ if s.cancelled then (s, false) else (
    with_attempt s (
        some (record {
          generation = a.generation + 1;
          remote = false;
          phase = queued_phase;
          runner = a.runner;
          fallback_reason = some reason;
        })),
    true,
  )
]

abbrev pub finished : TicketState → Outcome → TicketState
finished s o = record {
  attempt = none;
  cancelled = s.cancelled;
  migrating = s.migrating;
  results = o ∷ s.results;
}

abbrev pub written_by : (writer : (cancelled : Bool) → ℕ) → (cancelled : Bool) → Outcome
written_by writer cancelled = record { cancelled = cancelled; exit = writer cancelled }

-- `expect` is the caller's test of the record, `writer` what it writes when it is told whether the
-- ticket is cancelled. What a writer makes of that is its own affair.
unfoldable pub publish_terminal :
    (generation : ℕ) (expect : Attempt → Bool) (writer : (cancelled : Bool) → ℕ)
    → TicketState
    → TicketState × Bool
publish_terminal generation expect writer s = elim s.attempt [
  | none ↦ (s, false)
  | some a ↦
      if not (expect a)
      then (s, false)
      else if s.cancelled
      then (finished s (written_by writer true), true)
      else if a.generation == generation
      then (finished s (written_by writer false), true)
      else (s, false)
]

-- One locked step on the ticket: the operations above, and what `lane cancel` and a migration write.
pub data AttemptEvent : Type 0 where
  create : (existing : Bool) (runner : Option ℕ) → AttemptEvent
  amend : Patch → AttemptEvent
  update : (expected_generation : ℕ) → Patch → (refuse_while_migrating : Bool) → AttemptEvent
  fall_back : (reason : ℕ) → AttemptEvent
  settle :
      (generation : ℕ) (expect : Attempt → Bool) (writer : (cancelled : Bool) → ℕ) → AttemptEvent
  cancel : AttemptEvent
  migrate : (on : Bool) → AttemptEvent

unfoldable pub attempt_event : AttemptEvent → TicketState → TicketState
attempt_event (create existing runner) s = (create_attempt existing runner s).0
attempt_event (amend p) s = patch_attempt_locked p s
attempt_event (update expected p refuse) s = (update_attempt expected p refuse s).0
attempt_event (fall_back reason) s = (fallback_to_local reason s).0
attempt_event (settle generation expect writer) s = (publish_terminal generation expect writer s).0
attempt_event cancel s = record {
  attempt = s.attempt;
  cancelled = true;
  migrating = s.migrating;
  results = s.results;
}
attempt_event (migrate on) s = record {
  attempt = s.attempt;
  cancelled = s.cancelled;
  migrating = on;
  results = s.results;
}

unfoldable pub attempt_run : List AttemptEvent → TicketState → TicketState
attempt_run [] s = s
attempt_run (e ∷ es) s = attempt_run es (attempt_event e s)
