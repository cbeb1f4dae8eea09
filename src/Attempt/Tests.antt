-- ===== src/Attempt/Tests.antt =====
-- The theorems on attempts (src/attempts.js) at concrete histories.
use lane_broker.Prelude.{◌+◌, ◌≤◌, ◌≡◌, refl, true, false, none, some, List, [], ◌∷◌, if◌then◌else◌}
use lane_broker.Attempt.Terminal.{
  AddsCancelled, attempt_run-cancelled, attempt_run-results_due, results_due,
}
use lane_broker.Attempt.Fence.{fallback-fences}
use lane_broker.Attempt.{
  Attempt, AttemptEvent, Patch, TicketState, attempt_event, attempt_run, cancel, create,
  fallback_to_local, patched, probe_phase, settle, publish_terminal, update, update_attempt,
}

abbrev new_ticket : TicketState
new_ticket = record { attempt = none; cancelled = false; migrating = false; results = [] }

abbrev first_attempt : Attempt
first_attempt = record {
  generation = 0;
  remote = true;
  phase = probe_phase;
  runner = some 4;
  fallback_reason = none;
}

abbrev dispatched : TicketState
dispatched = record {
  attempt = some first_attempt;
  cancelled = false;
  migrating = false;
  results = [];
}

abbrev running_on : Patch
running_on = record { remote = none; phase = some 2; runner = some (some 4) }

-- The fallback and then the remote result that comes too late, and the local one.
abbrev late_result : List AttemptEvent
late_result =
    update 1 running_on false
    ∷ settle 0 (λ a. true) (λ told. if told then 130 else 0)
    ∷ settle 1 (λ a. true) (λ told. if told then 130 else 3)
    ∷ []

late_result_run :
    (attempt_run late_result (fallback_to_local 9 dispatched).0).results
    ≡ record { cancelled = false; exit = 3 } ∷ []
unfolding attempt_run attempt_event fallback_to_local update_attempt publish_terminal patched
late_result_run = refl

fallback-fences_example :
    let later = attempt_run (update 1 running_on false ∷ []) (fallback_to_local 9 dispatched).0 in
    (update_attempt 0 running_on false later ≡ (later, false))
    × (later.cancelled ≡ false → publish_terminal 0 (λ a. true) (λ told. 0) later ≡ (later, false))
fallback-fences_example =
    fallback-fences dispatched first_attempt 9 (update 1 running_on false ∷ []) running_on false
      (λ a. true) (λ told. 0) refl refl (tt, tt)

attempt_run-results_due_example :
    results_due (attempt_run (create false (some 4) ∷ late_result) new_ticket)
    ≤ results_due new_ticket + 1
attempt_run-results_due_example =
    attempt_run-results_due (create false (some 4) ∷ late_result) new_ticket

attempt_run-cancelled_example :
    let later =
      attempt_run
        (settle 0 (λ a. true) (λ told. if told then 130 else 0) ∷ [])
        (attempt_event cancel dispatched) in
    AddsCancelled [] later.results × (fallback_to_local 9 later ≡ (later, false))
unfolding attempt_event
attempt_run-cancelled_example =
    attempt_run-cancelled (settle 0 (λ a. true) (λ told. if told then 130 else 0) ∷ [])
      (attempt_event cancel dispatched) 9 refl
