-- ===== src/Attempt/Terminal.antt =====
-- How an attempt ends (src/attempts.js, publishTerminal).
use lane_broker.Prelude.{
  ℕ, suc, ◌+◌, ◌≤◌, ◌≡◌, ◌⊎◌, inl, inr, refl, sym, ap, ◌∙◌, true, false, ◌||◌, List, [], ◌∷◌, ◌++◌,
  append_assoc, arith, if◌then◌else◌, Bool-cases, Option-cases, is_some, length, All, All-append,
}
use lane_broker.Attempt.{
  written_by, Outcome, attempt_run, TicketState, create_attempt, patch_attempt_locked,
  update_attempt, fallback_to_local, publish_terminal, AttemptEvent, create, amend, update,
  fall_back, settle, cancel, migrate, attempt_event,
}

-- The results so far and the one that may still come.
unfoldable pub results_due : TicketState → ℕ
results_due s = length s.results + (if is_some s.attempt then 1 else 0)

abbrev pub creations : List AttemptEvent → ℕ
creations [] = 0
creations (create existing runner ∷ es) = suc (creations es)
creations (amend p ∷ es) = creations es
creations (update g p r ∷ es) = creations es
creations (fall_back r ∷ es) = creations es
creations (settle g e x ∷ es) = creations es
creations (cancel ∷ es) = creations es
creations (migrate on ∷ es) = creations es

attempt_event-results_due :
    (e : AttemptEvent) (s : TicketState)
    → results_due (attempt_event e s) ≤ results_due s + creations (e ∷ [])
unfolding results_due attempt_event create_attempt patch_attempt_locked update_attempt
    fallback_to_local publish_terminal
attempt_event-results_due (create existing runner) s =
    ground (arith, Bool-cases (existing || s.migrating), Bool-cases (is_some s.attempt))
attempt_event-results_due (amend p) s = ground (arith, Option-cases s.attempt)
attempt_event-results_due (update g p r) s = ground (arith, Option-cases s.attempt)
attempt_event-results_due (fall_back r) s = ground (arith, Option-cases s.attempt)
attempt_event-results_due (settle g e x) s = ground (arith, Option-cases s.attempt)
attempt_event-results_due cancel s = ground arith
attempt_event-results_due (migrate on) s = ground arith

creations-first :
    (e : AttemptEvent) (es : List AttemptEvent)
    → creations (e ∷ es) ≡ creations (e ∷ []) + creations es
creations-first (create existing runner) es = omega arith
creations-first (amend p) es = omega arith
creations-first (update g p r) es = omega arith
creations-first (fall_back r) es = omega arith
creations-first (settle g e x) es = omega arith
creations-first cancel es = omega arith
creations-first (migrate on) es = omega arith

-- Whatever the history of a ticket, the results that are published for it, with the one that may still
-- come, are no more than there were and one for each attempt that is created: an attempt ends once.
pub attempt_run-results_due :
    (es : List AttemptEvent) (s : TicketState)
    → results_due (attempt_run es s) ≤ results_due s + creations es
unfolding attempt_run
attempt_run-results_due [] s = omega arith
attempt_run-results_due (e ∷ es) s = omega (
  arith,
  attempt_run-results_due es (attempt_event e s),
  attempt_event-results_due e s,
  creations-first e es,
)

-- The results that were added are of writers that were told of the cancel.
abbrev pub AddsCancelled : (before after : List Outcome) → Type 0
AddsCancelled before after =
    (new : List Outcome) × (after ≡ new ++ before) × All (λ (o : Outcome). o.cancelled ≡ true) new

attempt_event-cancelled :
    (e : AttemptEvent) (s : TicketState)
    → s.cancelled ≡ true
    → ((attempt_event e s).cancelled ≡ true)
      × (((attempt_event e s).results ≡ s.results)
          ⊎ ((o : Outcome) × (o.cancelled ≡ true) × ((attempt_event e s).results ≡ o ∷ s.results)))
unfolding attempt_event create_attempt patch_attempt_locked update_attempt fallback_to_local
    publish_terminal
attempt_event-cancelled (create existing runner) s c =
    ground (arith, c, Bool-cases (existing || s.migrating))
attempt_event-cancelled (amend p) s c = ground (arith, c, Option-cases s.attempt)
attempt_event-cancelled (update g p r) s c = ground (arith, c, Option-cases s.attempt)
attempt_event-cancelled (fall_back r) s c = ground (arith, c, Option-cases s.attempt)
attempt_event-cancelled (settle g expect x) s c = elim (Option-cases s.attempt) [
  | inl gone ↦ ground (arith, c, gone)
  | inr (a, e) ↦ elim (Bool-cases (expect a)) [
    | inl there ↦
        (ground (arith, c, e, there), inr (written_by x true, refl, ground (arith, c, e, there)))
    | inr other ↦ ground (arith, c, e, other)
  ]
]
attempt_event-cancelled cancel s c = (refl, inl refl)
attempt_event-cancelled (migrate on) s c = (c, inl refl)

AddsCancelled-one :
    (before mid after : List Outcome)
    → (mid ≡ before) ⊎ ((o : Outcome) × (o.cancelled ≡ true) × (mid ≡ o ∷ before))
    → AddsCancelled mid after
    → AddsCancelled before after
AddsCancelled-one before mid after (inl same) (new, e, c) = (new, e ∙ ap (λ l. new ++ l) same, c)
AddsCancelled-one before mid after (inr (o, told, one)) (new, e, c) = (
  new ++ (o ∷ []),
  e ∙ ap (λ l. new ++ l) one ∙ sym (append_assoc new (o ∷ []) before),
  All-append (λ (x : Outcome). x.cancelled ≡ true) new (o ∷ []) c (told, tt),
)

-- From the cancel marker on, whatever happens to a ticket, every result that is published for it is of a
-- writer that was told that the ticket is cancelled, and the ticket does not fall back to local.
pub attempt_run-cancelled :
    (es : List AttemptEvent) (s : TicketState) (reason : ℕ)
    → s.cancelled ≡ true
    → let later = attempt_run es s in
      AddsCancelled s.results later.results × (fallback_to_local reason later ≡ (later, false))
unfolding attempt_run fallback_to_local
attempt_run-cancelled [] s reason c = (([], refl, tt), ground (arith, c, Option-cases s.attempt))
attempt_run-cancelled (e ∷ es) s reason c =
    let one = attempt_event-cancelled e s c in
    let rest = attempt_run-cancelled es (attempt_event e s) reason one.0 in
    (AddsCancelled-one s.results (attempt_event e s).results _ one.1 rest.0, rest.1)
