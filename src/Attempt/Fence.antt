-- ===== src/Attempt/Fence.antt =====
-- The generation fences out writers that act on what has moved on (src/attempts.js).
use lane_broker.Prelude.{
  ℕ, ◌<◌, ◌≡◌, inl, inr, Bool, false, not, ◌&&◌, some, List, [], ◌∷◌, arith, ◌==◌, Bool-cases,
  Option-cases, All,
}
use lane_broker.Attempt.{
  Attempt, Patch, TicketState, patched, patch_attempt_locked, update_attempt, fallback_to_local,
  publish_terminal, AttemptEvent, create, amend, update, fall_back, settle, cancel, migrate,
  attempt_event, attempt_run,
}

-- The record, if there is one, has moved on from this generation.
abbrev pub Beyond : (generation : ℕ) → TicketState → Type 0
Beyond g s = (a : Attempt) → s.attempt ≡ some a → g < a.generation

abbrev pub IsNoCreation : AttemptEvent → Type 0
IsNoCreation (create existing runner) = ⊥
IsNoCreation e = Unit

attempt_event-Beyond :
    (g : ℕ) (e : AttemptEvent) (s : TicketState)
    → IsNoCreation e
    → Beyond g s
    → Beyond g (attempt_event e s)
unfolding attempt_event patch_attempt_locked update_attempt fallback_to_local publish_terminal
    patched
attempt_event-Beyond g (create existing runner) s n b = absurd n
attempt_event-Beyond g (amend p) s n b = λ x f. elim (Option-cases s.attempt) [
  | inl gone ↦ absurd (ground (arith, gone, f))
  | inr (a, e) ↦ let lt = b a e in ground (arith, e, f, lt)
]
attempt_event-Beyond g (update expected p refuse) s n b = λ x f. elim (Option-cases s.attempt) [
  | inl gone ↦ absurd (ground (arith, gone, f))
  | inr (a, e) ↦
      let lt = b a e in
      ground (arith, e, f, lt, Bool-cases (not (refuse && s.migrating) && a.generation == expected))
]
attempt_event-Beyond g (fall_back reason) s n b = λ x f. elim (Option-cases s.attempt) [
  | inl gone ↦ absurd (ground (arith, gone, f))
  | inr (a, e) ↦ let lt = b a e in ground (arith, e, f, lt, Bool-cases s.cancelled)
]
attempt_event-Beyond g (settle generation expect writer) s n b = λ x f.
    elim (Option-cases s.attempt) [
      | inl gone ↦ absurd (ground (arith, gone, f))
      | inr (a, e) ↦
          let lt = b a e in
          ground (
            arith,
            e,
            f,
            lt,
            Bool-cases (expect a),
            Bool-cases s.cancelled,
            Bool-cases (a.generation == generation),
          )
    ]
attempt_event-Beyond g cancel s n b = b
attempt_event-Beyond g (migrate on) s n b = b

pub attempt_run-Beyond :
    (g : ℕ) (es : List AttemptEvent) (s : TicketState)
    → All IsNoCreation es
    → Beyond g s
    → Beyond g (attempt_run es s)
unfolding attempt_run
attempt_run-Beyond g [] s n b = b
attempt_run-Beyond g (e ∷ es) s (n, ns) b =
    attempt_run-Beyond g es (attempt_event e s) ns (attempt_event-Beyond g e s n b)

fallback_to_local-Beyond :
    (s : TicketState) (a : Attempt) (reason : ℕ)
    → s.attempt ≡ some a
    → s.cancelled ≡ false
    → Beyond a.generation (fallback_to_local reason s).0
unfolding fallback_to_local
fallback_to_local-Beyond s a reason e open_ x f = ground (arith, e, f, open_)

refused :
    (g : ℕ) (s : TicketState) (p : Patch) (refuse : Bool) (expect : Attempt → Bool)
    (writer : (cancelled : Bool) → ℕ)
    → Beyond g s
    → (update_attempt g p refuse s ≡ (s, false))
      × (s.cancelled ≡ false → publish_terminal g expect writer s ≡ (s, false))
unfolding update_attempt publish_terminal
refused g s p refuse expect writer b = elim (Option-cases s.attempt) [
  | inl gone ↦ (ground (arith, gone), λ c. ground (arith, gone))
  | inr (a, e) ↦
      let lt = b a e in
      (
        ground (arith, e, lt, Bool-cases (refuse && s.migrating)),
        λ c. ground (arith, e, lt, c, Bool-cases (expect a)),
      )
]

-- Once an attempt has fallen back to local, a writer that still acts on the generation it had before, at
-- any later time and whatever has happened to the ticket since but a new attempt, changes nothing: its
-- update is refused, and so is its result unless the ticket is cancelled.
pub fallback-fences :
    (s : TicketState) (a : Attempt) (reason : ℕ) (es : List AttemptEvent) (p : Patch)
    (refuse : Bool) (expect : Attempt → Bool) (writer : (cancelled : Bool) → ℕ)
    → s.attempt ≡ some a
    → s.cancelled ≡ false
    → All IsNoCreation es
    → let later = attempt_run es (fallback_to_local reason s).0 in
      (update_attempt a.generation p refuse later ≡ (later, false))
      × (later.cancelled ≡ false
          → publish_terminal a.generation expect writer later ≡ (later, false))
fallback-fences s a reason es p refuse expect writer e open_ n =
    refused a.generation _ p refuse expect writer
      (attempt_run-Beyond a.generation es _ n (fallback_to_local-Beyond s a reason e open_))
