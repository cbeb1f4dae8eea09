-- ===== src/Scheduler/Start/Verdict/Walks.antt =====
-- The tickets that the walks of the scheduler (src/scheduler.js) pick.
use lane_broker.Prelude.{
  ℕ, ◌+◌, ◌≡◌, refl, sym, ap, ◌∙◌, Bool, true, false, not, ◌&&◌, ◌||◌, Option, none, some, List, [],
  ◌∷◌, arith, ltb, leb, ◌==◌, if◌then◌else◌, filter_by, any_by, All, if-split,
}
use lane_broker.Records.{is_sim, Ticket, Lease}
use lane_broker.Scheduler.Blocking.{
  select_candidate, select_capacity_candidate, ceiling_of, includes, holders, is_some-blocked_by,
}
use lane_broker.Scheduler.Exclusive.{is_exclusive, without_backfill_exclusives}
use lane_broker.Scheduler.Start.{
  Context, Evidence, lease_key, is_blocked, queue_of, cannot_delay_head, is_test_or_unread,
  walk_queue, smaller, resource_loop, ticket_of, rest_of, resource_passes, or_option,
}
use lane_broker.Scheduler.Start.Verdict.{
  Refusal, runnable, floor_walk, names_ticket, or_refusal, first_refusal, is_floor_ticket,
}

-- A queue record with the id of the ticket has its key, its conflicts and its ceiling.
abbrev pub Agrees : Ticket → Option Ticket → Type 0
Agrees t none = Unit
Agrees t (some u) =
    u.id ≡ t.id
    → (u.key ≡ t.key) × (u.conflicts ≡ t.conflicts) × (u.max_concurrent ≡ t.max_concurrent)

-- A ticket that no held lease blocks, and that agrees with the polling one if it is that one.
abbrev pub Fine : Context → Option Ticket → Type 0
Fine c none = Unit
Fine c (some u) = (is_blocked c.held u ≡ false) × Agrees c.ticket (some u)

pub or_refusal-none :
    (a b r : Option Refusal)
    → or_refusal a (or_refusal b r) ≡ none
    → (a ≡ none) × (b ≡ none) × (r ≡ none)
or_refusal-none none none none h = (refl, refl, refl)
or_refusal-none none none (some x) h = (refl, refl, h)
or_refusal-none none (some x) r h = cc
or_refusal-none (some x) b r h = cc

pub first_refusal-none :
    (tests : List (Bool × Refusal))
    → first_refusal tests ≡ none
    → All (λ (t : Bool × Refusal). t.0 ≡ false) tests
unfolding first_refusal
first_refusal-none [] h = tt
first_refusal-none ((true, why) ∷ tests) h = cc
first_refusal-none ((false, why) ∷ tests) h = (refl, first_refusal-none tests h)

module _ (c : Context) where
  pub All-filter :
      (p : Option Ticket → Bool) (rs : List (Option Ticket))
      → All (Agrees c.ticket) rs
      → All (Agrees c.ticket) (filter_by p rs)
  All-filter p [] a = tt
  All-filter p (r ∷ rs) (a, b) =
      if-split (All (Agrees c.ticket)) (p r) (r ∷ filter_by p rs) (filter_by p rs)
        (λ h. (a, All-filter p rs b)) (λ h. All-filter p rs b)

  pub walk_queue-Agrees : All (Agrees c.ticket) (queue_of c) → All (Agrees c.ticket) (walk_queue c)
  unfolding walk_queue without_backfill_exclusives
  walk_queue-Agrees (a, b) =
      let tests = if is_sim c.head.class then c.behind else filter_by is_test_or_unread c.behind in
      (
        a,
        All-filter (λ t. not (is_exclusive t)) tests
            (if-split (All (Agrees c.ticket)) (is_sim c.head.class) c.behind
              (filter_by is_test_or_unread c.behind) (λ h. b)
              (λ h. All-filter is_test_or_unread c.behind b)),
      )

  pub All-rest :
      (rs : List (Option Ticket)) → All (Agrees c.ticket) rs → All (Agrees c.ticket) (rest_of rs)
  All-rest [] a = tt
  All-rest (r ∷ rs) (a, b) = b

  pub or_option-Fine : (o p : Option Ticket) → Fine c o → Fine c p → Fine c (or_option o p)
  or_option-Fine none p f g = g
  or_option-Fine (some t) p f g = f

  pub select_candidate-Fine :
      (rs : List (Option Ticket))
      → All (Agrees c.ticket) rs
      → Fine c (select_candidate lease_key rs c.held)
  unfolding select_candidate
  select_candidate-Fine [] a = tt
  select_candidate-Fine (none ∷ rs) a = tt
  select_candidate-Fine (some t ∷ rs) (a, b) =
      if-split (Fine c) (is_blocked c.held t) (select_candidate lease_key rs c.held) (some t)
        (λ h. select_candidate-Fine rs b) (λ h. (h, a))

  pub select_capacity_candidate-Fine :
      (rs : List (Option Ticket)) (w k : ℕ)
      → All (Agrees c.ticket) rs
      → Fine c (select_capacity_candidate lease_key rs c.held w k)
  unfolding select_capacity_candidate
  select_capacity_candidate-Fine [] w k a = tt
  select_capacity_candidate-Fine (none ∷ rs) w k a = tt
  select_capacity_candidate-Fine (some t ∷ rs) w k (a, b) =
      let later = select_capacity_candidate lease_key rs c.held w k in
      let rest = select_capacity_candidate-Fine rs w k b in
      if-split (Fine c) (is_blocked c.held t) later (if leb (w + t.weight) k then some t else later)
        (λ h. rest)
        (λ h. if-split (Fine c) (leb (w + t.weight) k) (some t) later (λ l. (h, a)) (λ l. rest))

  pub smaller-Fine :
      (best : Option (Ticket × ℕ)) (t : Ticket) (o : Option ℕ)
      → Fine c (ticket_of best)
      → Fine c (some t)
      → Fine c (ticket_of (smaller best t o))
  unfolding smaller
  smaller-Fine best t none f g = f
  smaller-Fine none t (some claim) f g = g
  smaller-Fine (some (u, least)) t (some claim) f g =
      if-split (λ o. Fine c (ticket_of o)) (ltb claim least) (some (t, claim)) (some (u, least))
        (λ h. g) (λ h. f)

  passes-unblocked :
      (reserved : Bool) (t : Ticket)
      → resource_passes c reserved t ≡ true
      → is_blocked c.held t ≡ false
  unfolding resource_passes
  passes-unblocked reserved t h = ground arith

  pub resource_loop-Fine :
      (reserved : Bool) (claim_of : Ticket → Option ℕ) (rs : List (Option Ticket))
      (best : Option (Ticket × ℕ))
      → All (Agrees c.ticket) rs
      → Fine c (ticket_of best)
      → Fine c (ticket_of (resource_loop (resource_passes c reserved) claim_of rs best))
  unfolding resource_loop
  resource_loop-Fine reserved claim_of [] best a f = f
  resource_loop-Fine reserved claim_of (none ∷ rs) best a f = f
  resource_loop-Fine reserved claim_of (some t ∷ rs) best (a, b) f =
      resource_loop-Fine reserved claim_of rs _ b (
        if-split (λ o. Fine c (ticket_of o)) (resource_passes c reserved t)
          (smaller best t (claim_of t)) best
          (λ h. smaller-Fine best t (claim_of t) f (passes-unblocked reserved t h, a)) (λ h. f))

  pub floor_walk-Fine :
      (e : Evidence) (rs : List (Option Ticket))
      → All (Agrees c.ticket) rs
      → Fine c (floor_walk c e rs)
  unfolding floor_walk
  floor_walk-Fine e [] a = tt
  floor_walk-Fine e (none ∷ rs) a = tt
  floor_walk-Fine e (some t ∷ rs) (a, b) =
      if-split (Fine c) t.exclusive none _ (λ h. tt)
        (λ h.
          if-split (Fine c) (is_floor_ticket e t && runnable c e t && e.within_overshoot t) (some t)
            (floor_walk c e rs) (λ l. (ground arith, a)) (λ l. floor_walk-Fine e rs b))

  -- `blockedBy` reads the key, the conflicts and the ceiling of a ticket only.
  abbrev blocked_test : ℕ → List ℕ → Option ℕ → Bool
  blocked_test k conflicts ceiling =
      any_by (λ (l : Lease). not (l.key == k) && includes conflicts l.key) c.held
      || leb (ceiling_of ceiling) (holders lease_key c.held k)

  pub Fine-ticket :
      (o : Option Ticket) → Fine c o → names_ticket c o ≡ true → is_blocked c.held c.ticket ≡ false
  Fine-ticket none f n = ground arith
  Fine-ticket (some u) (f, a) n =
      let (k, r, m) = a (ground arith) in
      let same =
        ap (λ x. blocked_test x u.conflicts u.max_concurrent) k
        ∙ ap (λ x. blocked_test c.ticket.key x u.max_concurrent) r
        ∙ ap (λ x. blocked_test c.ticket.key c.ticket.conflicts x) m in
      is_some-blocked_by lease_key c.held c.ticket
      ∙ sym same
      ∙ sym (is_some-blocked_by lease_key c.held u)
      ∙ f

  pub delay-unblocked : (t : Ticket) → cannot_delay_head c t ≡ true → is_blocked c.held t ≡ false
  unfolding cannot_delay_head
  delay-unblocked t h = ground arith
