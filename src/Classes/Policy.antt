-- ===== src/Classes/Policy.antt =====
-- Which queued tickets the class policy lets start (src/classes.js, classQueuePolicy).
use lane_broker.Prelude.{
  ℕ, ◌+◌, ◌≤◌, ◌<◌, ◌≡◌, inl, inr, refl, ap, Bool, true, false, not, ◌&&◌, ◌||◌, Option, none, some,
  List, [], ◌∷◌, ◌++◌, arith, ◌==◌, Bool-cases, Option-cases, filter_by, any_by,
}
use lane_broker.Records.{is_sim, Lease, Ticket}
use lane_broker.Resources.{Host, Config, cpu_budget_cores}
use lane_broker.Classes.{
  Classes, is_active, is_off, booked_sims, sim_cap_reason, smallest_sim_grant,
  enforcement_available, DenialReason, cap_verdict, cap_denied_sims, always_enforced,
  class_queue_policy, is_eligible,
}
use lane_broker.Classes.Caps.{sim_cap_reason-none}

-- A verdict that the policy acts on.
abbrev pub enforced : Classes → Option DenialReason → Bool
enforced c none = false
enforced c (some reason) = is_active c.mode || always_enforced reason

module _ (h : Host) (cfg : Config) (c : Classes) (held : List Lease) where
  abbrev pub verdict_of : Ticket → Option DenialReason
  verdict_of t = cap_verdict h cfg c (booked_sims h cfg held) t

  abbrev pub denies : (id : ℕ) → Option Ticket → Bool
  denies id none = false
  denies id (some u) = (u.id == id) && enforced c (verdict_of u)

  any_by-cap_denied_sims :
      (id : ℕ) (queue : List (Option Ticket))
      → any_by
          (λ (v : ℕ × DenialReason). v.0 == id)
          (filter_by
            (λ (v : ℕ × DenialReason). is_active c.mode || always_enforced v.1)
            (cap_denied_sims h cfg c held queue))
        ≡ any_by (denies id) queue
  unfolding cap_denied_sims
  any_by-cap_denied_sims id [] = refl
  any_by-cap_denied_sims id (none ∷ queue) = any_by-cap_denied_sims id queue
  any_by-cap_denied_sims id (some t ∷ queue) = elim (Option-cases (verdict_of t)) [
    | inl free ↦ ground (arith, free, any_by-cap_denied_sims id queue)
    | inr (reason, e) ↦ ground (
      arith,
      e,
      any_by-cap_denied_sims id queue,
      Bool-cases (is_active c.mode || always_enforced reason),
    )
  ]

-- A ticket is eligible exactly if no readable record of the queue under its id has a verdict that the
-- policy acts on: any verdict in active mode, in the other modes only a required enforcement that is
-- not available and a sim under a broken configuration.
pub is_eligible-denies :
    (h : Host) (cfg : Config) (c : Classes) (held : List Lease) (queue : List (Option Ticket))
    (t : Ticket)
    → is_eligible (class_queue_policy h cfg c held queue) t
      ≡ not (any_by (denies h cfg c held t.id) queue)
unfolding is_eligible class_queue_policy
is_eligible-denies h cfg c held queue t = ap not (any_by-cap_denied_sims h cfg c held t.id queue)

any_by-at :
    (p : Option Ticket → Bool) (xs : List (Option Ticket)) (x : Option Ticket)
    (ys : List (Option Ticket))
    → any_by p (xs ++ (x ∷ ys)) ≡ false
    → p x ≡ false
any_by-at p [] x ys e = ground (arith, e)
any_by-at p (y ∷ xs) x ys e = any_by-at p xs x ys (ground (arith, e))

-- What the policy guarantees of a ticket that it lets start.
abbrev pub Permitted : Host → Config → Classes → List Lease → Ticket → Type 0
Permitted h cfg c held t =
    (t.enforcement_required ≡ true → enforcement_available c ≡ true)
    × (is_sim t.class ≡ true → c.valid ≡ true)
    × (is_sim t.class ≡ true
        → enforcement_available c ≡ true
        → let b = booked_sims h cfg held in
          let g = smallest_sim_grant h cfg t in
          (b.count < c.max_tickets)
          × (b.cores + g.0 ≤ c.cap_cores)
          × (b.memory_bytes + g.1 ≤ c.cap_memory_bytes)
          × (b.cores + g.0 + c.reserve_cores ≤ cpu_budget_cores h cfg))

not_enforced-Permitted :
    (h : Host) (cfg : Config) (c : Classes) (held : List Lease) (t : Ticket)
    → enforced c (cap_verdict h cfg c (booked_sims h cfg held) t) ≡ false
    → Permitted h cfg c held t
unfolding cap_verdict enforcement_available
not_enforced-Permitted h cfg c held t e =
    let g = smallest_sim_grant h cfg t in
    let b = booked_sims h cfg held in
    let q = sim_cap_reason-none c b g.0 g.1 (cpu_budget_cores h cfg) in
    (
      λ r. ground (arith, e, r),
      λ s. ground (arith, e, s),
      λ s on. q (
          ground (
            arith,
            e,
            s,
            on,
            Option-cases (sim_cap_reason c b g.0 g.1 (cpu_budget_cores h cfg)),
            Bool-cases (is_off c.mode),
          )),
    )

-- A queued ticket that the policy lets start has the enforcement that it requires, and if it is a sim,
-- the class configuration is valid and, where the caps are in force, its smallest grant is within them.
pub is_eligible-Permitted :
    (h : Host) (cfg : Config) (c : Classes) (held : List Lease) (ahead : List (Option Ticket))
    (t : Ticket) (behind : List (Option Ticket))
    → is_eligible (class_queue_policy h cfg c held (ahead ++ (some t ∷ behind))) t ≡ true
    → Permitted h cfg c held t
is_eligible-Permitted h cfg c held ahead t behind e = not_enforced-Permitted h cfg c held t (
    ground (
      arith,
      any_by-at (denies h cfg c held t.id) ahead (some t) behind
          (ground (arith, e, is_eligible-denies h cfg c held (ahead ++ (some t ∷ behind)) t)),
    ))
