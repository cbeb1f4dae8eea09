-- ===== src/Scheduler/Start.antt =====
-- One evaluation of `tryStart` (src/scheduler.js) from the selection on: which ticket is the
-- candidate, who may start past the head, and every refusal up to the start. What CPU and memory
-- admission, the estimates and the files answer is in `Evidence`.
pub mod Early
pub mod Verdict
use lane_broker.Prelude.{
  ℕ, ◌+◌, Bool, true, false, not, ◌&&◌, ◌||◌, Option, none, some, List, [], ◌∷◌, ◌++◌, map, ltb,
  leb, ◌==◌, if◌then◌else◌, is_some, filter_by, every_by, sum_by,
}
use lane_broker.Records.{is_sim, Tier, Lease, Ticket}
use lane_broker.Priority.{tier_base, priority_of}
use lane_broker.Scheduler.Blocking.{blocked_by, select_candidate, select_capacity_candidate}
use lane_broker.Scheduler.Exclusive.{is_exclusive, without_backfill_exclusives, is_exclusive_head}

-- The queue is `head` and what follows; `ahead` is the part of it before the ticket, and `queued` its own
-- record of the ticket.
pub record Context : Type 0 where
  pub head : Ticket
  pub behind : List (Option Ticket)
  pub ahead : List (Option Ticket)
  pub ticket : Ticket
  pub queued : Ticket
  pub held : List Lease
  pub weight_capacity : ℕ

-- The settings that selection reads, as tests.
pub record Settings : Type 0 where
  pub active : Bool
  pub conflict_safe_backfill : Bool
  pub express_on : Bool
  pub admission_load_gate : Bool
  pub floor_on : Bool
  pub idle_overshoot_on : Bool

pub record Evidence : Type 0 where
  pub skip_exhausted : Bool
  pub capacity_skip_exhausted : Bool
  pub capacity_reserved : Bool
  pub resource_backfill : Bool
  pub resource_reserved : Bool
  pub behind_conflict_record : Bool
  pub claim_of : Ticket → Option ℕ
  pub express_head_protected : Bool
  pub express_rate_open : Bool
  pub express_predicted : Bool
  pub floor_lease_held : Bool
  pub is_floor_gate : Ticket → Bool
  pub below_floor : Ticket → Bool
  pub head_admitted : Bool
  pub floor_barred : Bool
  pub within_overshoot : Ticket → Bool
  pub bypass_open : Bool

abbrev pub lease_key : Lease → ℕ
lease_key l = l.key

abbrev pub is_blocked : List Lease → Ticket → Bool
is_blocked held t = is_some (blocked_by lease_key held t)

-- `blockedBy([{ key }], t)`
abbrev pub key_blocks : ℕ → Ticket → Bool
key_blocks k t = is_some (blocked_by (λ (j : ℕ). j) (k ∷ []) t)

abbrev pub running_weight : List Lease → ℕ
running_weight held = sum_by (λ (l : Lease). l.weight) held

abbrev pub queue_of : Context → List (Option Ticket)
queue_of c = some c.head ∷ c.behind

abbrev pub head_conflicted : Context → Bool
head_conflicted c = is_blocked c.held c.head

abbrev pub exclusive_holder : Context → Bool
exclusive_holder c = is_exclusive_head (queue_of c) c.ticket

abbrev pub head_capacity_blocked : Context → Bool
head_capacity_blocked c =
    not (head_conflicted c)
    && not (exclusive_holder c)
    && ltb c.weight_capacity (running_weight c.held + c.head.weight)

-- `cannotDelayHead`
unfoldable pub cannot_delay_head : Context → Ticket → Bool
cannot_delay_head c t =
    not t.exclusive
    && not (is_blocked c.held t)
    && not (key_blocks t.key c.head)
    && not (key_blocks c.head.key t)
    && leb (running_weight c.held + c.head.weight + t.weight) c.weight_capacity

abbrev pub is_head : Context → Bool
is_head c = c.ticket.id == c.head.id

abbrev pub sim_held_back : Context → Ticket → Bool
sim_held_back c t = not (is_sim c.head.class) && is_sim t.class

unfoldable pub safe_backfill : Context → Settings → Evidence → Bool
safe_backfill c cfg e =
    ((head_conflicted c && e.skip_exhausted && cfg.conflict_safe_backfill)
      || (sim_held_back c c.ticket && cfg.conflict_safe_backfill))
    && not (is_head c)
    && every_by is_some c.ahead
    && cannot_delay_head c c.ticket

unfoldable pub express_eligible : Context → Settings → Evidence → Bool
express_eligible c cfg e =
    cfg.express_on
    && not (safe_backfill c cfg e)
    && not (is_head c)
    && not c.ticket.exclusive
    && not (sim_held_back c c.ticket)
    && every_by is_some c.ahead
    && not (is_blocked c.held c.ticket)
    && leb (running_weight c.held + c.ticket.weight) c.weight_capacity
    && (not e.express_head_protected || cannot_delay_head c c.ticket)
    && e.express_rate_open

unfoldable pub priority_yield_eligible : Context → Settings → Evidence → Bool
priority_yield_eligible c cfg e =
    not (safe_backfill c cfg e)
    && not (is_head c)
    && e.resource_reserved
    && ltb (tier_base (priority_of c.head)) (tier_base (priority_of c.queued))
    && not c.ticket.exclusive
    && not (sim_held_back c c.ticket)
    && every_by is_some c.ahead
    && cannot_delay_head c c.ticket
    && e.express_rate_open

unfoldable pub express_admit : Context → Settings → Evidence → Bool
express_admit c cfg e =
    express_eligible c cfg e
    && not (e.express_head_protected && priority_yield_eligible c cfg e)
    && e.express_predicted

-- `headBypass`: an express start or a priority yield.
unfoldable pub head_bypass : Context → Settings → Evidence → Bool
head_bypass c cfg e =
    express_admit c cfg e || (priority_yield_eligible c cfg e && not (express_admit c cfg e))

abbrev pub is_test_or_unread : Option Ticket → Bool
is_test_or_unread none = true
is_test_or_unread (some t) = not (is_sim t.class)

unfoldable pub walk_queue : Context → List (Option Ticket)
walk_queue c =
    without_backfill_exclusives (
      some c.head
      ∷ (if is_sim c.head.class then c.behind else filter_by is_test_or_unread c.behind))

-- `if (claim < bestClaim)`: the smallest claim so far, and the first of equal ones.
unfoldable pub smaller : Option (Ticket × ℕ) → Ticket → Option ℕ → Option (Ticket × ℕ)
smaller best t none = best
smaller none t (some claim) = some (t, claim)
smaller (some (u, least)) t (some claim) =
    if ltb claim least then some (t, claim) else some (u, least)

-- The loop of `selectResourceCandidate`.
unfoldable pub resource_loop :
    (passes : Ticket → Bool) (claim_of : Ticket → Option ℕ)
    → List (Option Ticket)
    → Option (Ticket × ℕ)
    → Option (Ticket × ℕ)
resource_loop passes claim_of [] best = best
resource_loop passes claim_of (none ∷ rs) best = best
resource_loop passes claim_of (some t ∷ rs) best =
    resource_loop passes claim_of rs (if passes t then smaller best t (claim_of t) else best)

abbrev pub ticket_of : Option (Ticket × ℕ) → Option Ticket
ticket_of none = none
ticket_of (some (t, claim)) = some t

abbrev pub rest_of : List (Option Ticket) → List (Option Ticket)
rest_of [] = []
rest_of (r ∷ rs) = rs

-- The tests of `selectResourceCandidate` before the projection. With the head's claim reserved, its
-- weight counts as held; otherwise the candidate may not block the head.
unfoldable pub resource_passes : Context → (head_reserved : Bool) → Ticket → Bool
resource_passes c head_reserved t =
    not (is_blocked c.held t)
    && leb (running_weight c.held + (if head_reserved then c.head.weight else 0) + t.weight)
        c.weight_capacity
    && not (
        if head_reserved
        then key_blocks t.key c.head || key_blocks c.head.key t
        else is_some (blocked_by (λ (j : ℕ). j) (map lease_key c.held ++ (t.key ∷ [])) c.head))

unfoldable pub select_resource_candidate :
    Context → Evidence → (head_reserved : Bool) → Option Ticket
select_resource_candidate c e head_reserved =
    ticket_of
      (resource_loop (resource_passes c head_reserved) e.claim_of (rest_of (walk_queue c)) none)

unfoldable pub conflict_pick : Context → Evidence → Option Ticket
conflict_pick c e =
    if head_conflicted c && not e.skip_exhausted && e.behind_conflict_record
    then select_resource_candidate c e true
    else none

abbrev pub or_option : Option Ticket → Option Ticket → Option Ticket
or_option none o = o
or_option (some t) o = some t

-- The candidate behind a conflicted head, behind a head that does not fit, and otherwise.
abbrev pub conflict_candidate : Context → Evidence → Option Ticket
conflict_candidate c e =
    if e.skip_exhausted
    then none
    else or_option (conflict_pick c e) (select_candidate lease_key (walk_queue c) c.held)

abbrev pub capacity_candidate : Context → Evidence → Option Ticket
capacity_candidate c e =
    if e.capacity_skip_exhausted || e.capacity_reserved
    then none
    else select_capacity_candidate lease_key (walk_queue c) c.held (running_weight c.held)
        c.weight_capacity

abbrev pub open_candidate : Context → Evidence → Option Ticket
open_candidate c e =
    if e.resource_backfill && not (is_head c)
    then select_resource_candidate c e false
    else some c.head

unfoldable pub candidate : Context → Settings → Evidence → Option Ticket
candidate c cfg e =
    if safe_backfill c cfg e || head_bypass c cfg e
    then some c.ticket
    else if head_conflicted c
    then conflict_candidate c e
    else if head_capacity_blocked c
    then capacity_candidate c e
    else open_candidate c e
