-- ===== src/Scheduler/Exclusive.antt =====
-- The exclusive head gate (src/exclusive.js) and the leases that starting under it writes.
use lane_broker.Prelude.{
  ℕ, ◌/◌, ◌≤◌, min, max, ◌≡◌, ◌⊎◌, inl, inr, refl, Bool, true, false, not, ◌&&◌, Option, none, some,
  List, [], ◌∷◌, arith, ltb, leb, ◌==◌, if◌then◌else◌, Bool-cases, length, filter_by, find_by,
  any_by,
}
use lane_broker.Scheduler.Blocking.{select_candidate, select_capacity_candidate}
use lane_broker.Records.{Lease, Ticket}

abbrev pub is_exclusive : Option Ticket → Bool
is_exclusive none = false
is_exclusive (some t) = t.exclusive

abbrev pub first : List (Option Ticket) → Option Ticket
first [] = none
first (r ∷ rs) = r

-- Why `exclusiveDeny` refuses.
pub data ExclusiveDenial : Type 0 where
  exclusive_held : (holder : ℕ) → ExclusiveDenial
  exclusive_head : (holder : ℕ) → ExclusiveDenial
  exclusive_draining : (running : ℕ) → ExclusiveDenial

-- The second half of `exclusiveDeny`: the head, if it is exclusive.
abbrev head_deny : Option Ticket → Ticket → List Lease → Option ExclusiveDenial
head_deny none ticket held = none
head_deny (some head) ticket held =
    if not head.exclusive
    then none
    else if not (ticket.id == head.id)
    then some (exclusive_head head.id)
    else if ltb 0 (length held)
    then some (exclusive_draining (length held))
    else none

unfoldable pub exclusive_deny : List (Option Ticket) → Ticket → List Lease → Option ExclusiveDenial
exclusive_deny queue ticket held = elim (find_by (λ (l : Lease). l.exclusive) held) [
  | some holder ↦ some (exclusive_held holder.id)
  | none ↦ head_deny (first queue) ticket held
]

abbrev names : Option Ticket → ℕ → Bool
names none id = false
names (some t) id = t.id == id

unfoldable pub is_exclusive_head : List (Option Ticket) → Ticket → Bool
is_exclusive_head queue ticket = is_exclusive (first queue) && names (first queue) ticket.id

-- `withoutBackfillExclusives` keeps position 0, barriers and what is not exclusive.
unfoldable pub without_backfill_exclusives : List (Option Ticket) → List (Option Ticket)
without_backfill_exclusives [] = []
without_backfill_exclusives (r ∷ rs) = r ∷ filter_by (λ t. not (is_exclusive t)) rs

-- `queuedWeightLimit`, where `half` is `floor(capacity / 2)`.
unfoldable pub queued_weight_limit : (max_lane_weight capacity : ℕ) → ℕ
queued_weight_limit max_lane_weight capacity = max 1 (min max_lane_weight (capacity / 2))

-- `clampQueuedWeight`, without the note of the weight that it clamped from.
unfoldable pub clamp_queued_weight : Ticket → (max_lane_weight capacity : ℕ) → Ticket
clamp_queued_weight t max_lane_weight capacity =
    let limit = queued_weight_limit max_lane_weight capacity in
    if not t.exclusive && ltb limit t.weight then record t { weight = limit } else t

-- `oversizedWeight`: only a weight that is not exclusive is refused.
unfoldable pub oversized_weight : (weight max_lane_weight : ℕ) → (exclusive : Bool) → Bool
oversized_weight weight max_lane_weight exclusive = not exclusive && ltb max_lane_weight weight

-- `exclusiveDeadlineProblem`, as the test that a deadline in milliseconds passes.
unfoldable pub is_valid_deadline : (ms : ℕ) → Bool
is_valid_deadline ms = leb 60000 ms && leb ms 7200000

-- `exclusiveLeaseFields`: the run claims the whole admission budget.
unfoldable pub exclusive_lease_fields :
    Lease → (weight_capacity cpu_budget memory_budget : ℕ) → Lease
exclusive_lease_fields lease weight_capacity cpu_budget memory_budget = record lease {
  exclusive = true;
  weight = weight_capacity;
  resources = record {
    cpu_cores = some cpu_budget;
    min_cpu_cores = none;
    memory_bytes = some memory_budget;
  };
}

-- `writeLease`: one file for each id.
abbrev pub write_lease : Lease → List Lease → List Lease
write_lease lease files = lease ∷ filter_by (λ (l : Lease). not (l.id == lease.id)) files

-- `removeLease`
abbrev pub remove_lease : ℕ → List Lease → List Lease
remove_lease id files = filter_by (λ (l : Lease). not (l.id == id)) files

-- What may happen to the held leases under the broker lock. A lease is exclusive exactly if its
-- ticket is the exclusive head when it starts. `exclusiveDeny` was passed on the way.
pub data Turn (held : List Lease) : List Lease → Type 0 where
  starts :
      (queue : List (Option Ticket)) (ticket : Ticket) (lease : Lease)
      → exclusive_deny queue ticket held ≡ none
      → lease.exclusive ≡ is_exclusive_head queue ticket
      → Turn held (write_lease lease held)
  ends : (id : ℕ) → Turn held (remove_lease id held)

pub data Reachable : List Lease → Type 0 where
  idle : Reachable []
  turn : {held later : List Lease} → Reachable held → Turn held later → Reachable later

-- An exclusive lease is held alone.
abbrev pub IsAlone : List Lease → Type 0
IsAlone held = any_by (λ (l : Lease). l.exclusive) held ≡ true → length held ≡ 1

find-any :
    (held : List Lease)
    → find_by (λ (l : Lease). l.exclusive) held ≡ none
    → any_by (λ (l : Lease). l.exclusive) held ≡ false
find-any [] e = refl
find-any (l ∷ held) e = ground (arith, find-any held)

module _ (p : Lease → Bool) where
  any-filter :
      (held : List Lease)
      → any_by (λ (l : Lease). l.exclusive) held ≡ false
      → any_by (λ (l : Lease). l.exclusive) (filter_by p held) ≡ false
  any-filter [] e = refl
  any-filter (l ∷ held) e = ground (arith, any-filter held)

  length-filter-le : (held : List Lease) → length (filter_by p held) ≤ length held
  length-filter-le [] = omega arith
  length-filter-le (l ∷ held) = ground (arith, length-filter-le held)

any-pos : (held : List Lease) → any_by (λ (l : Lease). l.exclusive) held ≡ true → 1 ≤ length held
any-pos [] e = cc
any-pos (l ∷ held) e = omega arith

filter-IsAlone : (p : Lease → Bool) (held : List Lease) → IsAlone held → IsAlone (filter_by p held)
filter-IsAlone p held alone e = elim (Bool-cases (any_by (λ (l : Lease). l.exclusive) held)) [
  | inl some_held ↦
      omega (arith, alone some_held, length-filter-le p held, any-pos (filter_by p held) e)
  | inr none_held ↦ absurd (ground (arith, any-filter p held none_held))
]

-- What a pass through `exclusiveDeny` says of the leases held.
exclusive_deny-none :
    (queue : List (Option Ticket)) (ticket : Ticket) (held : List Lease)
    → exclusive_deny queue ticket held ≡ none
    → (any_by (λ (l : Lease). l.exclusive) held ≡ false)
      × (is_exclusive_head queue ticket ≡ true → length held ≡ 0)
unfolding exclusive_deny is_exclusive_head
exclusive_deny-none queue ticket held h = (find-any held (ground arith), λ e. ground arith)

Turn-IsAlone : {held later : List Lease} → Turn held later → IsAlone held → IsAlone later
Turn-IsAlone {held} (starts queue ticket lease free head) alone e =
    let (no_holder, drained) = exclusive_deny-none queue ticket held free in
    let others = λ (l : Lease). not (l.id == lease.id) in
    ground (arith, any-filter others held no_holder, length-filter-le others held, drained)
Turn-IsAlone {held} (ends id) alone e = filter-IsAlone (λ l. not (l.id == id)) held alone e

-- In every state that starts and ends of runs can reach, an exclusive lease is the only one held.
pub Reachable-IsAlone : {held : List Lease} → Reachable held → IsAlone held
Reachable-IsAlone idle e = cc
Reachable-IsAlone (turn r t) e = Turn-IsAlone t (Reachable-IsAlone r) e

module _ {A : Type 0} (key_of : A → ℕ) (held : List A) where
  behind_not_exclusive :
      (rs : List (Option Ticket)) (t : Ticket)
      → select_candidate key_of (filter_by (λ r. not (is_exclusive r)) rs) held ≡ some t
      → t.exclusive ≡ false
  unfolding select_candidate
  behind_not_exclusive [] t e = cc
  behind_not_exclusive (none ∷ rs) t e = cc
  behind_not_exclusive (some u ∷ rs) t e = ground (arith, behind_not_exclusive rs t)

  behind_not_exclusive_capacity :
      (running capacity : ℕ) (rs : List (Option Ticket)) (t : Ticket)
      → select_capacity_candidate key_of
          (filter_by (λ r. not (is_exclusive r)) rs)
          held
          running
          capacity
        ≡ some t
      → t.exclusive ≡ false
  unfolding select_capacity_candidate
  behind_not_exclusive_capacity running capacity [] t e = cc
  behind_not_exclusive_capacity running capacity (none ∷ rs) t e = cc
  behind_not_exclusive_capacity running capacity (some u ∷ rs) t e =
      ground (arith, behind_not_exclusive_capacity running capacity rs t)

  -- Over the walk view an exclusive ticket is selected only if it is the head of the queue: neither
  -- the conflict selector nor the capacity selector backfills an exclusive ticket.
  pub selected_exclusive-is_head :
      (queue : List (Option Ticket)) (running capacity : ℕ) (t : Ticket)
      → t.exclusive ≡ true
      → (select_candidate key_of (without_backfill_exclusives queue) held ≡ some t)
        ⊎ (select_capacity_candidate key_of
              (without_backfill_exclusives queue)
              held
              running
              capacity
            ≡ some t)
      → first queue ≡ some t
  unfolding without_backfill_exclusives select_candidate select_capacity_candidate
  selected_exclusive-is_head [] running capacity t ex s = ground arith
  selected_exclusive-is_head (none ∷ rs) running capacity t ex s = ground arith
  selected_exclusive-is_head (some h ∷ rs) running capacity t ex s =
      ground (arith, behind_not_exclusive rs t, behind_not_exclusive_capacity running capacity rs t)
