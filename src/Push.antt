-- ===== src/Push.antt =====
-- Pushes of one caller wait for each other (src/push-gate.js): a lane that runs in a pre-push hook
-- carries the push it belongs to, and pushHolds finds in one pass over each caller's lanes which queued
-- ones wait behind another push. Callers, pids and ids are numbers. Whether a lane is live (not
-- cancelled, not superseded) is read once and is a field here.
mod Holds
mod Tests
use lane_broker.Prelude.{
  ℕ, ◌+◌, ◌*◌, Bool, true, false, not, ◌&&◌, ◌||◌, Option, none, some, List, [], ◌∷◌, ◌++◌, ltb,
  leb, ◌==◌, if◌then◌else◌, or_else, is_some, filter_by, find_by, any_by, sort_by,
}

-- A lane with its push: of a lease, `running` says that it is RUNNING.
pub record Gate : Type 0 where
  pub id : ℕ
  pub git_pid : ℕ
  pub git_start_epoch : ℕ
  pub caller : ℕ
  pub live : Bool

-- `pushOrder`: when git started, then its pid.
unfoldable pub push_order : Gate → Gate → Bool
push_order a b =
    ltb a.git_start_epoch b.git_start_epoch
    || (a.git_start_epoch == b.git_start_epoch && ltb a.git_pid b.git_pid)

-- `other`, if there is one, belongs to another push than `g`.
unfoldable pub differs : Gate → Gate → Bool
differs g other = not (other.git_pid == g.git_pid)

unfoldable pub if_differs : Gate → Option Gate → Option Gate
if_differs g none = none
if_differs g (some other) = if differs g other then some other else none

unfoldable pub or_other : Option Gate → Option Gate → Option Gate
or_other none b = b
or_other (some a) b = some a

-- What the pass remembers of the live gates that it has seen: the first, and the first of another push.
unfoldable pub earliest_after : Option Gate → Gate → Option Gate
earliest_after none g = if g.live then some g else none
earliest_after (some e) g = some e

unfoldable pub another_after : (earliest another : Option Gate) → Gate → Option Gate
another_after none another g = another
another_after (some e) (some a) g = some a
another_after (some e) none g = if g.live && differs e g then some g else none

-- `holds.set(ticket.id, holder.id)`, if there is a holder.
unfoldable pub noted : Gate → (holder : Option Gate) → List (ℕ × ℕ) → List (ℕ × ℕ)
noted g none rest = rest
noted g (some holder) rest = (g.id, holder.id) ∷ rest

unfoldable pub push_pass :
    (first_running other_running earliest another : Option Gate) → List Gate → List (ℕ × ℕ)
push_pass first other earliest another [] = []
push_pass first other earliest another (g ∷ gs) =
    noted g
      (or_other (or_other (if_differs g first) other) (or_other (if_differs g earliest) another))
      (push_pass first other (earliest_after earliest g) (another_after earliest another g) gs)

unfoldable pub first_of : List Gate → Option Gate
first_of [] = none
first_of (g ∷ gs) = some g

unfoldable pub first_differing : Option Gate → List Gate → Option Gate
first_differing none gs = none
first_differing (some e) gs = find_by (differs e) gs

-- The holds among one caller's running and queued lanes.
unfoldable pub caller_holds : (running queued : List Gate) → List (ℕ × ℕ)
caller_holds running queued =
    push_pass (first_of running) (first_differing (first_of running) running) none none
      (sort_by push_order queued)

abbrev pub of_caller : (caller : ℕ) → List Gate → List Gate
of_caller caller gs = filter_by (λ (g : Gate). g.caller == caller) gs

-- The running lanes that hold others are those of RUNNING leases that are live.
unfoldable pub push_holds : (callers : List ℕ) (leases queue : List Gate) → List (ℕ × ℕ)
push_holds [] leases queue = []
push_holds (caller ∷ callers) leases queue =
    caller_holds (of_caller caller (filter_by (λ (g : Gate). g.live) leases))
      (of_caller caller queue)
    ++ push_holds callers leases queue
