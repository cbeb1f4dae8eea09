-- ===== src/SimArm.antt =====
-- When sim demand last existed (src/sim-arm.js): the stamp that keeps the sim soft lock armed. The stamp
-- file is an option, `none` where it is missing or unreadable. A touch reads it and writes it later: what it
-- has read is an argument, since a holder of the stamp lock that is suspended until its lock counts as
-- stale may write over a later stamp. What the file system answers is an argument: whether the lock was
-- had, and whether the write succeeded.
mod Stamp
mod Tests
use lane_broker.Prelude.{
  ℕ, zero, suc, ◌+◌, ◌-◌, ◌*◌, ◌/◌, ◌%◌, ◌≤◌, ◌<◌, min, max, ◌≡◌, ◌≢◌, ◌↔◌, ◌⊎◌, inl, inr, refl,
  sym, ap, subst, ◌∙◌, Bool, true, false, not, ◌&&◌, ◌||◌, Option, none, some, List, [], ◌∷◌, ◌++◌,
  map, append-nil, append_assoc, arith, ltb, leb, ltb→lt, lt→ltb, leb→le, le→leb, ◌==◌, ==_iff,
  if◌then◌else◌, Bool-cases, Option-cases, or_else, is_some, length, filter_by, find_by, any_by,
  every_by, last?, replicate, length-append, All, All-append, sum_by, take, drop, take-length_le,
  take-append, take-append_le, take-append_self, drop-append_self, drop-append_le, length-drop,
  length-take, some_injective, if-split, insert_by, sort_by, InOrder, sort_by-Perm, sort_by-All,
  sort_by-InOrder, mul_pos, mul_mono, Perm,
}
use lane_broker.Records.{Class, Lease, Ticket, is_sim}

-- What the file system answers to one touch: the lock was not had, the write threw, or all went well.
pub data TouchAnswer : Type 0 where
  no_lock : TouchAnswer
  write_failed : TouchAnswer
  done : TouchAnswer

-- `held === null || held < now`
unfoldable pub is_behind : Option ℕ → (now : ℕ) → Bool
is_behind none now = true
is_behind (some held) now = ltb held now

-- The stamp after a touch that had read `held`, and what the touch returns.
unfoldable pub touch_sim_arm : TouchAnswer → (now : ℕ) (held stamp : Option ℕ) → Option ℕ × Bool
touch_sim_arm no_lock now held stamp = (stamp, false)
touch_sim_arm write_failed now held stamp =
    if is_behind held now then (stamp, false) else (stamp, true)
touch_sim_arm done now held stamp = if is_behind held now then (some now, true) else (stamp, true)

-- The touch that every event on a ticket or a lease makes.
unfoldable pub touch_sim_arm_for :
    TouchAnswer → Class → (now : ℕ) (held stamp : Option ℕ) → Option ℕ
touch_sim_arm_for a class now held stamp =
    if is_sim class then (touch_sim_arm a now held stamp).0 else stamp

unfoldable pub sim_demand : List Ticket → List Lease → Bool
sim_demand queue held = any_by (λ t. is_sim t.class) queue || any_by (λ l. is_sim l.class) held

-- `now - stamp > simArmWindowMs * STAMP_REFRESH_FRACTION`, or no stamp
unfoldable pub is_overdue : Option ℕ → (now window : ℕ) → Bool
is_overdue none now window = true
is_overdue (some at) now window = ltb window (10 * (now - at))

-- The stamp after a reconciliation, which first read `seen` without the lock, and what it returns.
unfoldable pub reconcile_sim_arm :
    TouchAnswer
    → List Ticket
    → List Lease
    → (now window : ℕ) (seen held stamp : Option ℕ) → Option ℕ × Option ℕ
reconcile_sim_arm a queue leases now window seen held stamp =
    if sim_demand queue leases && is_overdue seen now window
    then ((touch_sim_arm a now held stamp).0, some (max (or_else seen now) now))
    else (stamp, seen)

-- What happens to the stamp file, at the writes: each event bears what it has read.
pub data ArmEvent : Type 0 where
  touch : (answer : TouchAnswer) (class : Class) (now : ℕ) (held : Option ℕ) → ArmEvent
  reconcile :
      (answer : TouchAnswer) (queue : List Ticket) (leases : List Lease) (now window : ℕ)
      (seen held : Option ℕ)
      → ArmEvent

unfoldable pub arm_event : ArmEvent → Option ℕ → Option ℕ
arm_event (touch a class now held) stamp = touch_sim_arm_for a class now held stamp
arm_event (reconcile a queue leases now window seen held) stamp =
    (reconcile_sim_arm a queue leases now window seen held stamp).0

unfoldable pub arm_run : List ArmEvent → Option ℕ → Option ℕ
arm_run [] stamp = stamp
arm_run (e ∷ es) stamp = arm_run es (arm_event e stamp)
