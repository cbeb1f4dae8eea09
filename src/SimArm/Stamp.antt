-- ===== src/SimArm/Stamp.antt =====
-- How far the stamp of src/sim-arm.js may lag behind the demand for sims.
use lane_broker.Prelude.{
  ℕ, ◌-◌, ◌*◌, ◌≤◌, ◌≡◌, inl, inr, refl, ap, subst, ◌∙◌, false, ◌&&◌, Option, none, some, List, [],
  ◌∷◌, ◌++◌, arith, ltb, if◌then◌else◌, Bool-cases,
}
use lane_broker.Records.{is_sim}
use lane_broker.SimArm.{
  TouchAnswer, ArmEvent, arm_event, arm_run, done, is_behind, is_overdue, no_lock, reconcile,
  reconcile_sim_arm, sim_demand, touch, touch_sim_arm, touch_sim_arm_for, write_failed,
}

-- The stamp lags behind `now` by a tenth of `slack` at most.
abbrev pub Covers : (now slack : ℕ) → Option ℕ → Type 0
Covers now slack stamp = (at : ℕ) × (stamp ≡ some at) × (10 * (now - at) ≤ slack)

-- The demand that an event with a good answer stands for: when it was, and the window.
abbrev pub demand_of : ArmEvent → Option (ℕ × ℕ)
demand_of (touch done class now held) = if is_sim class then some (now, 0) else none
demand_of (touch no_lock class now held) = none
demand_of (touch write_failed class now held) = none
demand_of (reconcile done queue leases now window seen held) =
    if sim_demand queue leases then some (now, window) else none
demand_of (reconcile no_lock queue leases now window seen held) = none
demand_of (reconcile write_failed queue leases now window seen held) = none

-- A stamp that once stood, in view of the one that stands now.
abbrev pub Past : (seen stamp : Option ℕ) → Type 0
Past none stamp = Unit
Past (some at) stamp = (later : ℕ) × (stamp ≡ some later) × (at ≤ later)

-- No holder of the stamp lock had its lock broken: nobody wrote between its read and its write. What a
-- reconciliation saw first is an earlier stamp.
abbrev pub Undisturbed : ArmEvent → Option ℕ → Type 0
Undisturbed (touch a class now held) stamp = held ≡ stamp
Undisturbed (reconcile a queue leases now window seen held) stamp = Past seen stamp × (held ≡ stamp)

abbrev pub UndisturbedRun : List ArmEvent → Option ℕ → Type 0
UndisturbedRun [] stamp = Unit
UndisturbedRun (e ∷ es) stamp = Undisturbed e stamp × UndisturbedRun es (arm_event e stamp)

touch_sim_arm-grows :
    (a : TouchAnswer) (now at : ℕ) (held : Option ℕ)
    → held ≡ some at
    → (later : ℕ) × ((touch_sim_arm a now held (some at)).0 ≡ some later) × (at ≤ later)
unfolding touch_sim_arm is_behind
touch_sim_arm-grows no_lock now at held e = (at, refl, omega arith)
touch_sim_arm-grows write_failed now at held e = (at, ground (arith, e), omega arith)
touch_sim_arm-grows done now at held e = elim (Bool-cases (ltb at now)) [
  | inl b ↦ (now, ground (arith, b, e), ground (arith, b))
  | inr b ↦ (at, ground (arith, b, e), omega arith)
]

-- No event moves the stamp back or removes it.
arm_event-grows :
    (e : ArmEvent) (at : ℕ)
    → Undisturbed e (some at)
    → (later : ℕ) × (arm_event e (some at) ≡ some later) × (at ≤ later)
unfolding arm_event touch_sim_arm_for reconcile_sim_arm
arm_event-grows (touch a class now held) at u = elim (Bool-cases (is_sim class)) [
  | inl b ↦ let g = touch_sim_arm-grows a now at held u in (g.0, ground (arith, b, g.1), g.2)
  | inr b ↦ (at, ground (arith, b), omega arith)
]
arm_event-grows (reconcile a queue leases now window seen held) at u =
    elim (Bool-cases (sim_demand queue leases && is_overdue seen now window)) [
      | inl b ↦ let g = touch_sim_arm-grows a now at held u.1 in (g.0, ground (arith, b, g.1), g.2)
      | inr b ↦ (at, ground (arith, b), omega arith)
    ]

Covers-run :
    (es : List ArmEvent) (now slack : ℕ) (stamp : Option ℕ)
    → UndisturbedRun es stamp
    → Covers now slack stamp
    → Covers now slack (arm_run es stamp)
unfolding arm_run
Covers-run [] now slack stamp u c = c
Covers-run (e ∷ es) now slack stamp u (at, found, close) =
    let g = arm_event-grows e at (subst (Undisturbed e) found u.0) in
    Covers-run es now slack (arm_event e stamp) u.1
      (g.0, ap (arm_event e) found ∙ g.1, omega (arith, close, g.2))

touch_sim_arm-no_earlier :
    (now : ℕ) (held stamp : Option ℕ)
    → held ≡ stamp
    → (at : ℕ) × ((touch_sim_arm done now held stamp).0 ≡ some at) × (now ≤ at)
unfolding touch_sim_arm is_behind
touch_sim_arm-no_earlier now none stamp u = (now, refl, omega arith)
touch_sim_arm-no_earlier now (some held) stamp u = elim (Bool-cases (ltb held now)) [
  | inl b ↦ (now, ground (arith, b), omega arith)
  | inr b ↦ (held, ground (arith, b, u), ground (arith, b))
]

-- A stamp that stood and was not overdue still covers the demand.
is_overdue-Covers :
    (seen stamp : Option ℕ) (now window : ℕ)
    → Past seen stamp
    → is_overdue seen now window ≡ false
    → Covers now window stamp
unfolding is_overdue
is_overdue-Covers none stamp now window u e = absurd (ground (arith, e))
is_overdue-Covers (some at) stamp now window (later, found, le) e =
    (later, found, omega (arith, leb_of e, le))
  where
    leb_of : ltb window (10 * (now - at)) ≡ false → 10 * (now - at) ≤ window
    leb_of f = ground (arith, f)

arm_event-Covers :
    (e : ArmEvent) (now slack : ℕ) (stamp : Option ℕ)
    → Undisturbed e stamp
    → demand_of e ≡ some (now, slack)
    → Covers now slack (arm_event e stamp)
unfolding arm_event touch_sim_arm_for reconcile_sim_arm
arm_event-Covers (touch no_lock class t held) now slack stamp u d = absurd (ground (arith, d))
arm_event-Covers (touch write_failed class t held) now slack stamp u d = absurd (ground (arith, d))
arm_event-Covers (touch done class t held) now slack stamp u d =
    let g = touch_sim_arm-no_earlier t held stamp u in
    (g.0, ground (arith, d, g.1), ground (arith, d, g.2))
arm_event-Covers (reconcile no_lock queue leases t window seen held) now slack stamp u d =
    absurd (ground (arith, d))
arm_event-Covers (reconcile write_failed queue leases t window seen held) now slack stamp u d =
    absurd (ground (arith, d))
arm_event-Covers (reconcile done queue leases t window seen held) now slack stamp u d =
    elim (Bool-cases (is_overdue seen t window)) [
      | inl b ↦
          let g = touch_sim_arm-no_earlier t held stamp u.1 in
          (g.0, ground (arith, d, b, g.1), ground (arith, d, g.2))
      | inr b ↦
          let c = is_overdue-Covers seen stamp t window u.0 b in
          (c.0, ground (arith, d, b, c.1), ground (arith, d, c.2))
    ]

-- After any run in which a touch for a sim, or a reconciliation that finds demand, was answered well, the
-- stamp lags behind that touch by nothing, and behind that reconciliation by a tenth of the window at
-- most, if no stamp is written between the read under the lock and the write of a touch of the run.
pub arm_run-Covers :
    (earlier later : List ArmEvent) (e : ArmEvent) (now slack : ℕ) (stamp : Option ℕ)
    → UndisturbedRun (earlier ++ (e ∷ later)) stamp
    → demand_of e ≡ some (now, slack)
    → Covers now slack (arm_run (earlier ++ (e ∷ later)) stamp)
unfolding arm_run
arm_run-Covers [] later e now slack stamp u d =
    Covers-run later now slack (arm_event e stamp) u.1 (arm_event-Covers e now slack stamp u.0 d)
arm_run-Covers (x ∷ earlier) later e now slack stamp u d =
    arm_run-Covers earlier later e now slack (arm_event x stamp) u.1 d
