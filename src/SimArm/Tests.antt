-- ===== src/SimArm/Tests.antt =====
-- The stamp of the sim soft lock over a run with a touch that did not get the lock.
use lane_broker.Prelude.{◌≡◌, refl, none, some, List, [], ◌∷◌, ◌++◌}
use lane_broker.Records.{Ticket, sim, test}
use lane_broker.SimArm.Stamp.{UndisturbedRun, Covers, arm_run-Covers}
use lane_broker.SimArm.{
  ArmEvent, arm_event, arm_run, done, is_behind, is_overdue, no_lock, reconcile_sim_arm, sim_demand,
  touch, touch_sim_arm, touch_sim_arm_for,
}

abbrev before_sim : List ArmEvent
before_sim = touch done sim 900 none ∷ touch no_lock sim 950 (some 900) ∷ []

abbrev after_sim : List ArmEvent
after_sim = touch done test 2000 (some 1000) ∷ touch done sim 400 (some 1000) ∷ []

-- The touch at 950 lost the lock, that of a test lane does not count, and that at 400 is late.
before_and_after :
    arm_run (before_sim ++ (touch done sim 1000 (some 900) ∷ after_sim)) none ≡ some 1000
unfolding arm_run arm_event touch_sim_arm_for touch_sim_arm is_behind
before_and_after = refl

-- A reconciliation whose touch fails returns a stamp that the file does not hold.
unsaved :
    (t : Ticket)
    → reconcile_sim_arm no_lock (record t { class = sim } ∷ []) [] 500 100 none none none
      ≡ (none, some 500)
unfolding reconcile_sim_arm sim_demand is_overdue touch_sim_arm
unsaved t = refl

undisturbed : UndisturbedRun (before_sim ++ (touch done sim 1000 (some 900) ∷ after_sim)) none
unfolding arm_event touch_sim_arm_for touch_sim_arm is_behind
undisturbed = (refl, (refl, (refl, (refl, (refl, tt)))))

-- A touch that was suspended since it read 900 stores its own 950 over the later 1000.
moved_back :
    arm_run (touch done sim 1000 (some 900) ∷ touch done sim 950 (some 900) ∷ []) (some 900)
    ≡ some 950
unfolding arm_run arm_event touch_sim_arm_for touch_sim_arm is_behind
moved_back = refl

arm_run-Covers_example :
    Covers 1000 0 (arm_run (before_sim ++ (touch done sim 1000 (some 900) ∷ after_sim)) none)
arm_run-Covers_example =
    arm_run-Covers before_sim after_sim (touch done sim 1000 (some 900)) 1000 0 none undisturbed
      refl
