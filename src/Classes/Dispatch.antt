-- ===== src/Classes/Dispatch.antt =====
-- What a dispatch carries of a lane's class and what the runner makes of it (src/classes.js).
use lane_broker.Prelude.{◌≡◌, ◌↔◌, ◌⊎◌, Bool, true, none, arith, Bool-cases}
use lane_broker.Records.{Class, is_sim, Ticket}
use lane_broker.Classes.{Classes, enforcement_available, class_transport, class_transport_mismatch}

-- A runner accepts a dispatched lane exactly if it requires enforcement where the submitter does, and
-- resolves the lane as a sim where the submitter's ticket is a sim whose caps are in force there or that
-- requires enforcement. So a runner that resolves the lane as the submitter does always accepts it.
pub class_transport-accepted :
    (c : Classes) (t : Ticket) (resolved_class : Class) (resolved_required : Bool)
    → ((class_transport_mismatch (class_transport c t) resolved_class resolved_required ≡ none) ↔ (
        (t.enforcement_required ≡ true → resolved_required ≡ true)
        × (is_sim t.class ≡ true
            → (enforcement_available c ≡ true) ⊎ (t.enforcement_required ≡ true)
            → is_sim resolved_class ≡ true)))
      × (class_transport_mismatch (class_transport c t) t.class t.enforcement_required ≡ none)
unfolding class_transport_mismatch class_transport
class_transport-accepted c t resolved_class resolved_required = ground (
  arith,
  Bool-cases t.enforcement_required,
  Bool-cases resolved_required,
  Bool-cases (is_sim t.class),
  Bool-cases (is_sim resolved_class),
  Bool-cases (enforcement_available c),
)
