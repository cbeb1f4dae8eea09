-- ===== src/Fairness/Tests.antt =====
-- The theorems of Fairness at a small store.
use lane_broker.Prelude.{true, false, none, some, [], ◌∷◌}
use lane_broker.Fairness.{blocked, ConflictRaw, Denial, Tickets, no_records}

abbrev latched : Denial
latched = record {
  reserved = true;
  reservation_seq = some 4;
  yields = none;
  in_scope = true;
  behind_conflict = false;
  denied_at = 10;
  budget = 8;
  external_busy = 2;
  mem_info = none;
  futile = none;
}

abbrev two_tickets : Tickets
two_tickets =
    (5, record no_records { resource = some (record { skips_charged = 3; denial = latched }) })
    ∷ (6, no_records)
    ∷ []

abbrev skipped_once : ConflictRaw
skipped_once = record {
  head_id = 5;
  count = 1;
  blocked_since = some 100;
  logged_phase = some blocked;
}
