-- ===== src/Samples.antt =====
-- Leases and tickets that the tests of several modules use.
use lane_broker.Prelude.{ℕ, ◌+◌, true, false, none, some, []}
use lane_broker.Records.{running, test, Lease, Ticket, no_resources}

-- A lease and a ticket of this id, key and weight.
abbrev pub sample_lease : (id key weight : ℕ) → Lease
sample_lease id key weight = record {
  id = id;
  key = key;
  boot_id = 1;
  state = running;
  supervisor_pid = 400 + id;
  supervisor_start = some 55;
  child_pgid = 500 + id;
  class = test;
  exclusive = false;
  weight = weight;
  resources = no_resources;
  granted_cpu_cores = none;
  cpu_scope_unit = false;
  orphan_reap = none;
}

abbrev pub sample_ticket : (id key weight : ℕ) → Ticket
sample_ticket id key weight = record {
  id = id;
  key = key;
  repo_id = 1;
  seq = id;
  sched_v2 = true;
  class = test;
  exclusive = false;
  aging = true;
  enforcement_required = false;
  weight = weight;
  conflicts = [];
  max_concurrent = none;
  resources = no_resources;
  prio_origin_at = some 1000;
  priority_requested = none;
  priority_admitted = none;
  priority_demoted = false;
  boot_id = some 1;
  supervisor_pid = some (400 + id);
  supervisor_start = some 55;
}
