-- ===== src/Records.antt =====
-- The records that the broker keeps as JSON files: leases (src/lease.js) and queued tickets
-- (src/scheduler.js). A field that the code reads as optional is an `Option`. Ticket ids, keys,
-- repo ids and boot ids are strings that the code compares for equality only, and process start
-- times too: each is a number here. Instants are milliseconds, CPU cores are in a fixed unit.
use lane_broker.Prelude.{ℕ, Bool, true, false, Option, none, List}

pub data LeaseState : Type 0 where
  running orphaned done : LeaseState

pub data Class : Type 0 where
  test sim : Class

abbrev pub is_sim : Class → Bool
is_sim test = false
is_sim sim = true

pub data Tier : Type 0 where
  low medium high : Tier

-- `resources` of a ticket or lease.
pub record Resources : Type 0 where
  pub cpu_cores : Option ℕ
  pub min_cpu_cores : Option ℕ
  pub memory_bytes : Option ℕ

-- `lease.orphanReap`, the state of the reap of a lease whose supervisor and group are gone.
pub record OrphanReap : Type 0 where
  pub scope_stop_attempted : Bool
  pub term_at : ℕ
  pub kill_at : Option ℕ
  pub signalled : ℕ
  pub termed : List ℕ
  pub killed : List ℕ

pub record Lease : Type 0 where
  pub id : ℕ
  pub key : ℕ
  pub boot_id : ℕ
  pub state : LeaseState
  pub supervisor_pid : ℕ
  pub supervisor_start : Option ℕ
  pub child_pgid : ℕ
  pub class : Class
  pub exclusive : Bool
  pub weight : ℕ
  pub resources : Resources
  pub granted_cpu_cores : Option ℕ
  pub cpu_scope_unit : Bool
  pub orphan_reap : Option OrphanReap

pub record Ticket : Type 0 where
  pub id : ℕ
  pub key : ℕ
  pub repo_id : ℕ
  pub seq : ℕ
  pub sched_v2 : Bool
  pub class : Class
  pub exclusive : Bool
  pub aging : Bool
  pub enforcement_required : Bool
  pub weight : ℕ
  pub conflicts : List ℕ
  pub max_concurrent : Option ℕ
  pub resources : Resources
  pub prio_origin_at : Option ℕ
  pub priority_requested : Option Tier
  pub priority_admitted : Option Tier
  pub priority_demoted : Bool
  pub boot_id : Option ℕ
  pub supervisor_pid : Option ℕ
  pub supervisor_start : Option ℕ

abbrev pub no_resources : Resources
no_resources = record { cpu_cores = none; min_cpu_cores = none; memory_bytes = none }
