-- ===== src/Fairness.antt =====
-- Where the scheduler keeps what it knows of a blocked head (src/fairness.js): the legacy store of
-- one file for each kind, and the per-ticket store `fairness-v2.json`. A file that cannot be read
-- or has a field of the wrong type reads as `none`. Each write is best-effort: the flag `written`
-- says whether it went through, and a failed one changes nothing.
pub mod Stores
pub mod Upkeep
mod Tests
use lane_broker.Prelude.{
  ℕ, zero, suc, ◌+◌, ◌-◌, ◌*◌, ◌/◌, ◌%◌, ◌≤◌, ◌<◌, min, max, ◌≡◌, ◌≢◌, ◌↔◌, ◌⊎◌, inl, inr, refl,
  sym, ap, subst, ◌∙◌, Bool, true, false, not, ◌&&◌, ◌||◌, Option, none, some, List, [], ◌∷◌, ◌++◌,
  map, append-nil, append_assoc, arith, ltb, leb, ltb→lt, lt→ltb, leb→le, le→leb, ◌==◌, ==_iff,
  if◌then◌else◌, Bool-cases, Option-cases, or_else, is_some, length, filter_by, find_by, any_by,
  every_by, last?, replicate, length-append, All, All-append, sum_by, some_injective,
}
use lane_broker.Records.{Ticket}

pub data Phase : Type 0 where
  blocked exhausted resumed : Phase

-- The legacy raw shapes: the head that they are about, and its count of skips.
pub record ConflictRaw : Type 0 where
  pub head_id : ℕ
  pub count : ℕ
  pub blocked_since : Option ℕ
  pub logged_phase : Option Phase

pub record CapacityRaw : Type 0 where
  pub head_id : ℕ
  pub count : ℕ
  pub logged_phase : Option Phase

pub data FutileCause : Type 0 where
  memory cpu elastic_below_floor : FutileCause

pub record Futility : Type 0 where
  pub cause : FutileCause
  pub head_cpu : ℕ
  pub sampled_at : ℕ

-- What a resource denial records besides its head and its count.
pub record Denial : Type 0 where
  pub reserved : Bool
  pub reservation_seq : Option ℕ
  pub yields : Option ℕ
  pub in_scope : Bool
  pub behind_conflict : Bool
  pub denied_at : ℕ
  pub budget : ℕ
  pub external_busy : ℕ
  pub mem_info : Option (ℕ × ℕ)
  pub futile : Option Futility

pub record ResourceRaw : Type 0 where
  pub head_id : ℕ
  pub count : ℕ
  pub denial : Denial

-- The per-ticket records.
pub record ConflictRecord : Type 0 where
  pub skips_charged : ℕ
  pub blocked_since : Option ℕ
  pub grace_started_at : Option ℕ
  pub logged_phase : Option Phase

pub record CapacityRecord : Type 0 where
  pub skips_charged : ℕ
  pub logged_phase : Option Phase

pub record ResourceRecord : Type 0 where
  pub skips_charged : ℕ
  pub denial : Denial

pub record TicketRecords : Type 0 where
  pub conflict : Option ConflictRecord
  pub capacity : Option CapacityRecord
  pub resource : Option ResourceRecord

abbrev pub no_records : TicketRecords
no_records = record { conflict = none; capacity = none; resource = none }

-- `toRecord` and `toRaw`, for each kind.
abbrev pub conflict_record : ConflictRaw → ConflictRecord
conflict_record raw = record {
  skips_charged = raw.count;
  blocked_since = raw.blocked_since;
  grace_started_at = raw.blocked_since;
  logged_phase = raw.logged_phase;
}

abbrev pub conflict_raw : ℕ → ConflictRecord → ConflictRaw
conflict_raw id r = record {
  head_id = id;
  count = r.skips_charged;
  blocked_since = if is_some r.grace_started_at then r.grace_started_at else r.blocked_since;
  logged_phase = r.logged_phase;
}

abbrev pub capacity_raw : ℕ → CapacityRecord → CapacityRaw
capacity_raw id r = record { head_id = id; count = r.skips_charged; logged_phase = r.logged_phase }

abbrev pub resource_raw : ℕ → ResourceRecord → ResourceRaw
resource_raw id r = record { head_id = id; count = r.skips_charged; denial = r.denial }

-- The singleton files of the legacy scheduler.
pub record LegacyFiles : Type 0 where
  pub conflict : Option ConflictRaw
  pub capacity : Option CapacityRaw
  pub resource : Option ResourceRaw

-- The `tickets` object of the per-ticket store.
abbrev pub Tickets : Type 0
Tickets = List (ℕ × TicketRecords)

unfoldable pub records_of : Tickets → ℕ → Option TicketRecords
records_of [] id = none
records_of ((j, r) ∷ ts) id = if j == id then some r else records_of ts id

-- `{ ...tickets, [id]: r }`
unfoldable pub put : Tickets → ℕ → TicketRecords → Tickets
put [] id r = (id, r) ∷ []
put ((j, s) ∷ ts) id r = if j == id then (id, r) ∷ ts else (j, s) ∷ put ts id r

abbrev pub records_or_none : Tickets → ℕ → TicketRecords
records_or_none ts id = or_else (records_of ts id) no_records

abbrev pub map_option {ℓ κ} : {A : Type ℓ} {B : Type κ} → (A → B) → Option A → Option B
map_option f none = none
map_option f (some a) = some (f a)

-- `dropResourceRecord` of the per-ticket store: the allowance and the counters stay.
abbrev pub invalidated : ResourceRecord → ResourceRecord
invalidated r = record r { denial = record r.denial { behind_conflict = false; in_scope = false } }

unfoldable pub drop_resource_record : Tickets → ℕ → (written : Bool) → Tickets
drop_resource_record ts id written =
    let r = records_or_none ts id in
    if written && is_some r.resource
    then put ts id (record r { resource = map_option invalidated r.resource })
    else ts

-- `depart`: the ticket started, and its records go.
unfoldable pub depart : Tickets → ℕ → (written : Bool) → Tickets
depart ts id written =
    if written then filter_by (λ (e : ℕ × TicketRecords). not (e.0 == id)) ts else ts

abbrev pub is_readable : Option Ticket → Bool
is_readable none = false
is_readable (some t) = true

abbrev pub queued_as : ℕ → Option Ticket → Bool
queued_as id none = false
queued_as id (some t) = t.id == id

-- `prune`: only tickets that are neither queued nor provisionally withdrawn lose their records, and
-- none does while the queue holds an unreadable record.
unfoldable pub prune :
    Tickets → List (Option Ticket) → (provisional : List ℕ) → (written : Bool) → Tickets
prune ts queue provisional written =
    if every_by is_readable queue && written
    then filter_by
        (λ (e : ℕ × TicketRecords).
          any_by (queued_as e.0) queue || any_by (λ i. i == e.0) provisional)
        ts
    else ts

abbrev pub is_reserved : Option ResourceRecord → Bool
is_reserved none = false
is_reserved (some r) = r.denial.reserved

abbrev pub released : TicketRecords → TicketRecords
released r = if is_reserved r.resource then record r { resource = none } else r

-- `releaseReservations`: each latched ticket's whole resource record is dropped.
unfoldable pub release_reservations : Tickets → (written : Bool) → Tickets
release_reservations ts written =
    if written then map (λ (e : ℕ × TicketRecords). (e.0, released e.1)) ts else ts

abbrev pub seq_of : Option ResourceRecord → Option ℕ
seq_of none = none
seq_of (some r) = if r.denial.reserved then r.denial.reservation_seq else none

-- `reservations`: the id and the sequence number of every latched ticket that has one.
unfoldable pub reservations : Tickets → List (ℕ × ℕ)
reservations [] = []
reservations ((id, r) ∷ ts) =
    let rest = reservations ts in
    elim (seq_of r.resource) [ none ↦ rest | some seq ↦ (id, seq) ∷ rest ]
