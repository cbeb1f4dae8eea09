-- ===== src/Fairness/Stores.antt =====
-- What the scheduler reads and writes in a fairness store (src/fairness.js), and its two stores.
use lane_broker.Prelude.{
  ℕ, ◌≡◌, refl, true, Option, some, [], ◌∷◌, arith, ◌==◌, if◌then◌else◌, Option-cases,
}
use lane_broker.Fairness.{
  ConflictRaw, CapacityRaw, ResourceRaw, TicketRecords, conflict_record, conflict_raw, capacity_raw,
  resource_raw, LegacyFiles, Tickets, records_of, put, records_or_none, map_option,
}

-- Reads and writes of the three kinds of record, and that a write for a ticket is read back.
pub record SkipStore (S : Type 0) : Type 0 where
  pub read_conflict : S → ℕ → Option ConflictRaw
  pub write_conflict : S → ℕ → ConflictRaw → S
  pub conflict_law :
      (s : S) (id : ℕ) (raw : ConflictRaw)
      → raw.head_id ≡ id
      → read_conflict (write_conflict s id raw) id ≡ some raw
  pub read_capacity : S → ℕ → Option CapacityRaw
  pub write_capacity : S → ℕ → CapacityRaw → S
  pub capacity_law :
      (s : S) (id : ℕ) (raw : CapacityRaw)
      → raw.head_id ≡ id
      → read_capacity (write_capacity s id raw) id ≡ some raw
  pub read_resource : S → ℕ → Option ResourceRaw
  pub write_resource : S → ℕ → ResourceRaw → S
  pub resource_law :
      (s : S) (id : ℕ) (raw : ResourceRaw)
      → raw.head_id ≡ id
      → read_resource (write_resource s id raw) id ≡ some raw

-- `legacyStore`: whatever head the file is about, it is what is read.
abbrev pub legacy_store : SkipStore LegacyFiles
legacy_store = record {
  read_conflict = λ s id. s.conflict;
  write_conflict = λ s id raw. record s { conflict = some raw };
  conflict_law = λ s id raw e. refl;
  read_capacity = λ s id. s.capacity;
  write_capacity = λ s id raw. record s { capacity = some raw };
  capacity_law = λ s id raw e. refl;
  read_resource = λ s id. s.resource;
  write_resource = λ s id raw. record s { resource = some raw };
  resource_law = λ s id raw e. refl;
}

-- A write shows at its own ticket and at no other.
pub records_of-put :
    (ts : Tickets) (id j : ℕ) (r : TicketRecords)
    → records_of (put ts id r) j ≡ (if id == j then some r else records_of ts j)
unfolding records_of put
records_of-put [] id j r = ground arith
records_of-put ((i, s) ∷ ts) id j r = ground (arith, records_of-put ts id j r)

unfoldable pub read_conflict_v2 : Tickets → ℕ → Option ConflictRaw
read_conflict_v2 ts id = map_option (conflict_raw id) (records_or_none ts id).conflict

unfoldable pub write_conflict_v2 : Tickets → ℕ → ConflictRaw → Tickets
write_conflict_v2 ts id raw =
    put ts id (record (records_or_none ts id) { conflict = some (conflict_record raw) })

unfoldable pub read_capacity_v2 : Tickets → ℕ → Option CapacityRaw
read_capacity_v2 ts id = map_option (capacity_raw id) (records_or_none ts id).capacity

unfoldable pub write_capacity_v2 : Tickets → ℕ → CapacityRaw → Tickets
write_capacity_v2 ts id raw = put ts id (record (records_or_none ts id) {
  capacity = some (record { skips_charged = raw.count; logged_phase = raw.logged_phase });
})

unfoldable pub read_resource_v2 : Tickets → ℕ → Option ResourceRaw
read_resource_v2 ts id = map_option (resource_raw id) (records_or_none ts id).resource

unfoldable pub write_resource_v2 : Tickets → ℕ → ResourceRaw → Tickets
write_resource_v2 ts id raw = put ts id (record (records_or_none ts id) {
  resource = some (record { skips_charged = raw.count; denial = raw.denial });
})

module _ (ts : Tickets) (id j : ℕ) where
  -- A conflict record that is written for a ticket is read back in full for that ticket, and what is
  -- read for any other ticket stays the same.
  pub conflict_v2_lem :
      (raw : ConflictRaw)
      → raw.head_id ≡ id
      → read_conflict_v2 (write_conflict_v2 ts id raw) j
        ≡ (if id == j then some raw else read_conflict_v2 ts j)
  unfolding read_conflict_v2 write_conflict_v2
  conflict_v2_lem raw e = ground (
    arith,
    records_of-put ts id j
        (record (records_or_none ts id) { conflict = some (conflict_record raw) }),
    Option-cases raw.blocked_since,
  )

  pub capacity_v2_lem :
      (raw : CapacityRaw)
      → raw.head_id ≡ id
      → read_capacity_v2 (write_capacity_v2 ts id raw) j
        ≡ (if id == j then some raw else read_capacity_v2 ts j)
  unfolding read_capacity_v2 write_capacity_v2
  capacity_v2_lem raw e = ground (
    arith,
    records_of-put ts id j (record (records_or_none ts id) {
      capacity = some (record { skips_charged = raw.count; logged_phase = raw.logged_phase });
    }),
  )

  pub resource_v2_lem :
      (raw : ResourceRaw)
      → raw.head_id ≡ id
      → read_resource_v2 (write_resource_v2 ts id raw) j
        ≡ (if id == j then some raw else read_resource_v2 ts j)
  unfolding read_resource_v2 write_resource_v2
  resource_v2_lem raw e = ground (
    arith,
    records_of-put ts id j (record (records_or_none ts id) {
      resource = some (record { skips_charged = raw.count; denial = raw.denial });
    }),
  )

module _ (ts : Tickets) (id : ℕ) where
  same_id : (id == id) ≡ true
  same_id = ground arith

  pub read_conflict_v2-write :
      (raw : ConflictRaw)
      → raw.head_id ≡ id
      → read_conflict_v2 (write_conflict_v2 ts id raw) id ≡ some raw
  read_conflict_v2-write raw e = ground (arith, conflict_v2_lem ts id id raw e, same_id)

  pub read_capacity_v2-write :
      (raw : CapacityRaw)
      → raw.head_id ≡ id
      → read_capacity_v2 (write_capacity_v2 ts id raw) id ≡ some raw
  read_capacity_v2-write raw e = ground (arith, capacity_v2_lem ts id id raw e, same_id)

  pub read_resource_v2-write :
      (raw : ResourceRaw)
      → raw.head_id ≡ id
      → read_resource_v2 (write_resource_v2 ts id raw) id ≡ some raw
  read_resource_v2-write raw e = ground (arith, resource_v2_lem ts id id raw e, same_id)

-- `v2Store`: each ticket has its own records.
unfoldable pub fairness_store : SkipStore Tickets
fairness_store = record {
  read_conflict = read_conflict_v2;
  write_conflict = write_conflict_v2;
  conflict_law = read_conflict_v2-write;
  read_capacity = read_capacity_v2;
  write_capacity = write_capacity_v2;
  capacity_law = read_capacity_v2-write;
  read_resource = read_resource_v2;
  write_resource = write_resource_v2;
  resource_law = read_resource_v2-write;
}
