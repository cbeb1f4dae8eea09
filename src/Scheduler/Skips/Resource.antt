-- ===== src/Scheduler/Skips/Resource.antt =====
-- The allowance of a head that CPU or memory admission denies (src/scheduler.js): resourceRecordFor,
-- futileFresh, resourceBackfillOpen, resourceReserved, recordResourceDenial, markResourceOutOfScope,
-- recordResourceBackfill and recordPriorityYield, over any store. Each write may fail.
use lane_broker.Prelude.{
  ℕ, ◌+◌, ◌*◌, ◌<◌, ◌≡◌, refl, Bool, true, false, not, ◌&&◌, ◌||◌, Option, none, some, arith, ltb,
  leb, ◌==◌, if◌then◌else◌, or_else, is_some,
}
use lane_broker.Fairness.{Denial, Futility, ResourceRaw}
use lane_broker.Fairness.Stores.{SkipStore}

pub record ResourceLimits : Type 0 where
  pub is_active : Bool
  pub resource_skip_limit : ℕ
  pub sample_ms : ℕ

abbrev pub same_resource_head : Option ResourceRaw → ℕ → Option ResourceRaw
same_resource_head none id = none
same_resource_head (some raw) id = if raw.head_id == id then some raw else none

abbrev pub same_bool : Bool → Bool → Bool
same_bool true b = b
same_bool false b = not b

-- `futileFresh`: a verdict is as good as its CPU sample.
abbrev pub fresh_futility : ResourceLimits → (now : ℕ) → Option Futility → Bool
fresh_futility cfg now none = false
fresh_futility cfg now (some u) = leb now (u.sampled_at + 2 * cfg.sample_ms)

unfoldable pub futile_fresh : ResourceLimits → (now : ℕ) → ResourceRaw → Bool
futile_fresh cfg now r = r.denial.in_scope && fresh_futility cfg now r.denial.futile

unfoldable pub resource_backfill_open : ResourceLimits → (now : ℕ) → ResourceRaw → Bool
resource_backfill_open cfg now r =
    r.denial.in_scope
    && (futile_fresh cfg now r || (not r.denial.reserved && ltb r.count cfg.resource_skip_limit))

unfoldable pub resource_reserved : ResourceLimits → (now : ℕ) → ResourceRaw → Bool
resource_reserved cfg now r = r.denial.reserved && not (futile_fresh cfg now r)

-- What a backfill writes: one more skip, and the latch once the allowance is used up. `seq` is drawn
-- from the queue counter when the latch is earned, behind the fence only.
abbrev pub backfill_raw : ResourceLimits → (seq : Option ℕ) → ResourceRaw → ResourceRaw
backfill_raw cfg seq r =
    let latched = leb cfg.resource_skip_limit (r.count + 1) in
    record r {
      count = r.count + 1;
      denial = record r.denial {
        reserved = latched;
        reservation_seq =
            if is_some seq && latched && not r.denial.reserved
            then seq
            else r.denial.reservation_seq;
      };
    }

-- The denial fields that one denial carries forward for the same head, unless it is futile.
abbrev pub denied_raw : (id : ℕ) → Option ResourceRaw → Denial → ResourceRaw
denied_raw id none fresh = record {
  head_id = id;
  count = 0;
  denial = record fresh {
    reserved = false;
    reservation_seq = none;
    yields = none;
    in_scope = true;
  };
}
denied_raw id (some prev) fresh =
    if is_some fresh.futile
    then record {
      head_id = id;
      count = 0;
      denial = record fresh {
        reserved = false;
        reservation_seq = none;
        yields = none;
        in_scope = true;
      };
    }
    else record {
      head_id = id;
      count = prev.count;
      denial = record fresh {
        reserved = prev.denial.reserved;
        reservation_seq = prev.denial.reservation_seq;
        yields = prev.denial.yields;
        in_scope = true;
      };
    }

module _ {S : Type 0} (store : SkipStore S) (cfg : ResourceLimits) where
  abbrev pub read_resource_skip_state : S → ℕ → Option ResourceRaw
  read_resource_skip_state s id = same_resource_head (store.read_resource s id) id

  abbrev pub usable : (behind_conflict : Bool) → Option ResourceRaw → Option ResourceRaw
  usable behind_conflict none = none
  usable behind_conflict (some r) =
      if cfg.is_active
        && ltb 0 cfg.resource_skip_limit
        && same_bool r.denial.behind_conflict behind_conflict
      then some r
      else none

  -- `resourceRecordFor`
  unfoldable pub resource_record_for : S → (id : ℕ) → (behind_conflict : Bool) → Option ResourceRaw
  resource_record_for s id behind_conflict = usable behind_conflict (read_resource_skip_state s id)

  -- `recordResourceDenial`, best-effort.
  unfoldable pub record_resource_denial : S → (id : ℕ) → Denial → (written : Bool) → S
  record_resource_denial s id fresh written =
      if ltb 0 cfg.resource_skip_limit && written
      then store.write_resource s id (denied_raw id (read_resource_skip_state s id) fresh)
      else s

  -- `markResourceOutOfScope`: never creates a record.
  unfoldable pub mark_resource_out_of_scope : S → (id now : ℕ) → (written : Bool) → S
  mark_resource_out_of_scope s id now written = elim (read_resource_skip_state s id) [
    | none ↦ s
    | some r ↦
        if r.denial.in_scope && written
        then store.write_resource s id
            (record r { denial = record r.denial { in_scope = false; denied_at = now } })
        else s
  ]

  -- `recordResourceBackfill`: false where the write failed, and the caller then refuses.
  unfoldable pub record_resource_backfill :
      S → ResourceRaw → (seq : Option ℕ) → (written : Bool) → S × Bool
  record_resource_backfill s r seq written =
      if written
      then (store.write_resource s r.head_id (backfill_raw cfg seq r), true)
      else (s, false)

  -- `recordPriorityYield`
  unfoldable pub record_priority_yield : S → ResourceRaw → (written : Bool) → S × Bool
  record_priority_yield s r written =
      if written
      then (
        store.write_resource s r.head_id (record r {
          denial = record r.denial { yields = some (or_else r.denial.yields 0 + 1) };
        }),
        true,
      )
      else (s, false)

  -- A counted backfill past a head whose denial is not futile uses one of the allowance, is read back
  -- from the store, and leaves backfill open exactly while allowance is left and the head reserved
  -- exactly once it is used up.
  pub record_resource_backfill-closes :
      (s : S) (r : ResourceRaw) (seq : Option ℕ) (now : ℕ)
      → resource_backfill_open cfg now r ≡ true
      → futile_fresh cfg now r ≡ false
      → (r.count < cfg.resource_skip_limit)
        × (store.read_resource (record_resource_backfill s r seq true).0 r.head_id
            ≡ some (backfill_raw cfg seq r))
        × (resource_backfill_open cfg now (backfill_raw cfg seq r)
            ≡ ltb (r.count + 1) cfg.resource_skip_limit)
        × (resource_reserved cfg now (backfill_raw cfg seq r)
            ≡ leb cfg.resource_skip_limit (r.count + 1))
  unfolding record_resource_backfill resource_backfill_open resource_reserved futile_fresh
  record_resource_backfill-closes s r seq now o n = (
    ground arith,
    store.resource_law s r.head_id (backfill_raw cfg seq r) refl,
    ground arith,
    ground arith,
  )
