-- ===== src/Scheduler/Skips.antt =====
-- The skip allowance of a blocked head (src/scheduler.js: readSkipState, recordSkip,
-- resolveHeadBlock, readCapacitySkipState, recordCapacitySkip, resolveCapacityBlock, and the parts
-- of tryStart that call them). Logs are left out. Each write may fail: a flag says whether it went
-- through.
pub mod Bounds
pub mod Capacity
pub mod Interleaved
pub mod Resource
use lane_broker.Prelude.{
  ℕ, zero, suc, ◌+◌, ◌-◌, ◌*◌, ◌/◌, ◌%◌, ◌≤◌, ◌<◌, min, max, ◌≡◌, ◌≢◌, ◌↔◌, ◌⊎◌, inl, inr, refl,
  sym, ap, subst, ◌∙◌, Bool, true, false, not, ◌&&◌, ◌||◌, Option, none, some, List, [], ◌∷◌, ◌++◌,
  map, append-nil, append_assoc, arith, ltb, leb, ltb→lt, lt→ltb, leb→le, le→leb, ◌==◌, ==_iff,
  if◌then◌else◌, Bool-cases, Option-cases, or_else, is_some, length, filter_by, find_by, any_by,
  every_by, last?, replicate, length-append, All, All-append, sum_by, some_injective, if-split,
}
use lane_broker.Fairness.{Phase, blocked, exhausted, resumed, ConflictRaw, CapacityRaw}
use lane_broker.Fairness.Stores.{SkipStore}

pub record SkipLimits : Type 0 where
  pub conflict_skip_limit : ℕ
  pub head_block_grace_ms : ℕ

abbrev pub same_phase : Phase → Option Phase → Bool
same_phase p none = false
same_phase blocked (some blocked) = true
same_phase exhausted (some exhausted) = true
same_phase resumed (some resumed) = true
same_phase p (some q) = false

-- The record that is read, if it is about this head.
abbrev pub same_head : Option ConflictRaw → ℕ → Option ConflictRaw
same_head none id = none
same_head (some raw) id = if raw.head_id == id then some raw else none

abbrev pub same_capacity_head : Option CapacityRaw → ℕ → Option CapacityRaw
same_capacity_head none id = none
same_capacity_head (some raw) id = if raw.head_id == id then some raw else none

abbrev pub count_of : Option ConflictRaw → ℕ
count_of none = 0
count_of (some raw) = raw.count

abbrev pub since_of : Option ConflictRaw → Option ℕ
since_of none = none
since_of (some raw) = raw.blocked_since

abbrev pub logged_of : Option ConflictRaw → Option Phase
logged_of none = none
logged_of (some raw) = raw.logged_phase

abbrev pub capacity_count_of : Option CapacityRaw → ℕ
capacity_count_of none = 0
capacity_count_of (some raw) = raw.count

abbrev pub capacity_logged_of : Option CapacityRaw → Option Phase
capacity_logged_of none = none
capacity_logged_of (some raw) = raw.logged_phase

-- The phase of a head that has been blocked since `since`.
unfoldable pub head_phase : SkipLimits → (since now count : ℕ) → Phase
head_phase cfg since now count =
    if ltb count cfg.conflict_skip_limit
    then blocked
    else if ltb now (since + cfg.head_block_grace_ms)
    then exhausted
    else resumed

abbrev pub is_exhausted : Phase → Bool
is_exhausted exhausted = true
is_exhausted p = false

-- What one poll of a blocked head sees: the time, whether a candidate behind the head passed every
-- other check, and whether the writes go through.
pub record Poll : Type 0 where
  pub head : ℕ
  pub now : ℕ
  pub would_start : Bool
  pub block_written : Bool
  pub skip_written : Bool

-- What `recordSkip` writes after `prev`, and what `resolveHeadBlock` finds and writes.
abbrev pub skip_raw : (id now : ℕ) → Option ConflictRaw → ConflictRaw
skip_raw id now prev = record {
  head_id = id;
  count = count_of prev + 1;
  blocked_since = some (or_else (since_of prev) now);
  logged_phase = logged_of prev;
}

abbrev pub phase_now : SkipLimits → (now : ℕ) → Option ConflictRaw → Phase
phase_now cfg now prev = head_phase cfg (or_else (since_of prev) now) now (count_of prev)

abbrev pub block_changed : SkipLimits → (now : ℕ) → Option ConflictRaw → Bool
block_changed cfg now prev =
    not (is_some (since_of prev)) || not (same_phase (phase_now cfg now prev) (logged_of prev))

abbrev pub block_raw : SkipLimits → (id now : ℕ) → Option ConflictRaw → ConflictRaw
block_raw cfg id now prev = record {
  head_id = id;
  count = count_of prev;
  blocked_since = some (or_else (since_of prev) now);
  logged_phase = some (phase_now cfg now prev);
}

abbrev pub capacity_skip_raw : (id : ℕ) → Option CapacityRaw → CapacityRaw
capacity_skip_raw id prev = record {
  head_id = id;
  count = capacity_count_of prev + 1;
  logged_phase = capacity_logged_of prev;
}

abbrev pub capacity_phase : SkipLimits → Option CapacityRaw → Phase
capacity_phase cfg prev =
    if ltb (capacity_count_of prev) cfg.conflict_skip_limit then blocked else exhausted

abbrev pub capacity_block_raw : SkipLimits → (id : ℕ) → Option CapacityRaw → CapacityRaw
capacity_block_raw cfg id prev = record {
  head_id = id;
  count = capacity_count_of prev;
  logged_phase = some (capacity_phase cfg prev);
}

module _ {S : Type 0} (store : SkipStore S) where
  abbrev pub read_skip_state : S → ℕ → Option ConflictRaw
  read_skip_state s id = same_head (store.read_conflict s id) id

  unfoldable pub record_skip : S → (id now : ℕ) → (written : Bool) → S × Bool
  record_skip s id now written =
      if written
      then (store.write_conflict s id (skip_raw id now (read_skip_state s id)), true)
      else (s, false)

  abbrev pub read_capacity_skip_state : S → ℕ → Option CapacityRaw
  read_capacity_skip_state s id = same_capacity_head (store.read_capacity s id) id

  unfoldable pub record_capacity_skip : S → ℕ → (written : Bool) → S × Bool
  record_capacity_skip s id written =
      if written
      then (store.write_capacity s id (capacity_skip_raw id (read_capacity_skip_state s id)), true)
      else (s, false)

module _ {S : Type 0} (store : SkipStore S) (cfg : SkipLimits) where
  unfoldable pub resolve_head_block : S → (id now : ℕ) → (written : Bool) → S × Phase
  resolve_head_block s id now written =
      let prev = read_skip_state store s id in
      (
        if written && block_changed cfg now prev
            then store.write_conflict s id (block_raw cfg id now prev)
            else s,
        phase_now cfg now prev,
      )

  unfoldable pub resolve_capacity_block : S → ℕ → (written : Bool) → S × Phase
  resolve_capacity_block s id written =
      let prev = read_capacity_skip_state store s id in
      (
        if written && not (same_phase (capacity_phase cfg prev) (capacity_logged_of prev))
            then store.write_capacity s id (capacity_block_raw cfg id prev)
            else s,
        capacity_phase cfg prev,
      )

  -- One evaluation behind a conflicted head: the store it leaves and whether a ticket skipped it.
  unfoldable pub conflict_poll : S → Poll → S × Bool
  conflict_poll s p =
      let r = resolve_head_block s p.head p.now p.block_written in
      if not (is_exhausted r.1) && p.would_start
      then record_skip store r.0 p.head p.now p.skip_written
      else (r.0, false)

  -- Every skip of `id` in a run of polls.
  unfoldable pub conflict_skips : ℕ → S → List Poll → ℕ
  conflict_skips id s [] = 0
  conflict_skips id s (p ∷ ps) =
      let r = conflict_poll s p in (if r.1 && p.head == id then 1 else 0) + conflict_skips id r.0 ps

  unfoldable pub capacity_poll : S → Poll → S × Bool
  capacity_poll s p =
      let r = resolve_capacity_block s p.head p.block_written in
      if not (is_exhausted r.1) && p.would_start
      then record_capacity_skip store r.0 p.head p.skip_written
      else (r.0, false)

  unfoldable pub capacity_skips : ℕ → S → List Poll → ℕ
  capacity_skips id s [] = 0
  capacity_skips id s (p ∷ ps) =
      let r = capacity_poll s p in (if r.1 && p.head == id then 1 else 0) + capacity_skips id r.0 ps
