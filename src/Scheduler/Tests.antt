-- ===== src/Scheduler/Tests.antt =====
-- The theorems of Scheduler at small queues.
use lane_broker.Prelude.{
  ℕ, ◌≤◌, ◌<◌, ◌≡◌, refl, Bool, true, false, Option, none, some, List, [], ◌∷◌, arith,
}
use lane_broker.Records.{Lease, Ticket}
use lane_broker.Samples.{sample_lease, sample_ticket}
use lane_broker.Fairness.{LegacyFiles, ResourceRaw, records_of}
use lane_broker.Fairness.Stores.{read_conflict_v2, fairness_store}
use lane_broker.Scheduler.Blocking.{
  blocked_loop, blocked_by, select_candidate, select_capacity_candidate,
}
use lane_broker.Scheduler.Exclusive.{
  exclusive_deny, is_exclusive_head, without_backfill_exclusives, write_lease, Turn, IsAlone,
  starts, idle, turn, Reachable-IsAlone,
}
use lane_broker.Scheduler.Skips.{SkipLimits, Poll, conflict_skips}
use lane_broker.Scheduler.Skips.Resource.{ResourceLimits, resource_backfill_open, futile_fresh}
use lane_broker.Scheduler.Skips.Bounds.{BlockedFrom}
use lane_broker.Scheduler.Skips.Interleaved.{InGraceFor, conflict_skips-interleaved}

abbrev held_leases : List Lease
held_leases = sample_lease 1 3 4 ∷ sample_lease 2 5 2 ∷ []

-- It would wait for key 5, which it declares a conflict with, and for its own key.
abbrev rival : Ticket
rival = record (sample_ticket 11 9 2) { conflicts = 5 ∷ [] }

abbrev waiting : List (Option Ticket)
waiting =
    some rival
    ∷ some (sample_ticket 12 3 1)
    ∷ some (sample_ticket 13 7 6)
    ∷ some (sample_ticket 14 8 1)
    ∷ none
    ∷ []

abbrev lease_key : Lease → ℕ
lease_key l = l.key

selected : select_candidate lease_key waiting held_leases ≡ some (sample_ticket 13 7 6)
unfolding select_candidate blocked_by blocked_loop
selected = refl

capacity_selected :
    select_capacity_candidate lease_key waiting held_leases 6 10 ≡ some (sample_ticket 14 8 1)
unfolding select_capacity_candidate blocked_by blocked_loop
capacity_selected = refl

-- An exclusive ticket at the head, with another exclusive behind it.
abbrev alone : Ticket
alone = record (sample_ticket 21 4 3) { exclusive = true }

abbrev exclusives : List (Option Ticket)
exclusives = some alone ∷ some (record (sample_ticket 22 6 1) { exclusive = true }) ∷ []

abbrev alone_lease : Lease
alone_lease = record (sample_lease 21 4 3) { exclusive = true }

alone-Turn : Turn [] (write_lease alone_lease [])
unfolding exclusive_deny is_exclusive_head
alone-Turn = starts exclusives alone alone_lease refl refl

Reachable-IsAlone_example : IsAlone (write_lease alone_lease [])
Reachable-IsAlone_example = Reachable-IsAlone (turn idle alone-Turn)

alone_selected : select_candidate lease_key (without_backfill_exclusives exclusives) [] ≡ some alone
unfolding select_candidate without_backfill_exclusives blocked_by blocked_loop
alone_selected = refl

abbrev limits : SkipLimits
limits = record { conflict_skip_limit = 2; head_block_grace_ms = 1000 }

-- A poll at this time that would start, whose first write may fail.
abbrev poll_at : (head now : ℕ) → Bool → Poll
poll_at head now b = record {
  head = head;
  now = now;
  would_start = true;
  block_written = b;
  skip_written = true;
}

abbrev fresh_files : LegacyFiles
fresh_files = record { conflict = none; capacity = none; resource = none }

abbrev four_polls : List Poll
four_polls = poll_at 5 100 true ∷ poll_at 5 150 false ∷ poll_at 5 300 true ∷ poll_at 5 900 true ∷ []

unread_head : BlockedFrom fairness_store 5 100 []
unfolding fairness_store read_conflict_v2 records_of
unread_head t e = cc

own_poll : (now : ℕ) (b : Bool) → 100 ≤ now → now < 1100 → InGraceFor limits 5 100 (poll_at 5 now b)
own_poll now b g h e = (refl, g, h)

-- Ticket 6 stands at the head in between.
abbrev other_heads : List Poll
other_heads = poll_at 5 100 true ∷ poll_at 6 120 true ∷ poll_at 5 300 false ∷ []

conflict_skips-interleaved_example : conflict_skips fairness_store limits 5 [] other_heads ≤ 2
unfolding fairness_store read_conflict_v2 records_of
conflict_skips-interleaved_example =
    conflict_skips-interleaved limits 5 100 [] other_heads unread_head (
      own_poll 100 true (ground arith) (ground arith),
      (λ e. cc, (own_poll 300 false (ground arith) (ground arith), tt)),
    )

abbrev backfill_limits : ResourceLimits
backfill_limits = record { is_active = true; resource_skip_limit = 3; sample_ms = 500 }

-- Two of three backfills are used.
abbrev denied_head : ResourceRaw
denied_head = record {
  head_id = 5;
  count = 2;
  denial = record {
    reserved = false;
    reservation_seq = none;
    yields = none;
    in_scope = true;
    behind_conflict = false;
    denied_at = 10;
    budget = 8;
    external_busy = 2;
    mem_info = none;
    futile = none;
  };
}

still_open : resource_backfill_open backfill_limits 20 denied_head ≡ true
unfolding resource_backfill_open futile_fresh
still_open = refl
