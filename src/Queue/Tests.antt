-- ===== src/Queue/Tests.antt =====
-- The theorems of Queue at a small queue.
use lane_broker.Prelude.{◌≡◌, refl, true, some, List, [], ◌∷◌, map, arith}
use lane_broker.Samples.{sample_ticket}
use lane_broker.Records.{high, Ticket}
use lane_broker.Queue.{Files, queued_ticket, withdraw, restore}
use lane_broker.Queue.Rebinding.{restore-withdraw}

abbrev first_ticket : Ticket
first_ticket = record (sample_ticket 5 1 1) {
  priority_requested = some high;
  priority_admitted = some high;
}

abbrev two_queued : List Ticket
two_queued = first_ticket ∷ sample_ticket 6 2 1 ∷ []

abbrev files : Files
files = record {
  queue = map some two_queued;
  parked = [];
  leased = [];
  finished = [];
  attempts = [];
  next_seq = 7;
}

-- A second high ticket of the same repo, where one is allowed.
abbrev second_high : Ticket
second_high = record (sample_ticket 9 3 1) { priority_requested = some high }

restore-withdraw_example : (restore (withdraw files 5 true) first_ticket).queue ≡ files.queue
unfolding queued_ticket
restore-withdraw_example =
    restore-withdraw files two_queued first_ticket refl
      (((ground arith, λ e. ground arith), tt), (tt, tt)) refl
