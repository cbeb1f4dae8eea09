-- ===== src/Priority/Tests.antt =====
-- The theorems of Priority at small queues.
use lane_broker.Prelude.{
  ◌<◌, ◌≡◌, refl, false, Option, none, some, List, [], ◌∷◌, arith, insert_by, sort_by,
}
use lane_broker.Samples.{sample_ticket}
use lane_broker.Records.{low, high, Ticket}
use lane_broker.Priority.{
  PriorityConfig, score, credited_wait_ms, waited_ms, origin_or_now, order_queue, order_from,
  goes_before, sim_rank, reaches_top,
}
use lane_broker.Priority.Aging.{score_below_high}
use lane_broker.Priority.Order.{Arranged, order_queue-Arranged}
use lane_broker.Priority.Reservation.{
  Promotion, older, promote_reservation_owner, promote_reservation_owner-Promotion,
}

abbrev weights : PriorityConfig
weights = record { weight_tier = 2; weight_age = 2; priority_age_max_ms = 500 }

abbrev low_ticket : Ticket
low_ticket = record (sample_ticket 31 1 1) { priority_admitted = some low }

abbrev high_ticket : Ticket
high_ticket = record (sample_ticket 32 1 1) { priority_admitted = some high }

score_below_high_example : score low_ticket 1600 weights < score high_ticket 1600 weights
unfolding credited_wait_ms waited_ms origin_or_now
score_below_high_example =
    score_below_high low_ticket high_ticket 1600 weights (ground arith, ground arith, ground arith)
      refl (λ e. cc) (ground arith)

abbrev raw_queue : List (Option Ticket)
raw_queue = some low_ticket ∷ some high_ticket ∷ none ∷ some high_ticket ∷ []

ordered :
    order_queue 1600 weights false raw_queue
    ≡ some high_ticket ∷ some low_ticket ∷ none ∷ some high_ticket ∷ []
unfolding order_queue order_from sort_by insert_by goes_before score sim_rank reaches_top
    credited_wait_ms waited_ms origin_or_now
ordered = refl

order_queue-Arranged_example :
    Arranged 1600 weights false raw_queue (order_queue 1600 weights false raw_queue)
order_queue-Arranged_example = order_queue-Arranged 1600 weights false raw_queue

promote_reservation_owner-Promotion_example :
    Promotion raw_queue
      (sort_by older ((31, 7) ∷ (32, 4) ∷ []))
      (promote_reservation_owner raw_queue ((31, 7) ∷ (32, 4) ∷ []))
promote_reservation_owner-Promotion_example =
    promote_reservation_owner-Promotion raw_queue ((31, 7) ∷ (32, 4) ∷ [])
