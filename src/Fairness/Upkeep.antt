-- ===== src/Fairness/Upkeep.antt =====
-- What the removal operations of the per-ticket store leave (src/fairness.js).
use lane_broker.Prelude.{
  ℕ, ◌≡◌, refl, Bool, true, false, not, ◌&&◌, ◌||◌, Option, none, List, [], ◌∷◌, map, arith, ◌==◌,
  if◌then◌else◌, Bool-cases, Option-cases, filter_by, any_by, every_by,
}
use lane_broker.Fairness.{
  Tickets, TicketRecords, released, records_of, depart, prune, is_reserved, release_reservations,
  reservations, seq_of, is_readable, queued_as, map_option,
}
use lane_broker.Fairness.Stores.{read_conflict_v2}
use lane_broker.Records.{Ticket}

records_of-filter_by :
    (p : ℕ → Bool) (ts : Tickets) (id : ℕ)
    → records_of (filter_by (λ (e : ℕ × TicketRecords). p e.0) ts) id
      ≡ (if p id then records_of ts id else none)
unfolding records_of
records_of-filter_by p [] id = ground arith
records_of-filter_by p ((j, r) ∷ ts) id = ground (arith, records_of-filter_by p ts id)

-- Pruning removes exactly the records of the tickets that are neither queued nor provisionally
-- withdrawn, and none at all while a queue record is unreadable or when the write fails.
pub records_of-prune :
    (ts : Tickets) (queue : List (Option Ticket)) (provisional : List ℕ) (written : Bool) (id : ℕ)
    → records_of (prune ts queue provisional written) id ≡ (
        if not (every_by is_readable queue && written)
        then records_of ts id
        else if any_by (queued_as id) queue || any_by (λ i. i == id) provisional
        then records_of ts id
        else none)
unfolding prune
records_of-prune ts queue provisional written id = ground (
  arith,
  records_of-filter_by (λ j. any_by (queued_as j) queue || any_by (λ i. i == j) provisional) ts id,
)

-- A departure removes the records of the ticket that left and of no other.
pub records_of-depart :
    (ts : Tickets) (id j : ℕ) (written : Bool)
    → records_of (depart ts id written) j ≡ (if written && j == id then none else records_of ts j)
unfolding depart
records_of-depart ts id j written = ground (arith, records_of-filter_by (λ i. not (i == id)) ts j)

seq_of-released : (r : TicketRecords) → seq_of (released r).resource ≡ none
seq_of-released r = ground (arith, Option-cases r.resource, Bool-cases (is_reserved r.resource))

records_of-map :
    (f : TicketRecords → TicketRecords) (ts : Tickets) (id : ℕ)
    → records_of (map (λ (e : ℕ × TicketRecords). (e.0, f e.1)) ts) id
      ≡ map_option f (records_of ts id)
unfolding records_of
records_of-map f [] id = refl
records_of-map f ((j, r) ∷ ts) id = ground (arith, records_of-map f ts id)

release_reservations-reservations :
    (ts : Tickets) → reservations (release_reservations ts true) ≡ []
unfolding reservations release_reservations
release_reservations-reservations [] = refl
release_reservations-reservations ((j, r) ∷ ts) =
    ground (arith, release_reservations-reservations ts, seq_of-released r)

read_conflict_v2-release_reservations :
    (ts : Tickets) (written : Bool) (id : ℕ)
    → read_conflict_v2 (release_reservations ts written) id ≡ read_conflict_v2 ts id
unfolding read_conflict_v2 release_reservations
read_conflict_v2-release_reservations ts written id =
    ground (arith, records_of-map released ts id, Option-cases (records_of ts id))

-- Releasing the reservations leaves no ticket with a reservation and every ticket with the conflict
-- record that it had.
pub release_reservations-keeps :
    (ts : Tickets) (written : Bool) (id : ℕ)
    → (if written
        then reservations (release_reservations ts written) ≡ []
        else release_reservations ts written ≡ ts)
      × (read_conflict_v2 (release_reservations ts written) id ≡ read_conflict_v2 ts id)
unfolding release_reservations
release_reservations-keeps ts true id =
    (release_reservations-reservations ts, read_conflict_v2-release_reservations ts true id)
release_reservations-keeps ts false id = (refl, refl)
