-- ===== src/Queue/Rebinding.antt =====
-- A ticket that is withdrawn for a remote dispatch and comes back (src/scheduler.js, withdrawQueued
-- and restoreLocked).
use lane_broker.Prelude.{
  ℕ, ◌<◌, ◌≡◌, ◌≢◌, inl, inr, refl, sym, ap, subst, ◌∙◌, true, false, not, Option, none, some, List,
  [], ◌∷◌, map, arith, ◌==◌, if◌then◌else◌, Bool-cases, filter_by, any_by, All, some_injective,
}
use lane_broker.Records.{Ticket}
use lane_broker.Queue.{Files, has_id, queued_ticket, withdraw, insert_seq, restore}

-- Readable records in the order of their sequence numbers, each id once.
abbrev pub IsQueue : List Ticket → Type 0
IsQueue [] = Unit
IsQueue (t ∷ ts) = All (λ (u : Ticket). (t.seq < u.seq) × (u.id ≢ t.id)) ts × IsQueue ts

abbrev without : ℕ → List Ticket → List (Option Ticket)
without id ts = filter_by (λ r. not (has_id id r)) (map some ts)

without_absent :
    (id seq : ℕ) (ts : List Ticket)
    → All (λ (u : Ticket). (seq < u.seq) × (u.id ≢ id)) ts
    → without id ts ≡ map some ts
without_absent id seq [] a = refl
without_absent id seq (u ∷ ts) (a, b) = ground (arith, without_absent id seq ts b, a)

queued_after :
    (id seq other : ℕ) (ts : List Ticket) (t : Ticket)
    → All (λ (u : Ticket). (seq < u.seq) × (u.id ≢ other)) ts
    → queued_ticket (map some ts) id ≡ some t
    → seq < t.seq
unfolding queued_ticket
queued_after id seq other [] t a h = cc
queued_after id seq other (u ∷ ts) t (a, b) h = ground (arith, queued_after id seq other ts t b, a)

insert_first :
    (t : Ticket) (ts : List Ticket)
    → All (λ (u : Ticket). (t.seq < u.seq) × (u.id ≢ t.id)) ts
    → insert_seq t (map some ts) ≡ some t ∷ map some ts
unfolding insert_seq
insert_first t [] a = refl
insert_first t (u ∷ ts) (a, b) = ground (arith, a)

queued_id :
    (id : ℕ) (rs : List (Option Ticket)) (t : Ticket) → queued_ticket rs id ≡ some t → t.id ≡ id
unfolding queued_ticket
queued_id id [] t h = cc
queued_id id (none ∷ rs) t h = queued_id id rs t h
queued_id id (some u ∷ rs) t h = ground (arith, queued_id id rs t)

here :
    (ts : List Ticket) (u t : Ticket)
    → All (λ (v : Ticket). (u.seq < v.seq) × (v.id ≢ u.id)) ts
    → u ≡ t
    → insert_seq t (without t.id (u ∷ ts)) ≡ map some (u ∷ ts)
here ts u t a e =
    subst (λ v. insert_seq v (without v.id (u ∷ ts)) ≡ map some (u ∷ ts)) e
      (ground (arith, without_absent u.id u.seq ts a, insert_first u ts a))

later :
    (ts : List Ticket) (u t : Ticket)
    → All (λ (v : Ticket). (u.seq < v.seq) × (v.id ≢ u.id)) ts
    → IsQueue ts
    → (u.id == t.id) ≡ false
    → queued_ticket (map some ts) t.id ≡ some t
    → (queued_ticket (map some ts) t.id ≡ some t → insert_seq t (without t.id ts) ≡ map some ts)
    → insert_seq t (without t.id (u ∷ ts)) ≡ map some (u ∷ ts)
unfolding insert_seq
later ts u t a q n h ih = ground (arith, queued_after t.id u.seq u.id ts t a h, ih h, n)

same_ticket :
    (u t : Ticket) (rest : Option Ticket)
    → (if u.id == t.id then some u else rest) ≡ some t
    → (u.id == t.id) ≡ true
    → u ≡ t
same_ticket u t rest h e = some_injective u t (ground (arith, h, e))

insert_seq-without :
    (ts : List Ticket) (t : Ticket)
    → IsQueue ts
    → queued_ticket (map some ts) t.id ≡ some t
    → insert_seq t (without t.id ts) ≡ map some ts
unfolding queued_ticket
insert_seq-without [] t q h = cc
insert_seq-without (u ∷ ts) t (a, q) h = elim (Bool-cases (u.id == t.id)) [
  | inl e ↦ here ts u t a (same_ticket u t (queued_ticket (map some ts) t.id) h e)
  | inr n ↦ later ts u t a q n (ground arith) (insert_seq-without ts t q)
]

none_left :
    (id : ℕ) (rs : List (Option Ticket))
    → any_by (has_id id) (filter_by (λ r. not (has_id id r)) rs) ≡ false
none_left id [] = refl
none_left id (r ∷ rs) = ground (arith, none_left id rs, Bool-cases (has_id id r))

-- The files once the ticket is parked.
abbrev parked_files : Files → Ticket → Files
parked_files f t = record f {
  queue = filter_by (λ r. not (has_id t.id r)) f.queue;
  parked = t ∷ f.parked;
}

withdraw-parked :
    (f : Files) (t : Ticket)
    → queued_ticket f.queue t.id ≡ some t
    → withdraw f t.id true ≡ parked_files f t
unfolding withdraw
withdraw-parked f t h = rw (withdraw, h) refl

restore-parked :
    (f : Files) (ts : List Ticket) (t : Ticket)
    → f.queue ≡ map some ts
    → IsQueue ts
    → queued_ticket f.queue t.id ≡ some t
    → (restore (parked_files f t) t).queue ≡ f.queue
unfolding restore
restore-parked f ts t e q h =
    let gone = none_left t.id f.queue in
    let back =
      subst
        (λ l.
          queued_ticket l t.id ≡ some t → insert_seq t (filter_by (λ r. not (has_id t.id r)) l) ≡ l)
        (sym e) (insert_seq-without ts t q) h in
    ground (arith, gone, back)

-- A ticket that is withdrawn and restored is queued again at its place, in a queue of readable
-- records in the order of their sequence numbers.
pub restore-withdraw :
    (f : Files) (ts : List Ticket) (t : Ticket)
    → f.queue ≡ map some ts
    → IsQueue ts
    → queued_ticket f.queue t.id ≡ some t
    → (restore (withdraw f t.id true) t).queue ≡ f.queue
restore-withdraw f ts t e q h =
    ap (λ (g : Files). (restore g t).queue) (withdraw-parked f t h) ∙ restore-parked f ts t e q h
