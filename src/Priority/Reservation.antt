-- ===== src/Priority/Reservation.antt =====
-- Which reservation heads the queue (src/priority.js, promoteReservationOwner).
use lane_broker.Prelude.{
  ℕ, ◌≡◌, refl, sym, ap, ◌∙◌, Bool, true, false, not, ◌&&◌, ◌||◌, Option, none, some, List, [], ◌∷◌,
  ◌++◌, arith, ltb, ◌==◌, if◌then◌else◌, Bool-cases, is_some, any_by, every_by, All, if-split,
  sort_by,
}
use lane_broker.Records.{is_sim, Ticket}

-- An earlier sequence number goes first, and the id decides between equal ones.
unfoldable pub older : ℕ × ℕ → ℕ × ℕ → Bool
older a b = ltb a.1 b.1 || (a.1 == b.1 && ltb a.0 b.0)

abbrev pub Found : Type 0
Found = List (Option Ticket) × Ticket × List (Option Ticket)

abbrev pub found_behind : Option Ticket → Option Found → Option Found
found_behind r none = none
found_behind r (some (ahead, t, behind)) = some (r ∷ ahead, t, behind)

-- `findIndex` in front of the first unreadable record: what is ahead, the ticket, what is behind.
unfoldable pub find_ticket : List (Option Ticket) → (id : ℕ) → Option Found
find_ticket [] id = none
find_ticket (none ∷ rs) id = none
find_ticket (some t ∷ rs) id =
    let rest = found_behind (some t) (find_ticket rs id) in
    if t.id == id then some ([], t, rs) else rest

abbrev pub is_test : Option Ticket → Bool
is_test none = false
is_test (some t) = not (is_sim t.class)

-- A sim owner stays dormant behind a ticket that is no sim.
abbrev pub promoted : Option Found → Option Found
promoted none = none
promoted (some (ahead, t, behind)) =
    if is_sim t.class && any_by is_test ahead then none else some (ahead, t, behind)

abbrev pub moved_first : Found → List (Option Ticket)
moved_first (ahead, t, behind) = some t ∷ (ahead ++ behind)

unfoldable pub first_owner : List (Option Ticket) → List (ℕ × ℕ) → List (Option Ticket) × Option ℕ
first_owner ordered [] = (ordered, none)
first_owner ordered ((id, seq) ∷ rs) =
    let rest = first_owner ordered rs in
    elim (promoted (find_ticket ordered id)) [ none ↦ rest | some f ↦ (moved_first f, some id) ]

unfoldable pub promote_reservation_owner :
    List (Option Ticket) → List (ℕ × ℕ) → List (Option Ticket) × Option ℕ
promote_reservation_owner ordered reservations = first_owner ordered (sort_by older reservations)

abbrev pub has_id : (id : ℕ) → Option Ticket → Bool
has_id id none = false
has_id id (some t) = t.id == id

-- The owner of a reservation that can take the head: the first ticket of that id, in front of every
-- unreadable record, and no sim behind a ticket that is no sim.
abbrev pub IsActivable : List (Option Ticket) → (id : ℕ) → Found → Type 0
IsActivable ordered id (ahead, t, behind) =
    (ordered ≡ ahead ++ (some t ∷ behind))
    × (t.id ≡ id)
    × (every_by is_some ahead ≡ true)
    × (any_by (has_id id) ahead ≡ false)
    × (is_sim t.class ≡ true → any_by is_test ahead ≡ false)

abbrev pub IsDormant : List (Option Ticket) → (id : ℕ) → Type 0
IsDormant ordered id = (f : Found) → IsActivable ordered id f → ⊥

pub data Promotion (ordered : List (Option Ticket))
    : List (ℕ × ℕ) → List (Option Ticket) × Option ℕ → Type 0 where
  dormant :
      (rs : List (ℕ × ℕ))
      → All (λ (r : ℕ × ℕ). IsDormant ordered r.0) rs
      → Promotion ordered rs (ordered, none)
  active :
      (passed : List (ℕ × ℕ)) (id seq : ℕ) (rest : List (ℕ × ℕ)) (f : Found)
      → All (λ (r : ℕ × ℕ). IsDormant ordered r.0) passed
      → IsActivable ordered id f
      → Promotion ordered (passed ++ ((id, seq) ∷ rest)) (moved_first f, some id)

-- What a search that finds something has found.
abbrev FoundOk : List (Option Ticket) → ℕ → Option Found → Type 0
FoundOk rs id none = Unit
FoundOk rs id (some (ahead, t, behind)) =
    (rs ≡ ahead ++ (some t ∷ behind))
    × (t.id ≡ id)
    × (every_by is_some ahead ≡ true)
    × (any_by (has_id id) ahead ≡ false)

found_behind-FoundOk :
    (t : Ticket) (rs : List (Option Ticket)) (id : ℕ) (o : Option Found)
    → t.id == id ≡ false
    → FoundOk rs id o
    → FoundOk (some t ∷ rs) id (found_behind (some t) o)
found_behind-FoundOk t rs id none other h = tt
found_behind-FoundOk t rs id (some (ahead, u, behind)) other (e, i, r, n) =
    (ap (λ l. some t ∷ l) e, i, r, ground (arith, other, n))

find_ticket-FoundOk : (rs : List (Option Ticket)) (id : ℕ) → FoundOk rs id (find_ticket rs id)
unfolding find_ticket
find_ticket-FoundOk [] id = tt
find_ticket-FoundOk (none ∷ rs) id = tt
find_ticket-FoundOk (some t ∷ rs) id =
    if-split (FoundOk (some t ∷ rs) id) (t.id == id) (some ([], t, rs))
      (found_behind (some t) (find_ticket rs id)) (λ h. (refl, ground arith, refl, refl))
      (λ h. found_behind-FoundOk t rs id _ h (find_ticket-FoundOk rs id))

abbrev PromotedOk : List (Option Ticket) → ℕ → Option Found → Type 0
PromotedOk rs id none = Unit
PromotedOk rs id (some f) = IsActivable rs id f

promoted-PromotedOk :
    (rs : List (Option Ticket)) (id : ℕ) (o : Option Found)
    → FoundOk rs id o
    → PromotedOk rs id (promoted o)
promoted-PromotedOk rs id none h = tt
promoted-PromotedOk rs id (some (ahead, t, behind)) (e, i, r, n) =
    if-split (PromotedOk rs id) (is_sim t.class && any_by is_test ahead) none
      (some (ahead, t, behind)) (λ h. tt)
      (λ h. (e, i, r, n, λ s. ground (arith, h, s, Bool-cases (any_by is_test ahead))))

-- The search finds the first ticket of the id in front of every unreadable record.
find_ticket-first :
    (ahead : List (Option Ticket)) (t : Ticket) (behind : List (Option Ticket)) (id : ℕ)
    → t.id ≡ id
    → every_by is_some ahead ≡ true
    → any_by (has_id id) ahead ≡ false
    → find_ticket (ahead ++ (some t ∷ behind)) id ≡ some (ahead, t, behind)
unfolding find_ticket
find_ticket-first [] t behind id i r n =
    let here : t.id == id ≡ true = ground (arith, i) in rw here refl
find_ticket-first (none ∷ ahead) t behind id i r n = absurd (ground (arith, r))
find_ticket-first (some u ∷ ahead) t behind id i r n =
    let other : u.id == id ≡ false = ground (arith, n, Bool-cases (u.id == id)) in
    let later =
      find_ticket-first ahead t behind id i (ground (arith, r)) (ground (arith, n, other)) in
    rw (other, later) refl

-- What the code does not promote cannot take the head.
promoted-IsDormant :
    (ordered : List (Option Ticket)) (id : ℕ)
    → promoted (find_ticket ordered id) ≡ none
    → IsDormant ordered id
promoted-IsDormant ordered id e (ahead, t, behind) (split, i, r, n, sims) =
    let found = ap (λ l. find_ticket l id) split ∙ find_ticket-first ahead t behind id i r n in
    let kept : promoted (some (ahead, t, behind)) ≡ none = sym (ap promoted found) ∙ e in
    ground (arith, kept, sims, Bool-cases (is_sim t.class))

-- One more reservation that is not activable in front of the others changes nothing.
skip_dormant :
    (ordered : List (Option Ticket)) (r : ℕ × ℕ) (rs : List (ℕ × ℕ))
    (q : List (Option Ticket) × Option ℕ)
    → IsDormant ordered r.0
    → Promotion ordered rs q
    → Promotion ordered (r ∷ rs) q
skip_dormant ordered r _ _ h (dormant rs a) = dormant (r ∷ rs) (h, a)
skip_dormant ordered r _ _ h (active older_ones id seq rest f a ok) =
    active (r ∷ older_ones) id seq rest f (h, a) ok

Promotion-step :
    (ordered : List (Option Ticket)) (id seq : ℕ) (rs : List (ℕ × ℕ))
    (q : List (Option Ticket) × Option ℕ) (o : Option Found)
    → promoted (find_ticket ordered id) ≡ o
    → PromotedOk ordered id o
    → Promotion ordered rs q
    → Promotion ordered ((id, seq) ∷ rs) (elim o [ none ↦ q | some f ↦ (moved_first f, some id) ])
Promotion-step ordered id seq rs q none e ok p =
    skip_dormant ordered (id, seq) rs q (promoted-IsDormant ordered id e) p
Promotion-step ordered id seq rs q (some f) e ok p = active [] id seq rs f tt ok

first_owner-Promotion :
    (ordered : List (Option Ticket)) (rs : List (ℕ × ℕ))
    → Promotion ordered rs (first_owner ordered rs)
unfolding first_owner
first_owner-Promotion ordered [] = dormant [] tt
first_owner-Promotion ordered ((id, seq) ∷ rs) =
    Promotion-step ordered id seq rs (first_owner ordered rs) (promoted (find_ticket ordered id))
      refl (promoted-PromotedOk ordered id _ (find_ticket-FoundOk ordered id))
      (first_owner-Promotion ordered rs)

-- Of the reservations from the oldest to the youngest, the first whose owner can take the head moves it
-- there, and the rest of the queue keeps its order; without such an owner the queue is unchanged. An
-- owner can take the head if it is the first ticket of its id, all records ahead of it are readable, and
-- it is not a sim with a ticket ahead that is no sim.
pub promote_reservation_owner-Promotion :
    (ordered : List (Option Ticket)) (reservations : List (ℕ × ℕ))
    → Promotion ordered
        (sort_by older reservations)
        (promote_reservation_owner ordered reservations)
unfolding promote_reservation_owner
promote_reservation_owner-Promotion ordered reservations =
    first_owner-Promotion ordered (sort_by older reservations)
