-- ===== src/Scheduler/Blocking.antt =====
-- `blockedBy`, `sameKeyHolder` and the two selectors of src/scheduler.js, and their laws.
pub mod Selection
use lane_broker.Prelude.{
  ℕ, zero, suc, ◌+◌, ◌-◌, ◌*◌, ◌/◌, ◌%◌, ◌≤◌, ◌<◌, min, max, ◌≡◌, ◌≢◌, ◌↔◌, ◌⊎◌, inl, inr, refl,
  sym, ap, subst, ◌∙◌, Bool, true, false, not, ◌&&◌, ◌||◌, Option, none, some, List, [], ◌∷◌, ◌++◌,
  map, append-nil, append_assoc, arith, ltb, leb, ltb→lt, lt→ltb, leb→le, le→leb, ◌==◌, ==_iff,
  if◌then◌else◌, Bool-cases, Option-cases, or_else, is_some, length, filter_by, find_by, any_by,
  every_by, last?, replicate, length-append, All, All-append, sum_by, some_injective,
}
use lane_broker.Records.{Ticket}

-- `Number.isInteger(maxConcurrent) && maxConcurrent >= 1 ? maxConcurrent : 1`
abbrev pub ceiling_of : Option ℕ → ℕ
ceiling_of none = 1
ceiling_of (some zero) = 1
ceiling_of (some (suc n)) = suc n

abbrev pub includes : List ℕ → ℕ → Bool
includes xs k = any_by (λ x. x == k) xs

-- Leases are read through their key alone, so the code passes `{ key }` as one too.
module _ {A : Type 0} (key_of : A → ℕ) where
  -- The loop of `blockedBy`: `same_key` are the same-key holders found so far.
  unfoldable pub blocked_loop : List A → List A → Ticket → Option A
  blocked_loop [] same_key t =
      if leb (ceiling_of t.max_concurrent) (length same_key) then last? same_key else none
  blocked_loop (lease ∷ rest) same_key t =
      let same = key_of lease == t.key in
      let later = blocked_loop rest (if same then same_key ++ lease ∷ [] else same_key) t in
      if same then later else if includes t.conflicts (key_of lease) then some lease else later

  unfoldable pub blocked_by : List A → Ticket → Option A
  blocked_by held t = blocked_loop held [] t

  -- `sameKeyHolder`: only the same-key holders, and no declared conflicts.
  unfoldable pub same_key_holder : List A → Ticket → Option A
  same_key_holder held t =
      blocked_by (filter_by (λ l. key_of l == t.key) held) (record t { conflicts = [] })

  -- `selectCandidate`: an unreadable record (`none`) stops the walk.
  unfoldable pub select_candidate : List (Option Ticket) → List A → Option Ticket
  select_candidate [] held = none
  select_candidate (none ∷ queue) held = none
  select_candidate (some t ∷ queue) held =
      let later = select_candidate queue held in
      if is_some (blocked_by held t) then later else some t

  -- `selectCapacityCandidate`
  unfoldable pub select_capacity_candidate :
      List (Option Ticket) → List A → (running_weight capacity : ℕ) → Option Ticket
  select_capacity_candidate [] held running capacity = none
  select_capacity_candidate (none ∷ queue) held running capacity = none
  select_capacity_candidate (some t ∷ queue) held running capacity =
      let later = select_capacity_candidate queue held running capacity in
      if is_some (blocked_by held t)
      then later
      else if leb (running + t.weight) capacity
      then some t
      else later

  -- How many holders have the key.
  abbrev pub holders : List A → ℕ → ℕ
  holders held k = length (filter_by (λ l. key_of l == k) held)

  -- A lease of another key that the ticket declares a conflict with.
  abbrev pub declared_conflict : Ticket → A → Bool
  declared_conflict t lease = not (key_of lease == t.key) && includes t.conflicts (key_of lease)

  is_some-last? : (xs : List A) → 1 ≤ length xs → is_some (last? xs) ≡ true
  is_some-last? [] h = absurd (omega arith)
  is_some-last? (x ∷ []) h = refl
  is_some-last? (x ∷ y ∷ ys) h = is_some-last? (y ∷ ys) (omega arith)

  ceiling_pos : (o : Option ℕ) → 1 ≤ ceiling_of o
  ceiling_pos none = omega arith
  ceiling_pos (some zero) = omega arith
  ceiling_pos (some (suc n)) = omega arith

  is_some-blocked_loop :
      (held same_key : List A) (t : Ticket)
      → is_some (blocked_loop held same_key t) ≡ (
          any_by (declared_conflict t) held
          || leb (ceiling_of t.max_concurrent) (length same_key + holders held t.key))
  unfolding blocked_loop
  is_some-blocked_loop [] same_key t =
      ground (arith, is_some-last? same_key, ceiling_pos t.max_concurrent)
  is_some-blocked_loop (lease ∷ rest) same_key t = ground (
    arith,
    is_some-blocked_loop rest same_key t,
    is_some-blocked_loop rest (same_key ++ lease ∷ []) t,
    length-append same_key (lease ∷ []),
  )

  -- A ticket is blocked exactly when some held lease of another key is among its declared
  -- conflicts, whatever its own ceiling, or its own key is held `maxConcurrent` times (once, where
  -- that is not declared).
  pub is_some-blocked_by :
      (held : List A) (t : Ticket)
      → is_some (blocked_by held t) ≡ (
          any_by (declared_conflict t) held
          || leb (ceiling_of t.max_concurrent) (holders held t.key))
  unfolding blocked_by
  is_some-blocked_by held t = ground (arith, is_some-blocked_loop held [] t)
