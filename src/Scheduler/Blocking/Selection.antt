-- ===== src/Scheduler/Blocking/Selection.antt =====
-- Which ticket the two selectors of src/scheduler.js take.
use lane_broker.Prelude.{
  ℕ, ◌+◌, ◌≡◌, ◌⊎◌, inl, inr, refl, ap, Bool, true, false, not, ◌&&◌, Option, none, some, List, [],
  ◌∷◌, ◌++◌, leb, Bool-cases, is_some, All,
}
use lane_broker.Records.{Ticket}
use lane_broker.Scheduler.Blocking.{blocked_by, select_candidate, select_capacity_candidate}

-- What a selector passes over: readable tickets that it may not start.
abbrev pub PassedOver : (Ticket → Bool) → List (Option Ticket) → Type 0
PassedOver startable = All (λ r. (t : Ticket) × (r ≡ some t) × (startable t ≡ false))

-- `t` is the first startable ticket of the queue, with no unreadable record before it.
pub record IsFirst (startable : Ticket → Bool) (queue : List (Option Ticket)) (t : Ticket)
    : Type 0 where
  pub before : List (Option Ticket)
  pub after : List (Option Ticket)
  pub split : queue ≡ before ++ some t ∷ after
  pub passed : PassedOver startable before
  pub starts : startable t ≡ true

-- No ticket before the end of the queue, or before its first unreadable record, is startable.
pub record HasNone (startable : Ticket → Bool) (queue : List (Option Ticket)) : Type 0 where
  pub before : List (Option Ticket)
  pub after : List (Option Ticket)
  pub split : queue ≡ before ++ after
  pub barrier : (after ≡ []) ⊎ ((rest : List (Option Ticket)) × (after ≡ none ∷ rest))
  pub passed : PassedOver startable before

abbrev pub Selection : (Ticket → Bool) → List (Option Ticket) → Option Ticket → Type 0
Selection startable queue none = HasNone startable queue
Selection startable queue (some t) = IsFirst startable queue t

Selection-skip :
    (startable : Ticket → Bool) (u : Ticket) (queue : List (Option Ticket)) (o : Option Ticket)
    → startable u ≡ false
    → Selection startable queue o
    → Selection startable (some u ∷ queue) o
Selection-skip startable u queue none skip s = record {
  before = some u ∷ s.before;
  after = s.after;
  split = ap (λ l. some u ∷ l) s.split;
  barrier = s.barrier;
  passed = ((u, refl, skip), s.passed);
}
Selection-skip startable u queue (some t) skip s = record {
  before = some u ∷ s.before;
  after = s.after;
  split = ap (λ l. some u ∷ l) s.split;
  passed = ((u, refl, skip), s.passed);
  starts = s.starts;
}

HasNone-here :
    (startable : Ticket → Bool) (queue : List (Option Ticket))
    → (queue ≡ []) ⊎ ((rest : List (Option Ticket)) × (queue ≡ none ∷ rest))
    → HasNone startable queue
HasNone-here startable queue b = record {
  before = [];
  after = queue;
  split = refl;
  barrier = b;
  passed = tt;
}

IsFirst-here :
    (startable : Ticket → Bool) (t : Ticket) (queue : List (Option Ticket))
    → startable t ≡ true
    → IsFirst startable (some t ∷ queue) t
IsFirst-here startable t queue s = record {
  before = [];
  after = queue;
  split = refl;
  passed = tt;
  starts = s;
}

module _ {A : Type 0} (key_of : A → ℕ) where
  abbrev pub unblocked : List A → Ticket → Bool
  unblocked held t = not (is_some (blocked_by key_of held t))

  abbrev pub fits : List A → (running capacity : ℕ) → Ticket → Bool
  fits held running capacity t = unblocked held t && leb (running + t.weight) capacity

  -- The conflict selector takes the first ticket that no held lease blocks, and none that stands
  -- behind an unreadable record.
  pub select_candidate-Selection :
      (queue : List (Option Ticket)) (held : List A)
      → Selection (unblocked held) queue (select_candidate key_of queue held)
  unfolding select_candidate
  select_candidate-Selection [] held = HasNone-here (unblocked held) [] (inl refl)
  select_candidate-Selection (none ∷ queue) held =
      HasNone-here (unblocked held) (none ∷ queue) (inr (queue, refl))
  select_candidate-Selection (some t ∷ queue) held =
      elim (Bool-cases (is_some (blocked_by key_of held t))) [
        | inl blocked ↦ rw blocked (
            Selection-skip (unblocked held) t queue (select_candidate key_of queue held)
              (rw blocked) (select_candidate-Selection queue held))
        | inr free ↦ rw free (IsFirst-here (unblocked held) t queue (rw free))
      ]

  -- The capacity selector takes the first ticket that no held lease blocks and whose weight still
  -- fits under the capacity, and none that stands behind an unreadable record.
  pub select_capacity_candidate-Selection :
      (queue : List (Option Ticket)) (held : List A) (running capacity : ℕ)
      → Selection
          (fits held running capacity)
          queue
          (select_capacity_candidate key_of queue held running capacity)
  unfolding select_capacity_candidate
  select_capacity_candidate-Selection [] held running capacity =
      HasNone-here (fits held running capacity) [] (inl refl)
  select_capacity_candidate-Selection (none ∷ queue) held running capacity =
      HasNone-here (fits held running capacity) (none ∷ queue) (inr (queue, refl))
  select_capacity_candidate-Selection (some t ∷ queue) held running capacity =
      let later = select_capacity_candidate key_of queue held running capacity in
      let rest = select_capacity_candidate-Selection queue held running capacity in
      elim (Bool-cases (is_some (blocked_by key_of held t))) [
        | inl blocked ↦
            rw blocked (Selection-skip (fits held running capacity) t queue later (rw blocked) rest)
        | inr free ↦ elim (Bool-cases (leb (running + t.weight) capacity)) [
          | inl light ↦
              rw (free, light)
                (IsFirst-here (fits held running capacity) t queue (rw (free, light)))
          | inr heavy ↦
              rw (free, heavy)
                (Selection-skip (fits held running capacity) t queue later (rw (free, heavy)) rest)
        ]
      ]
