-- ===== src/Allocation/Whole.antt =====
-- The selection of src/allocation.js over a queue: whom it names, and what this leaves to the other class.
use lane_broker.Prelude.{
  ℕ, ◌+◌, ◌*◌, ◌≤◌, max, ◌≡◌, ◌⊎◌, inl, inr, refl, sym, ap, subst, ◌∙◌, Bool, true, false, not,
  ◌&&◌, Option, none, some, List, [], ◌∷◌, ◌++◌, map, arith, ltb, ◌==◌, if◌then◌else◌, length,
  length-append, All,
}
use lane_broker.Records.{Class}
use lane_broker.Allocation.{Candidate, Held, Pool, evaluate_candidate}
use lane_broker.Allocation.Deciding.{
  Decision, decide, decisions, evaluate_queue, head_claim, pool_of,
}
use lane_broker.Allocation.Locks.{
  evaluate_candidate-leaves_lock, lock_of_other, used_other, used_own,
}
use lane_broker.Allocation.Picks.{select-All}

-- A row is not eligible, or it is the verdict on a readable ticket with only readable ones in front.
abbrev Row : Pool → (first_claim : ℕ) → List (Option Candidate) → Decision → Type 0
Row p first_claim queue d =
    (d.eligible ≡ false)
    ⊎ ((before : List Candidate) × (t : Candidate) × (after : List (Option Candidate)) × (queue
          ≡ map some before ++ (some t ∷ after))
        × (d ≡ decide p first_claim (length before) t))

map_behind :
    (before : List Candidate) (t : Candidate) (rest : List (Option Candidate))
    → map some (before ++ (t ∷ [])) ++ rest ≡ map some before ++ (some t ∷ rest)
map_behind [] t rest = refl
map_behind (x ∷ before) t rest = ap (λ l. some x ∷ l) (map_behind before t rest)

no_guards : (gs : List ℕ) → not (length gs == 0) ≡ false → gs ≡ []
no_guards [] e = refl
no_guards (g ∷ gs) e = absurd (ground (arith, e))

decisions-Row :
    (p : Pool) (first_claim : ℕ) (before : List Candidate) (rest : List (Option Candidate))
    → All
        (Row p first_claim (map some before ++ rest))
        (decisions p first_claim (length before) rest)
unfolding decisions
decisions-Row p first_claim before [] = tt
decisions-Row p first_claim before (none ∷ rest) = (inl refl, tt)
decisions-Row p first_claim before (some t ∷ rest) =
    let next : length (before ++ (t ∷ [])) ≡ length before + 1 =
      length-append before (t ∷ []) ∙ omega arith in
    let queue : map some (before ++ (t ∷ [])) ++ rest ≡ map some before ++ (some t ∷ rest) =
      map_behind before t rest in
    (
      inr (before, t, rest, refl, refl),
      subst
          (λ k.
            All (Row p first_claim (map some before ++ (some t ∷ rest)))
              (decisions p first_claim k rest))
          next
          (subst
            (λ q.
              All (Row p first_claim q)
                (decisions p first_claim (length (before ++ (t ∷ []))) rest))
            queue (decisions-Row p first_claim (before ++ (t ∷ [])) rest)),
    )

decide-id :
    (p : Pool) (first_claim index : ℕ) (t : Candidate)
    → (decide p first_claim index t).id ≡ some t.id
unfolding decide
decide-id p first_claim index t = refl

with_reservation :
    (p q : Pool) (k : Class) (claim : ℕ)
    → used_own q k ≡ used_own p k
    → used_other q k ≡ used_other p k
    → lock_of_other q k ≡ lock_of_other p k
    → q.budget ≡ p.budget
    → 100 * (claim + used_own q k + q.reserved_head)
        + max (lock_of_other q k) (100 * used_other q k)
      ≤ 100 * q.budget
    → 100 * (claim + used_own p k) + max (lock_of_other p k) (100 * used_other p k) ≤ 100 * p.budget
with_reservation p q k claim own other lock budget h = omega (arith, own, other, lock, budget, h)

decide-eligible :
    (p : Pool) (first_claim index : ℕ) (t : Candidate)
    → (decide p first_claim index t).eligible ≡ true
    → (t.conflict_blocked ≡ false)
      × (t.guards ≡ [])
      × (100 * ((decide p first_claim index t).effective_claim + used_own p t.class)
            + max (lock_of_other p t.class) (100 * used_other p t.class)
          ≤ 100 * p.budget)
unfolding decide
decide-eligible p first_claim index t e =
    let q : Pool = record p {
      reserved_head = if ltb 0 index && t.safe_backfill then first_claim else 0;
      idle_exempt = p.idle_exempt && index == 0;
    } in
    let admitted : (evaluate_candidate q t).eligible ≡ true = ground (arith, e) in
    (
      ground (arith, e),
      no_guards t.guards (ground (arith, e)),
      with_reservation p q t.class (evaluate_candidate q t).effective_claim refl refl refl refl
          (evaluate_candidate-leaves_lock q t admitted),
    )

-- The selection over a queue names a readable ticket that no unreadable record stands in front of, that
-- neither a conflict nor another guard denies, and that leaves the other class its lock, or what it is
-- charged where that is more.
pub evaluate_queue-leaves_lock :
    (p : Pool) (held : List Held) (queue : List (Option Candidate)) (now : ℕ) (last : Option ℕ)
    (window used limit : ℕ) (reserved : Bool) (d : Decision)
    → (evaluate_queue p held queue now last window used limit reserved).pick ≡ some d
    → let q = pool_of p held queue now last window in
      (before : List Candidate) × (t : Candidate) × (after : List (Option Candidate)) × (queue
        ≡ map some before ++ (some t ∷ after))
      × (d.id ≡ some t.id)
      × (t.conflict_blocked ≡ false)
      × (t.guards ≡ [])
      × (100 * (d.effective_claim + used_own q t.class)
            + max (lock_of_other q t.class) (100 * used_other q t.class)
          ≤ 100 * q.budget)
unfolding evaluate_queue
evaluate_queue-leaves_lock p held queue now last window used limit reserved d e =
    let q = pool_of p held queue now last window in
    let rows = decisions-Row q (head_claim queue) [] queue in
    let (row, eligible) =
      select-All (Row q (head_claim queue) queue) used limit reserved
        (decisions q (head_claim queue) 0 queue) d rows e in
    elim row [
      | inl refused ↦ absurd (ground (arith, refused, eligible))
      | inr (before, t, after, split, same) ↦
          let checked =
            decide-eligible q (head_claim queue) (length before) t
              (ap (λ (x : Decision). x.eligible) (sym same) ∙ eligible) in
          (
            before,
            t,
            after,
            split,
            ap (λ (x : Decision). x.id) same ∙ decide-id q (head_claim queue) (length before) t,
            checked.0,
            checked.1,
            subst
                (λ (x : Decision).
                  100 * (x.effective_claim + used_own q t.class)
                    + max (lock_of_other q t.class) (100 * used_other q t.class)
                  ≤ 100 * q.budget)
                (sym same) checked.2,
          )
    ]
