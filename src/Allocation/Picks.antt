-- ===== src/Allocation/Picks.antt =====
-- What evaluateQueue of src/allocation.js selects.
use lane_broker.Prelude.{
  ℕ, ◌+◌, ◌≤◌, ◌<◌, max, ◌≡◌, ◌⊎◌, inl, inr, refl, sym, ap, subst, ◌∙◌, Bool, true, false, Option,
  none, some, List, [], ◌∷◌, ◌++◌, arith, ltb, ltb→lt, if◌then◌else◌, Bool-cases, filter_by,
  find_by, All, some_injective, if-split,
}
use lane_broker.Allocation.Deciding.{Decision, pick_safe, select, select_behind, smallest}

-- One candidate of a list is chosen: the first with the smallest claim.
abbrev pub Chosen : List Decision → Decision → Type 0
Chosen ds d =
    (before after : List Decision) × (ds ≡ before ++ (d ∷ after))
    × All (λ (e : Decision). d.effective_claim < e.effective_claim) before
    × All (λ (e : Decision). d.effective_claim ≤ e.effective_claim) after

-- What the reduction gives from `best` on: `best` itself, or a later one that is smaller.
abbrev Reduced : Decision → List Decision → Decision → Type 0
Reduced best ds d =
    ((d ≡ best) × All (λ (e : Decision). best.effective_claim ≤ e.effective_claim) ds)
    ⊎ (Chosen ds d × (d.effective_claim < best.effective_claim))

Chosen-first :
    (d x : Decision) (ds : List Decision)
    → x ≡ d
    → All (λ (e : Decision). d.effective_claim ≤ e.effective_claim) ds
    → Chosen (d ∷ ds) x
Chosen-first d x ds same rest = (
  [],
  ds,
  ap (λ y. y ∷ ds) (sym same),
  tt,
  subst (λ (y : Decision). All (λ (e : Decision). y.effective_claim ≤ e.effective_claim) ds)
      (sym same) rest,
)

Chosen-later :
    (d x : Decision) (ds : List Decision)
    → Chosen ds x
    → x.effective_claim < d.effective_claim
    → Chosen (d ∷ ds) x
Chosen-later d x ds (before, after, split, above, rest) less =
    (d ∷ before, after, ap (λ l. d ∷ l) split, (less, above), rest)

Reduced-less :
    (best d x : Decision) (ds : List Decision)
    → d.effective_claim < best.effective_claim
    → Reduced d ds x
    → Reduced best (d ∷ ds) x
Reduced-less best d x ds less (inl (same, rest)) = inr (
  Chosen-first d x ds same rest,
  subst (λ (y : Decision). y.effective_claim < best.effective_claim) (sym same) less,
)
Reduced-less best d x ds less (inr (chosen, lower)) =
    inr (Chosen-later d x ds chosen lower, omega (arith, lower, less))

Reduced-more :
    (best d x : Decision) (ds : List Decision)
    → best.effective_claim ≤ d.effective_claim
    → Reduced best ds x
    → Reduced best (d ∷ ds) x
Reduced-more best d x ds more (inl (same, rest)) = inl (same, (more, rest))
Reduced-more best d x ds more (inr (chosen, lower)) =
    inr (Chosen-later d x ds chosen (omega (arith, lower, more)), lower)

smallest-Reduced : (best : Decision) (ds : List Decision) → Reduced best ds (smallest best ds)
unfolding smallest
smallest-Reduced best [] = inl (refl, tt)
smallest-Reduced best (d ∷ ds) = elim (Bool-cases (ltb d.effective_claim best.effective_claim)) [
  | inl less ↦
      subst (Reduced best (d ∷ ds)) (ap (λ b. smallest (if b then d else best) ds) (sym less))
        (Reduced-less best d _ ds (ltb→lt _ _ less) (smallest-Reduced d ds))
  | inr more ↦
      subst (Reduced best (d ∷ ds)) (ap (λ b. smallest (if b then d else best) ds) (sym more))
        (Reduced-more best d _ ds (ground (arith, more)) (smallest-Reduced best ds))
]

smallest-Chosen : (d : Decision) (ds : List Decision) → Chosen (d ∷ ds) (smallest d ds)
smallest-Chosen d ds = elim (smallest-Reduced d ds) [
  | inl (same, rest) ↦ Chosen-first d _ ds same rest
  | inr (chosen, lower) ↦ Chosen-later d _ ds chosen lower
]

pick_safe-pick : (o : Option Decision) → ((pick_safe o).consumed ≡ 0) × ((pick_safe o).pick ≡ o)
unfolding pick_safe
pick_safe-pick none = (refl, refl)
pick_safe-pick (some d) = (refl, refl)

counted_once :
    (used limit : ℕ) (safe : Bool) → used < limit → used + (if safe then 0 else 1) ≤ max used limit
counted_once used limit safe h = ground arith

select_behind-Chosen :
    (used limit : ℕ) (d : Decision) (behind : List Decision)
    → let s = select_behind (ltb used limit) (d ∷ behind) in
      (used + s.consumed ≤ max used limit)
      × (((used < limit)
            × ((b : Decision) × (s.pick ≡ some b)
                × Chosen (d ∷ behind) b
                × (s.consumed ≡ (if b.safe_backfill then 0 else 1))))
          ⊎ ((limit ≤ used)
              × (s.consumed ≡ 0)
              × (s.pick ≡ find_by (λ (e : Decision). e.safe_backfill) (d ∷ behind))))
unfolding select_behind
select_behind-Chosen used limit d behind = elim (Bool-cases (ltb used limit)) [
  | inl left ↦
      let b = smallest d behind in
      rw left (
        counted_once used limit b.safe_backfill (ltb→lt _ _ left),
        inl (ltb→lt _ _ left, (b, refl, smallest-Chosen d behind, refl)),
      )
  | inr spent ↦
      let (unchanged, kept) =
        pick_safe-pick (find_by (λ (e : Decision). e.safe_backfill) (d ∷ behind)) in
      rw spent (omega (arith, unchanged), inr (ground (arith, spent), unchanged, kept))
]

-- Only what holds of every row, and with it eligibility, holds of the pick.
filter_by-All {ℓ} :
    (P : Decision → Type ℓ) (ds : List Decision)
    → All P ds
    → All
        (λ (d : Decision). P d × (d.eligible ≡ true))
        (filter_by (λ (d : Decision). d.eligible) ds)
filter_by-All P [] h = tt
filter_by-All P (d ∷ ds) h =
    let rest = filter_by-All P ds h.1 in
    if-split (All (λ (x : Decision). P x × (x.eligible ≡ true))) d.eligible (d ∷ _) _
      (λ e. ((h.0, e), rest)) (λ e. rest)

find_by-All {ℓ} :
    (P : Decision → Type ℓ) (p : Decision → Bool) (ds : List Decision) (d : Decision)
    → All P ds
    → find_by p ds ≡ some d
    → P d
find_by-All P p [] d h e = absurd (ground (arith, e))
find_by-All P p (x ∷ ds) d h e = elim (Bool-cases (p x)) [
  | inl here ↦ subst P (some_injective x d (ground (arith, here, e))) h.0
  | inr later ↦ find_by-All P p ds d h.1 (ground (arith, later, e))
]

smallest-All {ℓ} :
    (P : Decision → Type ℓ) (ds : List Decision) (d : Decision) → P d → All P ds → P (smallest d ds)
unfolding smallest
smallest-All P [] d h hs = h
smallest-All P (x ∷ ds) d h hs =
    smallest-All P ds (if ltb x.effective_claim d.effective_claim then x else d)
      (if-split P (ltb x.effective_claim d.effective_claim) x d (λ l. hs.0) (λ m. h)) hs.1

select_behind-All {ℓ} :
    (P : Decision → Type ℓ) (left : Bool) (ds : List Decision) (d : Decision)
    → All P ds
    → (select_behind left ds).pick ≡ some d
    → P d
unfolding select_behind
select_behind-All P false ds d h e =
    find_by-All P (λ (x : Decision). x.safe_backfill) ds d h (sym (pick_safe-pick _).1 ∙ e)
select_behind-All P true [] d h e = absurd (ground (arith, e))
select_behind-All P true (x ∷ ds) d h e =
    subst P (some_injective _ d e) (smallest-All P ds x h.0 h.1)

pub select-All {ℓ} :
    (P : Decision → Type ℓ) (used limit : ℕ) (reserved : Bool) (ds : List Decision) (d : Decision)
    → All P ds
    → (select used limit reserved ds).pick ≡ some d
    → P d × (d.eligible ≡ true)
unfolding select
select-All P used limit reserved [] d h e = absurd (ground (arith, e))
select-All P used limit reserved (x ∷ ds) d h e = elim (Bool-cases x.eligible) [
  | inl at_head ↦
      let same : x ≡ d = some_injective x d (ground (arith, at_head, e)) in
      (subst P same h.0, sym (ap (λ (y : Decision). y.eligible) same) ∙ at_head)
  | inr blocked ↦ elim (Bool-cases reserved) [
    | inl held ↦ absurd (ground (arith, blocked, held, e))
    | inr free ↦
        select_behind-All (λ (y : Decision). P y × (y.eligible ≡ true)) (ltb used limit) _ d
          (filter_by-All P ds h.1) (ground (arith, blocked, free, e))
  ]
]

-- Behind a head that is not eligible and has no live reservation: with budget left, the pick is the first
-- of the smallest claims among the eligible candidates, and a count is taken unless it is a safe
-- backfill; without, only the first safe backfill is picked, uncounted. The budget is never overdrawn.
pub select-Chosen :
    (used limit : ℕ) (first : Decision) (ds : List Decision) (d : Decision) (behind : List Decision)
    → first.eligible ≡ false
    → filter_by (λ (e : Decision). e.eligible) ds ≡ d ∷ behind
    → let s = select used limit false (first ∷ ds) in
      (used + s.consumed ≤ max used limit)
      × (((used < limit)
            × ((b : Decision) × (s.pick ≡ some b)
                × Chosen (d ∷ behind) b
                × (s.consumed ≡ (if b.safe_backfill then 0 else 1))))
          ⊎ ((limit ≤ used)
              × (s.consumed ≡ 0)
              × (s.pick ≡ find_by (λ (e : Decision). e.safe_backfill) (d ∷ behind))))
unfolding select
select-Chosen used limit first ds d behind blocked rest =
    rw (blocked, rest) (select_behind-Chosen used limit d behind)
