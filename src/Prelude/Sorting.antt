-- ===== src/Prelude/Sorting.antt =====
-- A stable insertion sort, for the comparators that the program gives to `sort`.
use Prim.Native.Nat.{ℕ, ◌*◌, ◌≤◌, ◌<◌}
use mathlib.Core.Path.{◌≡◌}
use mathlib.Core.Bool.{Bool, true, false}
use mathlib.Core.List.{List, [], ◌∷◌, Perm}
use mathlib.Core.List.Perm
use native.Mathlib.Omega.{arith}
use lane_broker.Prelude.Tests.{if◌then◌else◌, if-split}
use lane_broker.Prelude.Lists.{All}

-- `before a b` says that `a` must stand before `b`; of two that need not, the earlier one stays first.
module _ {ℓ} {A : Type ℓ} (before : A → A → Bool) where
  unfoldable pub insert_by : A → List A → List A
  insert_by x [] = x ∷ []
  insert_by x (y ∷ ys) = let rest = insert_by x ys in if before y x then y ∷ rest else x ∷ y ∷ ys

  unfoldable pub sort_by : List A → List A
  sort_by [] = []
  sort_by (x ∷ xs) = insert_by x (sort_by xs)

  -- Nothing stands before what must stand before it.
  abbrev pub InOrder : List A → Type ℓ
  InOrder [] = Unit
  InOrder (x ∷ xs) = All (λ y. before y x ≡ false) xs × InOrder xs

  insert_by-Perm : (x : A) (ys : List A) → Perm (insert_by x ys) (x ∷ ys)
  unfolding insert_by
  insert_by-Perm x [] = Perm.refl _
  insert_by-Perm x (y ∷ ys) =
      if-split (λ l. Perm l (x ∷ y ∷ ys)) (before y x) (y ∷ insert_by x ys) (x ∷ y ∷ ys)
        (λ h. Perm.trans (Perm.cons y (insert_by-Perm x ys)) (Perm.swap x y ys)) (λ h. Perm.refl _)

  pub sort_by-Perm : (xs : List A) → Perm (sort_by xs) xs
  unfolding sort_by
  sort_by-Perm [] = Perm.refl _
  sort_by-Perm (x ∷ xs) = Perm.trans (insert_by-Perm x (sort_by xs)) (Perm.cons x (sort_by-Perm xs))

  insert_by-All {κ} :
      (P : A → Type κ) (x : A) (ys : List A) → P x → All P ys → All P (insert_by x ys)
  unfolding insert_by
  insert_by-All P x [] p ps = (p, ps)
  insert_by-All P x (y ∷ ys) p (q, qs) =
      if-split (All P) (before y x) (y ∷ insert_by x ys) (x ∷ y ∷ ys)
        (λ h. (q, insert_by-All P x ys p qs)) (λ h. (p, (q, qs)))

  pub sort_by-All {κ} : (P : A → Type κ) (xs : List A) → All P xs → All P (sort_by xs)
  unfolding sort_by
  sort_by-All P [] a = tt
  sort_by-All P (x ∷ xs) (p, ps) = insert_by-All P x (sort_by xs) p (sort_by-All P xs ps)

  module _ (asym : (a b : A) → before a b ≡ true → before b a ≡ false)
      (neg_trans : (a b c : A) → before b a ≡ false → before c b ≡ false → before c a ≡ false) where
    below :
        (a b : A) (ys : List A)
        → before b a ≡ false
        → All (λ y. before y b ≡ false) ys
        → All (λ y. before y a ≡ false) ys
    below a b [] h u = u
    below a b (y ∷ ys) h (p, ps) = (neg_trans a b y h p, below a b ys h ps)

    insert_by-InOrder : (x : A) (ys : List A) → InOrder ys → InOrder (insert_by x ys)
    unfolding insert_by
    insert_by-InOrder x [] o = (tt, o)
    insert_by-InOrder x (y ∷ ys) (a, o) =
        if-split InOrder (before y x) (y ∷ insert_by x ys) (x ∷ y ∷ ys)
          (λ h.
            (insert_by-All (λ z. before z y ≡ false) x ys (asym y x h) a, insert_by-InOrder x ys o))
          (λ h. ((h, below x y ys h a), (a, o)))

    pub sort_by-InOrder : (xs : List A) → InOrder (sort_by xs)
    unfolding sort_by
    sort_by-InOrder [] = tt
    sort_by-InOrder (x ∷ xs) = insert_by-InOrder x (sort_by xs) (sort_by-InOrder xs)

pub mul_pos : (a b : ℕ) → 0 < a → 0 < b → 0 < a * b
mul_pos a b p q = grind arith

pub mul_mono : (a b m n : ℕ) → a ≤ b → m ≤ n → a * m ≤ b * n
mul_mono a b m n h k = grind arith
