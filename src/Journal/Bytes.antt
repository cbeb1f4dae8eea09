-- ===== src/Journal/Bytes.antt =====
-- The bytes of a chunk of the journal (src/store/journal.js): whole lines, and the beginning of one.
use lane_broker.Prelude.{
  ℕ, zero, suc, ◌+◌, ◌-◌, ◌≤◌, ◌≡◌, inl, inr, refl, sym, ap, ◌∙◌, false, none, some, List, [], ◌∷◌,
  ◌++◌, append-nil, append_assoc, arith, leb, leb→le, Bool-cases, length, length-append, All, take,
  take-length_le, take-append, take-append_le,
}
use lane_broker.Journal.{Codec, Rec, last_end, last_newline}
use lane_broker.Journal.Log.{line_of}
use lane_broker.Journal.Lines.{OneLine, encode, located}

pub last_newline-OneLine : (t : List ℕ) → OneLine t → last_newline t ≡ none
unfolding last_newline
last_newline-OneLine [] h = refl
last_newline-OneLine (b ∷ t) h = rw (last_newline-OneLine t h.1, h.0) refl

pub last_newline-append :
    (a t : List ℕ) → OneLine t → last_newline (a ++ (10 ∷ t)) ≡ some (length a)
unfolding last_newline
last_newline-append [] t h = rw (last_newline-OneLine t h) refl
last_newline-append (b ∷ a) t h = rw (last_newline-append a t h) refl

pub All-take {ℓ κ} :
    {A : Type ℓ} (P : A → Type κ) (n : ℕ) (xs : List A) → All P xs → All P (take n xs)
All-take P zero xs h = tt
All-take P (suc n) [] h = tt
All-take P (suc n) (x ∷ xs) h = (h.0, All-take P n xs h.1)

pub All-suffix {ℓ κ} : {A : Type ℓ} (P : A → Type κ) (xs ys : List A) → All P (xs ++ ys) → All P ys
All-suffix P [] ys h = h
All-suffix P (x ∷ xs) ys h = All-suffix P xs ys h.1

-- No line is longer than a chunk.
abbrev pub Fits : Codec → (max_bytes : ℕ) → List Rec → Type 0
Fits c max_bytes = All (λ r. length (line_of c r) ≤ max_bytes)

module _ (c : Codec) where
  pub encode_ends : (r : Rec) (rs : List Rec) → (a : List ℕ) × (encode c (r ∷ rs) ≡ a ++ (10 ∷ []))
  unfolding encode line_of
  encode_ends r [] = (c.print r, append-nil _)
  encode_ends r (s ∷ rs) =
      let (a, e) = encode_ends s rs in
      (
        line_of c r ++ a,
        ap (λ l. line_of c r ++ l) e ∙ sym (append_assoc (line_of c r) a (10 ∷ [])),
      )

  pub located-append :
      (at : ℕ) (xs ys : List Rec)
      → located c at (xs ++ ys) ≡ located c at xs ++ located c (at + length (encode c xs)) ys
  unfolding located encode
  located-append at [] ys = ap (λ k. located c k ys) (omega arith)
  located-append at (x ∷ xs) ys =
      let here : at + length (line_of c x) + length (encode c xs)
          ≡ at + length (encode c (x ∷ xs)) =
        omega (arith, length-append (line_of c x) (encode c xs)) in
      ap (λ ls. record { rec = x; offset = at; end = at + length (line_of c x) } ∷ ls)
        (located-append (at + length (line_of c x)) xs ys
          ∙ ap (λ k. located c (at + length (line_of c x)) xs ++ located c k ys) here)

  pub last_end-located :
      (at : ℕ) (r : Rec) (rs : List Rec)
      → last_end
          (record { rec = r; offset = at; end = at + length (line_of c r) })
          (located c (at + length (line_of c r)) rs)
        ≡ at + length (encode c (r ∷ rs))
  unfolding last_end located encode
  last_end-located at r [] = omega (arith, length-append (line_of c r) [])
  last_end-located at r (s ∷ rs) = omega (
    arith,
    last_end-located (at + length (line_of c r)) s rs,
    length-append (line_of c r) (encode c (s ∷ rs)),
  )

  -- The first bytes of some lines: whole lines and the start of one more.
  unfoldable pub Cut : (m : ℕ) → List Rec → Type 0
  Cut m rs =
      (xs ys : List Rec) × (t : List ℕ) × (rs ≡ xs ++ ys)
      × (take m (encode c rs) ≡ encode c xs ++ t)
      × OneLine t

  pub cut_short : (m : ℕ) (r : Rec) → leb (length (line_of c r)) m ≡ false → m ≤ length (c.print r)
  unfolding line_of
  cut_short m r part = ground (arith, part, length-append (c.print r) (10 ∷ []))

  pub take-encode : (m : ℕ) (rs : List Rec) → Cut m rs
  unfolding Cut encode line_of
  take-encode m [] = ([], [], [], refl, take-length_le m [] (omega arith), tt)
  take-encode m (r ∷ rs) = elim (Bool-cases (leb (length (line_of c r)) m)) [
    | inl whole ↦
        let (xs, ys, t, split, bytes, torn) = take-encode (m - length (line_of c r)) rs in
        (
          r ∷ xs,
          ys,
          t,
          ap (λ l. r ∷ l) split,
          take-append m (line_of c r) (encode c rs) (leb→le _ _ whole)
              ∙ ap (λ l. line_of c r ++ l) bytes
              ∙ sym (append_assoc (line_of c r) (encode c xs) t),
          torn,
        )
    | inr part ↦
        let short : m ≤ length (c.print r) = cut_short m r part in
        (
          [],
          r ∷ rs,
          take m (c.print r),
          refl,
          take-append_le m (line_of c r) (encode c rs) (ground (arith, part))
              ∙ take-append_le m (c.print r) (10 ∷ []) short,
          All-take _ m (c.print r) (c.print_one_line r),
        )
  ]
