-- ===== src/Journal/Recovery.antt =====
-- Opening the journal of src/store/journal.js: a torn tail is dropped, and the last number is found.
use lane_broker.Prelude.{
  ℕ, ◌+◌, ◌-◌, ◌≤◌, ◌<◌, min, ◌≡◌, ◌⊎◌, inl, inr, refl, sym, ap, subst, ◌∙◌, false, some, List, [],
  ◌∷◌, ◌++◌, append-nil, append_assoc, arith, leb, leb→le, ◌==◌, Bool-cases, length, length-append,
  drop, drop-append_le, length-drop,
}
use lane_broker.Journal.{Codec, Rec, ok}
use lane_broker.Journal.Log.{drop_torn_tail, line_of, second_last, split_lines, tail_seq}
use lane_broker.Journal.Lines.{
  Numbered, Numbered-drop, OneLine, encode, encode-append, length-line_of,
}
use lane_broker.Journal.Bytes.{All-suffix, Fits, encode_ends}
use lane_broker.Journal.Torn.{drop_torn_tail-line, drop_torn_tail-only}

-- What the lines of a text end with.
split_lines_some :
    (a : List ℕ) → (line : List ℕ) × (more : List (List ℕ)) × (split_lines a ≡ line ∷ more)
unfolding split_lines
split_lines_some [] = ([], [], refl)
split_lines_some (b ∷ a) =
    let (line, more, e) = split_lines_some a in
    elim (Bool-cases (b == 10)) [
      | inl nl ↦ ([], line ∷ more, rw (nl, e) refl)
      | inr in_line ↦ (b ∷ line, more, rw (in_line, e) refl)
    ]

split_lines-append : (a t : List ℕ) → split_lines (a ++ (10 ∷ t)) ≡ split_lines a ++ split_lines t
unfolding split_lines
split_lines-append [] t = refl
split_lines-append (b ∷ a) t =
    let (line, more, e) = split_lines_some a in ground (arith, split_lines-append a t, e)

split_lines-OneLine : (t : List ℕ) → OneLine t → split_lines t ≡ t ∷ []
unfolding split_lines
split_lines-OneLine [] h = refl
split_lines-OneLine (b ∷ t) h = rw (h.0, split_lines-OneLine t h.1) refl

second_last-append {ℓ} :
    {A : Type ℓ} (xs : List A) (x y : A) → second_last (xs ++ (x ∷ y ∷ [])) ≡ some x
unfolding second_last
second_last-append [] x y = refl
second_last-append (z ∷ []) x y = refl
second_last-append (z ∷ w ∷ []) x y = refl
second_last-append (z ∷ w ∷ v ∷ xs) x y = second_last-append (w ∷ v ∷ xs) x y

split_lines_nil : (p : List ℕ) → (p ∷ []) ++ split_lines [] ≡ p ∷ [] ∷ []
unfolding split_lines
split_lines_nil p = refl

length-nil {ℓ} : {A : Type ℓ} (xs : List A) → length xs ≡ 0 → xs ≡ []
length-nil [] e = refl
length-nil (x ∷ xs) e = absurd (omega (arith, e))

encode_nil : (c : Codec) → length (encode c []) ≡ 0
unfolding encode
encode_nil c = refl

snoc_cases {ℓ} :
    {A : Type ℓ} (xs : List A) → (xs ≡ []) ⊎ ((ys : List A) × (y : A) × (xs ≡ ys ++ (y ∷ [])))
snoc_cases [] = inl refl
snoc_cases (x ∷ xs) = elim (snoc_cases xs) [
  | inl e ↦ inr ([], x, ap (λ l. x ∷ l) e)
  | inr (ys, y, e) ↦ inr (x ∷ ys, y, ap (λ l. x ∷ l) e)
]

-- Bytes that end with a line, or none.
Clean : List ℕ → Type 0
Clean x = (x ≡ []) ⊎ ((a : List ℕ) × (x ≡ a ++ (10 ∷ [])))

second_last-Clean :
    (x p : List ℕ)
    → Clean x
    → OneLine p
    → second_last (split_lines (x ++ (p ++ (10 ∷ [])))) ≡ some p
unfolding Clean
second_last-Clean x p clean one =
    let lines : split_lines (p ++ (10 ∷ [])) ≡ p ∷ [] ∷ [] =
      split_lines-append p [] ∙ rw (split_lines-OneLine p one) (split_lines_nil p) in
    elim clean [
      | inl e ↦
          ap (λ y. second_last (split_lines (y ++ (p ++ (10 ∷ []))))) e
          ∙ ap second_last lines
          ∙ second_last-append [] p []
      | inr (a, e) ↦
          ap (λ y. second_last (split_lines (y ++ (p ++ (10 ∷ []))))) e
          ∙ ap (λ y. second_last (split_lines y)) (append_assoc a (10 ∷ []) (p ++ (10 ∷ [])))
          ∙ ap second_last
              (split_lines-append a (p ++ (10 ∷ [])) ∙ ap (λ y. split_lines a ++ y) lines)
          ∙ second_last-append (split_lines a) p []
    ]

module _ (c : Codec) where
  drop-Clean : (n : ℕ) (rs : List Rec) → n ≤ length (encode c rs) → Clean (drop n (encode c rs))
  unfolding Clean
  drop-Clean n [] within =
      inl (length-nil _ (omega (arith, within, length-drop n (encode c []), encode_nil c)))
  drop-Clean n (r ∷ rs) within =
      let (a, ends) = encode_ends c r rs in
      let long : length (encode c (r ∷ rs)) ≡ length a + 1 =
        ap length ends ∙ length-append a (10 ∷ []) ∙ omega arith in
      elim (Bool-cases (leb n (length a))) [
        | inl inside ↦
            inr (drop n a, ap (drop n) ends ∙ drop-append_le n a (10 ∷ []) (leb→le _ _ inside))
        | inr all ↦
            inl
              (length-nil _ (ground (arith, all, within, long, length-drop n (encode c (r ∷ rs)))))
      ]

  encode_one :
      (rs : List Rec) (r : Rec) → encode c rs ++ encode c (r ∷ []) ≡ encode c rs ++ line_of c r
  unfolding encode
  encode_one rs r = ap (λ l. encode c rs ++ l) (append-nil (line_of c r))

  line_last :
      (n : ℕ) (rs : List Rec) (r : Rec)
      → n ≤ length (encode c rs)
      → second_last (split_lines (drop n (encode c rs) ++ line_of c r)) ≡ some (c.print r)
  unfolding line_of
  line_last n rs r within =
      second_last-Clean (drop n (encode c rs)) (c.print r) (drop-Clean n rs within)
        (c.print_one_line r)

  tail_seq-line :
      (chunk : ℕ) (file line : List ℕ) (r : Rec)
      → 0 < length file
      → second_last (split_lines (drop (length file - min (length file) chunk) file)) ≡ some line
      → c.parse line ≡ some r
      → tail_seq c chunk file ≡ ok r.seq
  unfolding tail_seq
  tail_seq-line chunk file line r some_bytes found read =
      let more : (length file == 0) ≡ false = ground arith in rw (more, found, read) refl

  -- The bytes of the last chunk end with the last record's line.
  pub tail_seq-encode :
      (chunk : ℕ) (rs : List Rec) (r : Rec)
      → length (line_of c r) ≤ chunk
      → tail_seq c chunk (encode c (rs ++ (r ∷ []))) ≡ ok r.seq
  tail_seq-encode chunk rs r fits =
      let file = encode c (rs ++ (r ∷ [])) in
      let n = length file - min (length file) chunk in
      let split : file ≡ encode c rs ++ line_of c r =
        encode-append c rs (r ∷ []) ∙ encode_one rs r in
      let size = length-append (encode c rs) (line_of c r) in
      let before : n ≤ length (encode c rs) = omega (arith, ap length split, size) in
      tail_seq-line chunk file (c.print r) r
        (omega (arith, ap length split, size, length-line_of c r))
        (ap (λ y. second_last (split_lines y))
            (ap (drop n) split ∙ drop-append_le n (encode c rs) (line_of c r) before)
          ∙ line_last n rs r before)
        (c.parse-print r)

  -- Opening drops what follows the last line break.
  pub drop_torn_tail-encode :
      (chunk : ℕ) (rs : List Rec) (t : List ℕ)
      → OneLine t
      → length t ≤ chunk - 1
      → Fits c chunk rs
      → drop_torn_tail chunk (encode c rs ++ t) ≡ ok (encode c rs)
  unfolding encode
  drop_torn_tail-encode chunk [] t one short fits = drop_torn_tail-only chunk t one (omega arith)
  drop_torn_tail-encode chunk (r ∷ rs) t one short fits =
      let (a, ends) = encode_ends c r rs in
      ap (λ l. drop_torn_tail chunk (l ++ t)) ends
      ∙ ap (drop_torn_tail chunk) (append_assoc a (10 ∷ []) t)
      ∙ drop_torn_tail-line chunk a t one (omega (arith, fits.0, length-line_of c r))
      ∙ ap ok (sym ends)

  -- The last number of records that are numbered from 1 is their count.
  pub tail_seq-Numbered :
      (chunk : ℕ) (rs : List Rec)
      → Numbered 1 rs
      → Fits c chunk rs
      → tail_seq c chunk (encode c rs) ≡ ok (length rs)
  unfolding tail_seq encode
  tail_seq-Numbered chunk rs numbered fits = elim (snoc_cases rs) [
    | inl none_yet ↦ rw none_yet refl
    | inr (xs, x, e) ↦
        ap (λ l. tail_seq c chunk (encode c l)) e
        ∙ tail_seq-encode chunk xs x
            (All-suffix (λ s. length (line_of c s) ≤ chunk) xs (x ∷ [])
              (subst (Fits c chunk) e fits)).0
        ∙ ap ok (
            omega (
              arith,
              (Numbered-drop 1 xs (x ∷ []) (subst (Numbered 1) e numbered)).0,
              ap length e,
              length-append xs (x ∷ []),
            ))
  ]
