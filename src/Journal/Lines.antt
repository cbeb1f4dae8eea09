-- ===== src/Journal/Lines.antt =====
-- Reading the lines of a chunk: the records that were printed come back, and a torn line is ignored.
use lane_broker.Prelude.{
  ℕ, ◌+◌, ◌≤◌, ◌≡◌, refl, sym, ap, subst, ◌∙◌, false, Option, none, some, List, [], ◌∷◌, ◌++◌,
  append-nil, append_assoc, arith, ◌==◌, length, length-append, All,
}
use lane_broker.Journal.{Codec, Located, Rec, ok, out_of_order, read_lines}
use lane_broker.Journal.Log.{line_of}

abbrev pub OneLine : List ℕ → Type 0
OneLine = All (λ b. (b == 10) ≡ false)

-- The bytes of records, one line each.
unfoldable pub encode : Codec → List Rec → List ℕ
encode c [] = []
encode c (r ∷ rs) = line_of c r ++ encode c rs

-- Where records stand that start at an offset.
unfoldable pub located : Codec → (offset : ℕ) → List Rec → List Located
located c offset [] = []
located c offset (r ∷ rs) =
    let end = offset + length (line_of c r) in
    record { rec = r; offset = offset; end = end } ∷ located c end rs

-- Records that a reader accepts: each bears the number after that of the one before it.
abbrev pub Follows : (want : Option ℕ) → List Rec → Type 0
Follows want [] = Unit
Follows want (r ∷ rs) = (out_of_order want r.seq ≡ false) × Follows (some (r.seq + 1)) rs

abbrev pub Numbered : (first : ℕ) → List Rec → Type 0
Numbered first [] = Unit
Numbered first (r ∷ rs) = (r.seq ≡ first) × Numbered (first + 1) rs

pub Numbered-Follows : (n : ℕ) (rs : List Rec) → Numbered n rs → Follows (some n) rs
unfolding out_of_order
Numbered-Follows n [] h = tt
Numbered-Follows n (r ∷ rs) h = (
  ground (arith, h.0),
  subst (λ k. Follows (some k) rs) (omega (arith, h.0)) (Numbered-Follows (n + 1) rs h.1),
)

pub out_of_order-false : (n m : ℕ) → out_of_order (some n) m ≡ false → m ≡ n
unfolding out_of_order
out_of_order-false n m e = ground (arith, e)

pub Follows-none : (n : ℕ) (rs : List Rec) → Follows (some n) rs → Follows none rs
unfolding out_of_order
Follows-none n [] h = tt
Follows-none n (r ∷ rs) h = (refl, h.1)

pub Follows-prefix :
    (want : Option ℕ) (xs ys : List Rec) → Follows want (xs ++ ys) → Follows want xs
Follows-prefix want [] ys h = tt
Follows-prefix want (x ∷ xs) ys h = (h.0, Follows-prefix (some (x.seq + 1)) xs ys h.1)

-- What stands behind some records is accepted by a reader that expects no number.
pub Follows-behind :
    (want : Option ℕ) (xs ys : List Rec) → Follows want (xs ++ ys) → Follows none ys
Follows-behind none [] ys h = h
Follows-behind (some n) [] ys h = Follows-none n ys h
Follows-behind want (x ∷ xs) ys h = Follows-behind (some (x.seq + 1)) xs ys h.1

pub Numbered-append :
    (n : ℕ) (xs ys : List Rec) → Numbered n xs → Numbered (n + length xs) ys → Numbered n (xs ++ ys)
Numbered-append n [] ys hx hy = subst (λ k. Numbered k ys) (omega arith) hy
Numbered-append n (x ∷ xs) ys hx hy =
    (hx.0, Numbered-append (n + 1) xs ys hx.1 (subst (λ k. Numbered k ys) (omega arith) hy))

pub Numbered-drop : (n : ℕ) (xs ys : List Rec) → Numbered n (xs ++ ys) → Numbered (n + length xs) ys
Numbered-drop n [] ys h = subst (λ k. Numbered k ys) (omega arith) h
Numbered-drop n (x ∷ xs) ys h =
    subst (λ k. Numbered k ys) (omega arith) (Numbered-drop (n + 1) xs ys h.1)

module _ (c : Codec) where
  pub encode-append : (xs ys : List Rec) → encode c (xs ++ ys) ≡ encode c xs ++ encode c ys
  unfolding encode
  encode-append [] ys = refl
  encode-append (x ∷ xs) ys =
      ap (λ l. line_of c x ++ l) (encode-append xs ys)
      ∙ sym (append_assoc (line_of c x) (encode c xs) (encode c ys))

  pub length-line_of : (r : Rec) → 1 ≤ length (line_of c r)
  unfolding line_of
  length-line_of r = omega (arith, length-append (c.print r) (10 ∷ []))

  read_lines-within :
      (at : ℕ) (line p bytes : List ℕ) (want : Option ℕ)
      → OneLine p
      → read_lines c at line want (p ++ bytes) ≡ read_lines c at (line ++ p) want bytes
  unfolding read_lines
  read_lines-within at line [] bytes want h =
      ap (λ l. read_lines c at l want bytes) (sym (append-nil line))
  read_lines-within at line (b ∷ p) bytes want h =
      rw (h.0, read_lines)
        (read_lines-within at (line ++ (b ∷ [])) p bytes want h.1
          ∙ ap (λ l. read_lines c at l want bytes) (append_assoc line (b ∷ []) p))

  -- A torn line is ignored.
  pub read_lines-torn :
      (at : ℕ) (line t : List ℕ) (want : Option ℕ) → OneLine t → read_lines c at line want t ≡ ok []
  unfolding read_lines
  read_lines-torn at line [] want h = refl
  read_lines-torn at line (b ∷ t) want h =
      rw (h.0, read_lines) (read_lines-torn at (line ++ (b ∷ [])) t want h.1)

  read_lines-first :
      (at : ℕ) (r : Rec) (want : Option ℕ) (bytes : List ℕ)
      → out_of_order want r.seq ≡ false
      → (ls : List Located)
      → read_lines c (at + length (c.print r) + 1) [] (some (r.seq + 1)) bytes ≡ ok ls
      → read_lines c at (c.print r) want (10 ∷ bytes)
        ≡ ok (record { rec = r; offset = at; end = at + length (c.print r) + 1 } ∷ ls)
  unfolding read_lines
  read_lines-first at r want bytes order ls rest =
      rw (c.parse-print r, order, rest, read_lines) refl

  pub read_lines-encode :
      (at : ℕ) (rs : List Rec) (t : List ℕ) (want : Option ℕ)
      → OneLine t
      → Follows want rs
      → read_lines c at [] want (encode c rs ++ t) ≡ ok (located c at rs)
  unfolding read_lines encode located line_of
  read_lines-encode at [] t want torn h = read_lines-torn at [] t want torn
  read_lines-encode at (r ∷ rs) t want torn h =
      let rest = encode c rs ++ t in
      let split : encode c (r ∷ rs) ++ t ≡ c.print r ++ (10 ∷ rest) =
        append_assoc (line_of c r) (encode c rs) t ∙ append_assoc (c.print r) (10 ∷ []) rest in
      let end : at + length (c.print r) + 1 ≡ at + length (line_of c r) =
        omega (arith, length-append (c.print r) (10 ∷ [])) in
      ap (read_lines c at [] want) split
      ∙ read_lines-within at [] (c.print r) (10 ∷ rest) want (c.print_one_line r)
      ∙ read_lines-first at r want rest h.0 _ (
          ap (λ k. read_lines c k [] (some (r.seq + 1)) rest) end
          ∙ read_lines-encode (at + length (line_of c r)) rs t (some (r.seq + 1)) torn h.1)
      ∙ ap
          (λ k.
            ok
              (record { rec = r; offset = at; end = k } ∷ located c (at + length (line_of c r)) rs))
          end
