-- ===== src/Journal/Torn.antt =====
-- Opening the journal of src/store/journal.js: the bytes of a torn line are dropped.
use lane_broker.Prelude.{
  ℕ, zero, suc, ◌+◌, ◌-◌, ◌≤◌, ◌<◌, min, ◌≡◌, refl, ap, ◌∙◌, true, false, none, some, List, [], ◌∷◌,
  ◌++◌, arith, length, last?, length-append, take, drop, take-append, drop-append_le, length-drop,
}
use lane_broker.Journal.{last_newline, ok}
use lane_broker.Journal.Log.{drop_torn_tail, is_torn}
use lane_broker.Journal.Lines.{OneLine}
use lane_broker.Journal.Bytes.{last_newline-OneLine, last_newline-append}

last?-append {ℓ} : {A : Type ℓ} (xs ys : List A) (y : A) → last? (xs ++ (y ∷ ys)) ≡ last? (y ∷ ys)
last?-append [] ys y = refl
last?-append (x ∷ []) ys y = refl
last?-append (x ∷ z ∷ xs) ys y = last?-append (z ∷ xs) ys y

is_torn-OneLine : (b : ℕ) (t : List ℕ) → OneLine (b ∷ t) → is_torn (b ∷ t) ≡ true
unfolding is_torn
is_torn-OneLine b [] h = ground (arith, h.0)
is_torn-OneLine b (d ∷ t) h = is_torn-OneLine d t h.1

is_torn-append : (xs ys : List ℕ) (y : ℕ) → is_torn (xs ++ (y ∷ ys)) ≡ is_torn (y ∷ ys)
unfolding is_torn
is_torn-append xs ys y = rw (last?-append xs ys y, is_torn) refl

is_torn_newline : is_torn (10 ∷ []) ≡ false
unfolding is_torn
is_torn_newline = refl

take_past : (a t : List ℕ) → take (length a + 1) (a ++ (10 ∷ t)) ≡ a ++ (10 ∷ [])
take_past a t =
    let one : length a + 1 - length a ≡ suc zero = omega arith in
    take-append (length a + 1) a (10 ∷ t) (omega arith) ∙ ap (λ k. a ++ take k (10 ∷ t)) one

is_torn_behind : (b : ℕ) (t : List ℕ) → is_torn (10 ∷ b ∷ t) ≡ is_torn (b ∷ t)
unfolding is_torn
is_torn_behind b t = refl

drop_torn_tail-cut :
    (chunk : ℕ) (file probe : List ℕ) (nl : ℕ)
    → drop (length file - min (length file) chunk) file ≡ probe
    → is_torn probe ≡ true
    → last_newline probe ≡ some nl
    → drop_torn_tail chunk file ≡ ok (take (length file - length probe + nl + 1) file)
unfolding drop_torn_tail
drop_torn_tail-cut chunk file probe nl seen torn found =
    rw (seen, torn, found) (ap (λ p. ok (take (length file - length p + nl + 1) file)) seen)

drop_torn_tail-none :
    (chunk : ℕ) (file : List ℕ)
    → drop (length file - min (length file) chunk) file ≡ file
    → is_torn file ≡ true
    → last_newline file ≡ none
    → drop_torn_tail chunk file ≡ ok []
unfolding drop_torn_tail
drop_torn_tail-none chunk file seen torn found = rw (seen, torn, found) (ground arith)

-- The bytes behind the last line break are dropped, if they are fewer than the chunk that is looked at.
pub drop_torn_tail-line :
    (chunk : ℕ) (a t : List ℕ)
    → OneLine t
    → length t < chunk
    → drop_torn_tail chunk (a ++ (10 ∷ t)) ≡ ok (a ++ (10 ∷ []))
unfolding drop_torn_tail
drop_torn_tail-line chunk a [] one short =
    let n = length (a ++ (10 ∷ [])) - min (length (a ++ (10 ∷ []))) chunk in
    let probe : drop n (a ++ (10 ∷ [])) ≡ drop n a ++ (10 ∷ []) =
      drop-append_le n a (10 ∷ []) (omega (arith, length-append a (10 ∷ []))) in
    let whole : is_torn (drop n a ++ (10 ∷ [])) ≡ false =
      is_torn-append (drop n a) [] 10 ∙ is_torn_newline in
    rw (probe, whole) refl
drop_torn_tail-line chunk a (b ∷ t) one short =
    let file = a ++ (10 ∷ b ∷ t) in
    let n = length file - min (length file) chunk in
    let size : length file ≡ length a + suc (suc (length t)) = length-append a (10 ∷ b ∷ t) in
    let before : n ≤ length a = omega (arith, size) in
    let probe : drop n file ≡ drop n a ++ (10 ∷ b ∷ t) = drop-append_le n a (10 ∷ b ∷ t) before in
    let torn : is_torn (drop n a ++ (10 ∷ b ∷ t)) ≡ true =
      is_torn-append (drop n a) (b ∷ t) 10 ∙ is_torn_behind b t ∙ is_torn-OneLine b t one in
    let nl : last_newline (drop n a ++ (10 ∷ b ∷ t)) ≡ some (length (drop n a)) =
      last_newline-append (drop n a) (b ∷ t) one in
    let kept : length file - length (drop n a ++ (10 ∷ b ∷ t)) + length (drop n a) + 1
        ≡ length a + 1 =
      omega (arith, size, before, length-drop n a, length-append (drop n a) (10 ∷ b ∷ t)) in
    drop_torn_tail-cut chunk file (drop n a ++ (10 ∷ b ∷ t)) _ probe torn nl
    ∙ ap (λ k. ok (take k file)) kept
    ∙ ap ok (take_past a (b ∷ t))

pub drop_torn_tail-only :
    (chunk : ℕ) (t : List ℕ) → OneLine t → length t ≤ chunk → drop_torn_tail chunk t ≡ ok []
unfolding drop_torn_tail is_torn
drop_torn_tail-only chunk [] one short = let n : 0 - min 0 chunk ≡ zero = omega arith in rw n refl
drop_torn_tail-only chunk (b ∷ t) one short =
    let n : length (b ∷ t) - min (length (b ∷ t)) chunk ≡ 0 = omega arith in
    drop_torn_tail-none chunk (b ∷ t) (ap (λ k. drop k (b ∷ t)) n) (is_torn-OneLine b t one)
      (last_newline-OneLine (b ∷ t) one)
