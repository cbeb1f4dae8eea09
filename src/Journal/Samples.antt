-- ===== src/Journal/Samples.antt =====
-- A simple text for the records of the journal, and records to try it on.
use lane_broker.Prelude.{
  ℕ, ◌+◌, ◌-◌, ◌≤◌, ◌≡◌, refl, true, false, Option, none, some, List, [], ◌∷◌, arith, ◌==◌,
  if◌then◌else◌, All,
}
use lane_broker.Journal.{
  Codec, Entry, Kind, Rec, blob, delete, delete_cancel, delete_intent, manifest, pin, terminal,
}
use lane_broker.Journal.Log.{Journal, Watermark}

abbrev pub kind_code : Kind → ℕ
kind_code blob = 11
kind_code manifest = 12
kind_code terminal = 13
kind_code pin = 14
kind_code delete_intent = 15
kind_code delete = 16
kind_code delete_cancel = 17

abbrev pub kind_of : ℕ → Kind
kind_of n =
    if n == 11
    then blob
    else if n == 12
    then manifest
    else if n == 13
    then terminal
    else if n == 14
    then pin
    else if n == 15
    then delete_intent
    else if n == 16
    then delete
    else delete_cancel

abbrev pub value_code : Option ℕ → ℕ
value_code none = 11
value_code (some n) = n + 12

abbrev pub value_of : ℕ → Option ℕ
value_of n = if n == 11 then none else some (n - 12)

abbrev pub sample_print : Rec → List ℕ
sample_print r =
    (r.seq + 11)
    ∷ kind_code r.entry.kind
    ∷ (r.entry.path + 11)
    ∷ (r.entry.sha + 11)
    ∷ (r.entry.size + 11)
    ∷ value_code r.entry.value
    ∷ (r.entry.created_at + 11)
    ∷ []

abbrev pub sample_parse : List ℕ → Option Rec
sample_parse (s ∷ k ∷ p ∷ h ∷ z ∷ v ∷ t ∷ []) = some (record {
  seq = s - 11;
  entry = record {
    kind = kind_of k;
    path = p - 11;
    sha = h - 11;
    size = z - 11;
    value = value_of v;
    created_at = t - 11;
  };
})
sample_parse other = none

kind_code-above : (k : Kind) → 11 ≤ kind_code k
kind_code-above blob = omega arith
kind_code-above manifest = omega arith
kind_code-above terminal = omega arith
kind_code-above pin = omega arith
kind_code-above delete_intent = omega arith
kind_code-above delete = omega arith
kind_code-above delete_cancel = omega arith

kind_of-kind_code : (k : Kind) → kind_of (kind_code k) ≡ k
kind_of-kind_code blob = refl
kind_of-kind_code manifest = refl
kind_of-kind_code terminal = refl
kind_of-kind_code pin = refl
kind_of-kind_code delete_intent = refl
kind_of-kind_code delete = refl
kind_of-kind_code delete_cancel = refl

value_code-above : (v : Option ℕ) → 11 ≤ value_code v
value_code-above none = omega arith
value_code-above (some n) = omega arith

value_of-value_code : (v : Option ℕ) → value_of (value_code v) ≡ v
value_of-value_code none = refl
value_of-value_code (some n) = ground arith

pub sample_parse-print : (r : Rec) → sample_parse (sample_print r) ≡ some r
sample_parse-print r =
    ground (arith, kind_of-kind_code r.entry.kind, value_of-value_code r.entry.value)

above_newline : (b : ℕ) → 11 ≤ b → (b == 10) ≡ false
above_newline b h = ground arith

pub sample_print_one_line : (r : Rec) → All (λ b. (b == 10) ≡ false) (sample_print r)
sample_print_one_line r = (
  above_newline _ (omega arith),
  (
    above_newline _ (kind_code-above r.entry.kind),
    (
      above_newline _ (omega arith),
      (
        above_newline _ (omega arith),
        (
          above_newline _ (omega arith),
          (above_newline _ (value_code-above r.entry.value), (above_newline _ (omega arith), tt)),
        ),
      ),
    ),
  ),
)

abbrev pub codec : Codec
codec = record {
  print = sample_print;
  parse = sample_parse;
  parse-print = sample_parse-print;
  print_one_line = sample_print_one_line;
}

abbrev pub put_blob : (path : ℕ) → Entry
put_blob p = record {
  kind = blob;
  path = p;
  sha = p + 100;
  size = 5;
  value = none;
  created_at = p + 1000;
}

abbrev pub unmarked : Watermark
unmarked = record { seq = 0; offset = 0 }

abbrev pub fresh : Journal
fresh = record {
  file = [];
  committed_offset = 0;
  committed_seq = 0;
  track_pending = true;
  pending = [];
  broken = false;
}

abbrev pub one_rec : List Rec
one_rec = record { seq = 1; entry = put_blob 1 } ∷ []

abbrev pub two_recs : List Rec
two_recs = record { seq = 2; entry = put_blob 2 } ∷ record { seq = 3; entry = put_blob 3 } ∷ []
