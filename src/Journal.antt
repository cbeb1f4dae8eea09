-- ===== src/Journal.antt =====
-- The journal of the object store (src/store/journal.js): a file of lines, one record each, as bytes. The
-- JSON text of a record is the argument `Codec`. What the file system does to one append is the argument
-- `Fate`. A time, a path and a hash are numbers; a record of a job's state has its manifest for a path.
pub mod Log
pub mod Lines
pub mod Bytes
pub mod Reading
mod Torn
mod Recovery
pub mod Run
pub mod Durable
pub mod Acknowledged
mod Tracked
mod Pending
pub mod Samples
mod Tests
use lane_broker.Prelude.{
  ℕ, zero, suc, ◌+◌, ◌-◌, ◌≤◌, min, Bool, true, false, not, ◌&&◌, ◌||◌, Option, none, some, List,
  [], ◌∷◌, ◌++◌, ltb, leb, ◌==◌, if◌then◌else◌, length, take, drop, filter_by, last?, ◌≡◌, All,
  or_else, map, is_some,
}

pub data Kind : Type 0 where
  blob manifest terminal pin delete_intent delete delete_cancel : Kind

pub record Entry : Type 0 where
  pub kind : Kind
  pub path : ℕ
  pub sha : ℕ
  pub size : ℕ
  pub value : Option ℕ
  pub created_at : ℕ

pub record Rec : Type 0 where
  pub seq : ℕ
  pub entry : Entry

-- `JSON.stringify` and `JSON.parse`: what is printed has no line break, and is read back.
pub record Codec : Type 0 where
  pub print : Rec → List ℕ
  pub parse : List ℕ → Option Rec
  pub parse-print : (r : Rec) → parse (print r) ≡ some r
  pub print_one_line : (r : Rec) → All (λ b. (b == 10) ≡ false) (print r)

-- A record with its start and its end in the file.
pub record Located : Type 0 where
  pub rec : Rec
  pub offset : ℕ
  pub end : ℕ

pub data Fault : Type 0 where
  bad_json too_large out_of_step no_newline bad_watermark unusable not_owner not_written no_fuel :
      Fault

pub data Result {ℓ} (A : Type ℓ) : Type ℓ where
  ok : A → Result A
  err : Fault → Result A

infixl 5 ◌>>=◌
abbrev pub ◌>>=◌ {ℓ κ} : {A : Type ℓ} {B : Type κ} → Result A → (A → Result B) → Result B
ok a >>= f = f a
err e >>= f = err e

-- `want !== undefined && rec.seq !== want`
unfoldable pub out_of_order : (want : Option ℕ) → (seq : ℕ) → Bool
out_of_order none seq = false
out_of_order (some n) seq = not (seq == n)

-- The complete records of a chunk that starts with the bytes `line` at offset `start`.
unfoldable pub read_lines :
    Codec → (start : ℕ) (line : List ℕ) (want : Option ℕ) → List ℕ → Result (List Located)
read_lines c start line want [] = ok []
read_lines c start line want (b ∷ bytes) = elim (b == 10) [
  | true ↦ elim (c.parse line) [
    | none ↦ err bad_json
    | some rec ↦ elim (out_of_order want rec.seq) [
      | true ↦ err out_of_step
      | false ↦ do
        let end = start + length line + 1
        rest ← read_lines c end [] (some (rec.seq + 1)) bytes
        ok (record { rec = rec; offset = start; end = end } ∷ rest)
    ]
  ]
  | false ↦ read_lines c start (line ++ (b ∷ [])) want bytes
]

unfoldable pub last_newline : List ℕ → Option ℕ
last_newline [] = none
last_newline (b ∷ bytes) = elim (last_newline bytes) [
  | none ↦ if b == 10 then some 0 else none
  | some n ↦ some (suc n)
]

-- One chunk of `max_bytes` at most from `offset`, below `limit`; `none` where there is no file.
unfoldable pub read_journal_from :
    Codec
    → (file : Option (List ℕ)) (offset max_bytes : ℕ) (expect_seq limit : Option ℕ)
    → Result (List Located)
read_journal_from c none offset max_bytes expect_seq limit = ok []
read_journal_from c (some file) offset max_bytes expect_seq limit =
    let size = min (length file) (or_else limit (length file)) in
    if leb size offset
    then ok []
    else let buf = take (min max_bytes (size - offset)) (drop offset file) in
      if not (is_some (last_newline buf))
      then if length buf == max_bytes then err too_large else ok []
      else read_lines c offset [] expect_seq buf

unfoldable pub last_end : Located → List Located → ℕ
last_end r [] = r.end
last_end r (s ∷ rest) = last_end s rest

-- The chunks until one is empty; `fuel` bounds them.
unfoldable pub iterate_journal :
    Codec
    → (file : Option (List ℕ)) (max_bytes : ℕ) (limit : Option ℕ) (fuel at : ℕ)
    → Result (List Located)
iterate_journal c file max_bytes limit zero at = err no_fuel
iterate_journal c file max_bytes limit (suc fuel) at =
    elim (read_journal_from c file at max_bytes none limit) [
      | err e ↦ err e
      | ok [] ↦ ok []
      | ok (r ∷ rs) ↦ do
        rest ← iterate_journal c file max_bytes limit fuel (last_end r rs)
        ok ((r ∷ rs) ++ rest)
    ]
