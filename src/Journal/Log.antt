-- ===== src/Journal/Log.antt =====
-- The class `Journal` of src/store/journal.js: opening the file, appending to it, and what is kept in
-- memory. `chunk` is DEFAULT_CHUNK_BYTES.
use lane_broker.Prelude.{
  ℕ, suc, ◌+◌, ◌-◌, ◌%◌, min, Bool, true, false, not, Option, none, some, List, [], ◌∷◌, ◌++◌, map,
  ltb, leb, ◌==◌, if◌then◌else◌, length, filter_by, last?, take, drop,
}
use lane_broker.Journal.{
  Codec, Entry, Kind, Located, Rec, Result, ◌>>=◌, bad_json, bad_watermark, blob, delete,
  delete_cancel, delete_intent, err, iterate_journal, last_newline, manifest, no_newline, not_owner,
  not_written, ok, pin, terminal, unusable,
}

-- The watermark in replication.json.
pub record Watermark : Type 0 where
  pub seq : ℕ
  pub offset : ℕ

pub record Journal : Type 0 where
  pub file : List ℕ
  pub committed_offset : ℕ
  pub committed_seq : ℕ
  pub track_pending : Bool
  pub pending : List (ℕ × ℕ)
  pub broken : Bool

-- `probe.length && probe[probe.length - 1] !== 0x0a`
unfoldable pub is_torn : List ℕ → Bool
is_torn probe = elim (last? probe) [ none ↦ false | some b ↦ not (b == 10) ]

unfoldable pub drop_torn_tail : (chunk : ℕ) (file : List ℕ) → Result (List ℕ)
drop_torn_tail chunk file =
    let size = length file in
    let probe = drop (size - min size chunk) file in
    if not (is_torn probe) then ok file else elim (last_newline probe) [
      | none ↦ if length probe == size then ok [] else err no_newline
      | some nl ↦ ok (take (size - length probe + nl + 1) file)
    ]

-- `text.split('\n')`
unfoldable pub split_lines : List ℕ → List (List ℕ)
split_lines [] = [] ∷ []
split_lines (b ∷ bytes) =
    let rest = split_lines bytes in
    if b == 10
    then [] ∷ rest
    else elim rest [ [] ↦ (b ∷ []) ∷ [] | line ∷ more ↦ (b ∷ line) ∷ more ]

-- `lines[lines.length - 2]`
unfoldable pub second_last {ℓ} : {A : Type ℓ} → List A → Option A
second_last [] = none
second_last (x ∷ []) = none
second_last (x ∷ y ∷ []) = some x
second_last (x ∷ y ∷ z ∷ rest) = second_last (y ∷ z ∷ rest)

unfoldable pub tail_seq : Codec → (chunk : ℕ) (file : List ℕ) → Result ℕ
tail_seq c chunk file =
    let size = length file in
    if size == 0
    then ok 0
    else elim (second_last (split_lines (drop (size - min size chunk) file))) [
      | none ↦ err bad_json
      | some line ↦ elim (c.parse line) [ none ↦ err bad_json | some r ↦ ok r.seq ]
    ]

unfoldable pub pending_of : Located → ℕ × ℕ
pending_of l = (l.rec.seq, l.rec.entry.created_at)

-- The records above the watermark, where they are tracked.
unfoldable pub pending_above :
    Codec
    → (chunk : ℕ) (track_pending : Bool) (mark : Watermark) (file : List ℕ) → Result (List (ℕ × ℕ))
pending_above c chunk track_pending mark file =
    if ltb (length file) mark.offset
    then err bad_watermark
    else if not track_pending
    then ok []
    else do
      above ←
          iterate_journal c (some file) chunk (some (length file)) (suc (length file)) mark.offset
      ok (map pending_of (filter_by (λ l. ltb mark.seq l.rec.seq) above))

-- The constructor, over the file that stands there or a new one.
unfoldable pub open_journal :
    Codec
    → (chunk : ℕ) (track_pending : Bool) (mark : Watermark) (file : Option (List ℕ))
    → Result Journal
open_journal c chunk track_pending mark file = do
  kept ← elim file as (λ f. Result (List ℕ)) [
    | none ↦ ok []
    | some bytes ↦ drop_torn_tail chunk bytes
  ]
  seq ← tail_seq c chunk kept
  pending ← pending_above c chunk track_pending mark kept
  ok (record {
    file = kept;
    committed_offset = length kept;
    committed_seq = seq;
    track_pending = track_pending;
    pending = pending;
    broken = false;
  })

-- What becomes of one append: written and synced; not, and the rollback succeeds; or the first `kept`
-- bytes of the line stay in the file, since the rollback fails or the process dies.
pub data Fate : Type 0 where
  durable : Fate
  rolled_back : Fate
  left : (kept : ℕ) → Fate

unfoldable pub line_of : Codec → Rec → List ℕ
line_of c r = c.print r ++ (10 ∷ [])

unfoldable pub drop_replicated : (replicated_seq : ℕ) → List (ℕ × ℕ) → List (ℕ × ℕ)
drop_replicated mark [] = []
drop_replicated mark ((seq, at) ∷ rest) =
    let more = drop_replicated mark rest in if leb seq mark then more else (seq, at) ∷ rest

-- The journal after `oldestPendingCreatedAt`, and what it returns.
unfoldable pub oldest_pending_created_at : (mark : Watermark) → Journal → Journal × Option ℕ
oldest_pending_created_at mark j =
    if not j.track_pending
    then (j, none)
    else let kept = drop_replicated mark.seq j.pending in
      (record j { pending = kept }, elim kept [ [] ↦ none | (seq, at) ∷ rest ↦ some at ])

unfoldable pub append :
    Codec → (owner : Bool) (mark : Watermark) → Entry → Fate → Journal → Journal × Result Located
append c owner mark entry fate j =
    if j.broken
    then (j, err unusable)
    else if not owner
    then (j, err not_owner)
    else let start = j.committed_offset in
      let rec : Rec = record { seq = j.committed_seq + 1; entry = entry } in
      let buf = line_of c rec in
      elim fate [
        | rolled_back ↦ (record j { file = take start j.file }, err not_written)
        | left kept ↦ (record j { file = j.file ++ take kept buf; broken = true }, err not_written)
        | durable ↦
            let end = start + length buf in
            let written : Journal = record j {
              file = j.file ++ buf;
              committed_seq = rec.seq;
              committed_offset = end;
            } in
            let noted : Journal = record written {
              pending = j.pending ++ ((rec.seq, entry.created_at) ∷ []);
            } in
            let next : Journal =
              if not j.track_pending
              then written
              else if length noted.pending % 8192 == 0
              then (oldest_pending_created_at mark noted).0
              else noted in
            (next, ok (record { rec = rec; offset = start; end = end }))
      ]

-- `iterate` of the journal: what is committed.
unfoldable pub iterate : Codec → (max_bytes offset : ℕ) → Journal → Result (List Located)
iterate c max_bytes offset j =
    iterate_journal c (some j.file) max_bytes (some j.committed_offset) (suc (length j.file)) offset

pub data Status : Type 0 where
  put intent deleted : Status

unfoldable pub status_after : Kind → Option Status
status_after blob = some put
status_after manifest = some put
status_after delete_cancel = some put
status_after delete_intent = some intent
status_after delete = some deleted
status_after terminal = none
status_after pin = none

-- `state.get(path)` after the records, from what it was before them.
unfoldable pub object_state : (path : ℕ) → Option Status → List Located → Option Status
object_state path was [] = was
object_state path was (l ∷ ls) =
    object_state path
      (if l.rec.entry.path == path
        then elim (status_after l.rec.entry.kind) [ none ↦ was | some s ↦ some s ]
        else was)
      ls
