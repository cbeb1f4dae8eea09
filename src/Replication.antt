-- ===== src/Replication.antt =====
-- The replicator of the object store (src/store/replicate.js) over the journal. What the disk and the
-- replica answer while one record is shipped is the argument `Answers`: `none` also where a call throws.
-- A record of a job's state has the job's manifest for a path, and `value` is `pinned` or `terminalAt`.
mod Settled
mod Stands
mod Drain
mod Watermark
mod Round
mod Tests
use lane_broker.Prelude.{
  ℕ, zero, suc, ◌+◌, Bool, true, false, not, ◌&&◌, Option, none, some, List, [], ◌∷◌, ◌==◌,
  if◌then◌else◌, any_by,
}
use lane_broker.Journal.{
  Codec, Entry, Kind, Located, blob, delete, delete_cancel, delete_intent, err, manifest, ok, pin,
  read_journal_from, terminal,
}
use lane_broker.Journal.Log.{Journal, iterate}

-- replication.json
pub record ReplicationState : Type 0 where
  pub replicated_seq : ℕ
  pub replicated_offset : ℕ
  pub failed_rounds : ℕ
  pub last_round_at : Option ℕ

pub data PutAnswer : Type 0 where
  stored : PutAnswer
  missing_blobs : (shas : List ℕ) → PutAnswer
  failed : PutAnswer

-- The answers while one missing blob is shipped again: the file's hash and size, where it exists.
pub record BlobAnswers : Type 0 where
  pub hash : Option (ℕ × ℕ)
  pub stored_again : Bool
  pub seen : Option (ℕ × ℕ)

pub record Answers : Type 0 where
  pub exists : Bool
  pub put : PutAnswer
  pub blob_answers : ℕ → BlobAnswers
  pub put_again : Bool
  pub seen : Option (ℕ × ℕ)
  pub applied : Option Bool
  pub terminal_here : Bool
  pub job_value : Option (Option ℕ)
  pub owner : Bool

pub data Outcome : Type 0 where
  shipped skipped local : Outcome

-- `!(seen && seen.sha256 === sha && seen.size === size)`
unfoldable pub verified : (sha size : ℕ) → Option (ℕ × ℕ) → Bool
verified sha size none = false
verified sha size (some (h, z)) = h == sha && z == size

abbrev pub is_delete : Kind → Bool
is_delete delete = true
is_delete blob = false
is_delete manifest = false
is_delete terminal = false
is_delete pin = false
is_delete delete_intent = false
is_delete delete_cancel = false

abbrev pub is_manifest : Kind → Bool
is_manifest manifest = true
is_manifest blob = false
is_manifest terminal = false
is_manifest pin = false
is_manifest delete_intent = false
is_manifest delete = false
is_manifest delete_cancel = false

-- Whether a committed `delete` of the path follows; `none` where the journal cannot be read.
unfoldable pub committed_deletion : Codec → (chunk path from : ℕ) → Journal → Option Bool
committed_deletion c chunk path from j = elim (iterate c chunk from j) [
  | err e ↦ none
  | ok ls ↦ some (any_by (λ l. is_delete l.rec.entry.kind && l.rec.entry.path == path) ls)
]

-- Each missing blob is found intact here, stored and seen at the replica; else `restoreBlobs` throws.
unfoldable pub restore_blobs : (ℕ → BlobAnswers) → List ℕ → Bool
restore_blobs answers [] = true
restore_blobs answers (sha ∷ shas) =
    let a = answers sha in
    elim a.hash [
      | none ↦ false
      | some (h, size) ↦ h == sha && a.stored_again && verified sha size a.seen
    ]
    && restore_blobs answers shas

unfoldable pub put_object : Entry → Answers → Bool
put_object e a = elim a.put [
  | stored ↦ true
  | failed ↦ false
  | missing_blobs shas ↦ is_manifest e.kind && restore_blobs a.blob_answers shas && a.put_again
]

-- The outcome, `none` where it throws.
unfoldable pub ship_object : Codec → (chunk : ℕ) → Journal → Answers → Located → Option Outcome
ship_object c chunk j a l =
    let e = l.rec.entry in
    if not a.exists
    then elim (committed_deletion c chunk e.path l.end j) [
      | some true ↦ some skipped
      | some false ↦ none
      | none ↦ none
    ]
    else if put_object e a && verified e.sha e.size a.seen
    then some shipped
    else none

unfoldable pub same_value : Option ℕ → Option ℕ → Bool
same_value none none = true
same_value (some x) (some y) = x == y
same_value none (some y) = false
same_value (some x) none = false

unfoldable pub ship_state : Codec → (chunk : ℕ) → Journal → Answers → Located → Option Outcome
ship_state c chunk j a l =
    let e = l.rec.entry in
    elim a.applied [
      | none ↦ none
      | some true ↦ elim a.job_value [
        | none ↦ none
        | some v ↦ if same_value v e.value then some shipped else none
      ]
      | some false ↦
          if a.exists && a.terminal_here
          then some skipped
          else if a.exists
          then none
          else elim (committed_deletion c chunk e.path l.end j) [
            | some true ↦ some skipped
            | some false ↦ none
            | none ↦ none
          ]
    ]

unfoldable pub ship_as : Kind → Codec → (chunk : ℕ) → Journal → Answers → Located → Option Outcome
ship_as blob c chunk j a l = ship_object c chunk j a l
ship_as manifest c chunk j a l = ship_object c chunk j a l
ship_as terminal c chunk j a l = ship_state c chunk j a l
ship_as pin c chunk j a l = ship_state c chunk j a l
ship_as delete c chunk j a l = some local
ship_as delete_intent c chunk j a l = some local
ship_as delete_cancel c chunk j a l = some local

abbrev pub ship : Codec → (chunk : ℕ) → Journal → Answers → Located → Option Outcome
ship c chunk j a l = ship_as l.rec.entry.kind c chunk j a l

-- How a pass over some entries ends: all were shipped, one threw, or the store has another owner.
pub data Ending : Type 0 where
  drained threw displaced : Ending

-- The entries of one chunk. The state is that of the file, which is written after each entry.
unfoldable pub ship_entries :
    Codec
    → (chunk : ℕ) → Journal
    → (Located → Answers)
    → List Located
    → ReplicationState
    → ReplicationState × Ending
ship_entries c chunk j answers [] s = (s, drained)
ship_entries c chunk j answers (l ∷ ls) s = elim (ship c chunk j (answers l) l) [
  | none ↦ (s, threw)
  | some outcome ↦ elim ((answers l).owner) [
    | false ↦ (s, displaced)
    | true ↦
        ship_entries c chunk j answers ls
          (record s { replicated_seq = l.rec.seq; replicated_offset = l.end })
  ]
]

-- The chunks until one is empty; `none` where the fuel runs out.
unfoldable pub drain :
    Codec
    → (chunk : ℕ) → Journal
    → (Located → Answers)
    → (fuel : ℕ) → ReplicationState
    → Option (ReplicationState × Ending)
drain c chunk j answers zero s = none
drain c chunk j answers (suc fuel) s =
    elim (read_journal_from c (some j.file) s.replicated_offset chunk (some (s.replicated_seq + 1))
      (some j.committed_offset)) [
        | err e ↦ some (s, threw)
        | ok [] ↦ some (s, drained)
        | ok (l ∷ ls) ↦
            let (after, ending) = ship_entries c chunk j answers (l ∷ ls) s in
            elim ending [
              | drained ↦ drain c chunk j answers fuel after
              | threw ↦ some (after, threw)
              | displaced ↦ some (after, displaced)
            ]
      ]

-- The round: what the file holds in the end, and whether it succeeded; `owns` is the last ownership check.
unfoldable pub round :
    Codec
    → (chunk : ℕ) → Journal
    → (Located → Answers)
    → (owns : Bool) (now fuel : ℕ) → ReplicationState
    → Option (ReplicationState × Ending)
round c chunk j answers owns now fuel s = elim (drain c chunk j answers fuel s) [
  | none ↦ none
  | some (after, ending) ↦ elim ending [
    | displaced ↦ some (after, displaced)
    | threw ↦
        if owns
        then some (
          record after { failed_rounds = after.failed_rounds + 1; last_round_at = some now },
          threw,
        )
        else some (after, displaced)
    | drained ↦
        if owns
        then some (record after { failed_rounds = 0; last_round_at = some now }, drained)
        else some (after, displaced)
  ]
]
