-- ===== src/Retention.antt =====
-- Retention of the object store (src/store/retention.js): one sweep over the manifests and blobs. A
-- manifest lists the blobs of a job, or cannot be read; what `store.deleteObject` does to one object is
-- its removal, which it defers while the object is being hashed. Job ids and hashes are numbers.
mod Protected
mod Sweep
mod Tests
use lane_broker.Prelude.{
  ℕ, ◌+◌, ◌*◌, Bool, true, false, not, ◌&&◌, ◌||◌, Option, none, some, List, [], ◌∷◌, ltb, leb,
  ◌==◌, if◌then◌else◌, filter_by, any_by, sum_by, is_some, sort_by,
}

pub record Job : Type 0 where
  pub id : ℕ
  pub pinned : Bool
  pub terminal_at : Option ℕ
  pub entries : Option (List ℕ)
  pub size : ℕ
  pub hashing : Bool

pub record Blob : Type 0 where
  pub sha : ℕ
  pub modified_at : ℕ
  pub size : ℕ
  pub hashing : Bool

pub record Store : Type 0 where
  pub jobs : List Job
  pub blobs : List Blob

-- The times after which a manifest and an unreferenced blob go, and the cap in bytes, if there is one.
pub record Retention : Type 0 where
  pub manifest_after_terminal_ms : ℕ
  pub unreferenced_blob_ms : ℕ
  pub cap_bytes : Option ℕ

abbrev pub is_protected : Job → Bool
is_protected j = j.pinned || not (is_some j.terminal_at)

-- `store.jobBlobs(job)` has this hash.
abbrev pub has_entry : (sha : ℕ) → Job → Bool
has_entry sha j = elim j.entries [ none ↦ false | some es ↦ any_by (λ e. e == sha) es ]

-- `referencedBlobs(store)` has it.
abbrev pub is_referenced : List Job → (sha : ℕ) → Bool
is_referenced jobs sha = any_by (has_entry sha) jobs

unfoldable pub is_expired : Retention → (now : ℕ) → Job → Bool
is_expired cfg now j =
    not j.pinned
    && elim j.terminal_at [ none ↦ false | some at ↦ leb (at + cfg.manifest_after_terminal_ms) now ]

unfoldable pub sweep_manifests : Retention → (now : ℕ) → Store → Store
sweep_manifests cfg now s = record {
  jobs = filter_by (λ (j : Job). not (is_expired cfg now j) || j.hashing) s.jobs;
  blobs = s.blobs;
}

unfoldable pub sweep_blobs : Retention → (now : ℕ) → Store → Store
sweep_blobs cfg now s = record {
  jobs = s.jobs;
  blobs =
      filter_by
        (λ (b : Blob).
          is_referenced s.jobs b.sha
          || ltb now (b.modified_at + cfg.unreferenced_blob_ms)
          || b.hashing)
        s.blobs;
}

unfoldable pub store_bytes : Store → ℕ
store_bytes s = sum_by (λ (j : Job). j.size) s.jobs + sum_by (λ (b : Blob). b.size) s.blobs

-- The evicted job's manifest goes, then those of its blobs that no other manifest references.
unfoldable pub evict_job : Job → Store → Store
evict_job victim s =
    let left = filter_by (λ (j : Job). not (j.id == victim.id) || j.hashing) s.jobs in
    record {
      jobs = left;
      blobs =
          filter_by
            (λ (b : Blob). not (has_entry b.sha victim) || is_referenced left b.sha || b.hashing)
            s.blobs;
    }

-- While the store is at four fifths of its cap or above, the next candidate goes.
unfoldable pub evict : (cap_bytes : ℕ) → List Job → Store → Store
evict cap [] s = s
evict cap (c ∷ cs) s =
    let rest = evict cap cs (evict_job c s) in if leb (4 * cap) (5 * store_bytes s) then rest else s

unfoldable pub ended_before : Job → Job → Bool
ended_before a b = elim a.terminal_at [
  | none ↦ false
  | some x ↦ elim b.terminal_at [ none ↦ false | some y ↦ ltb x y ]
]

unfoldable pub candidates : List Job → List Job
candidates jobs = sort_by ended_before (filter_by (λ (j : Job). not (is_protected j)) jobs)

unfoldable pub sweep : Retention → (now : ℕ) → Store → Store
sweep cfg now s =
    let swept = sweep_blobs cfg now (sweep_manifests cfg now s) in
    elim cfg.cap_bytes [ none ↦ swept | some cap ↦ evict cap (candidates swept.jobs) swept ]
