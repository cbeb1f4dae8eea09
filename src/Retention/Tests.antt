-- ===== src/Retention/Tests.antt =====
-- A sweep (src/store/retention.js) of a store that is over its cap.
use lane_broker.Prelude.{
  ℕ, ◌≡◌, refl, Bool, true, false, Option, none, some, List, [], ◌∷◌, filter_by, insert_by, sort_by,
}
use lane_broker.Retention.Sweep.{has_blob, sweep-referenced}
use lane_broker.Retention.Protected.{sweep-protected}
use lane_broker.Retention.{
  Blob, Job, Retention, Store, candidates, ended_before, evict, evict_job, is_expired, is_protected,
  store_bytes, sweep, sweep_blobs, sweep_manifests,
}

abbrev job : (id : ℕ) (pinned : Bool) (terminal_at : Option ℕ) (entries : List ℕ) → Job
job id pinned terminal_at entries = record {
  id = id;
  pinned = pinned;
  terminal_at = terminal_at;
  entries = some entries;
  size = 1;
  hashing = false;
}

abbrev blob : (sha : ℕ) → Blob
blob sha = record { sha = sha; modified_at = 0; size = 10; hashing = false }

-- Job 1 is pinned, 2 and 3 have ended, 4 has not; blob 20 is shared.
abbrev full_store : Store
full_store = record {
  jobs =
      job 1 true (some 5) (10 ∷ [])
      ∷ job 2 false (some 90) (20 ∷ 21 ∷ [])
      ∷ job 3 false (some 80) (30 ∷ [])
      ∷ job 4 false none (20 ∷ [])
      ∷ [];
  blobs = blob 10 ∷ blob 20 ∷ blob 21 ∷ blob 30 ∷ [];
}

abbrev over_cap : Retention
over_cap = record {
  manifest_after_terminal_ms = 50;
  unreferenced_blob_ms = 50;
  cap_bytes = some 42;
}

-- Job 3 ended first and goes with its blob; then the store is under four fifths of its cap.
full_store_swept : sweep over_cap 100 full_store ≡ record {
  jobs =
      job 1 true (some 5) (10 ∷ [])
      ∷ job 2 false (some 90) (20 ∷ 21 ∷ [])
      ∷ job 4 false none (20 ∷ [])
      ∷ [];
  blobs = blob 10 ∷ blob 20 ∷ blob 21 ∷ [];
}
unfolding sweep sweep_blobs sweep_manifests is_expired evict evict_job store_bytes candidates
    sort_by insert_by ended_before
full_store_swept = refl

sweep-protected_example :
    filter_by is_protected (sweep over_cap 100 full_store).jobs
    ≡ filter_by is_protected full_store.jobs
sweep-protected_example =
    sweep-protected over_cap 100 full_store
      ((refl, (refl, (refl, tt))), ((refl, (refl, tt)), ((refl, tt), (tt, tt))))

sweep-referenced_example :
    has_blob 20 (sweep over_cap 100 full_store).blobs ≡ has_blob 20 full_store.blobs
unfolding sweep sweep_blobs sweep_manifests is_expired evict evict_job store_bytes candidates
    sort_by insert_by ended_before
sweep-referenced_example = sweep-referenced over_cap 100 full_store 20 refl
