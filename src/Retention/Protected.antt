-- ===== src/Retention/Protected.antt =====
-- A sweep of src/store/retention.js keeps the jobs that are pinned or have not ended.
use lane_broker.Prelude.{
  ℕ, ◌*◌, ◌≡◌, inl, inr, refl, ◌∙◌, Bool, true, false, not, ◌||◌, Option, none, some, List, [], ◌∷◌,
  arith, leb, ◌==◌, Bool-cases, Option-cases, filter_by, All, if-split, sort_by-All,
}
use lane_broker.Retention.{
  Job, Store, Retention, is_protected, is_expired, sweep_manifests, sweep_blobs, evict_job, evict,
  store_bytes, ended_before, candidates, sweep,
}

-- The manifest files have different names.
abbrev pub IsDistinct : List Job → Type 0
IsDistinct [] = Unit
IsDistinct (j ∷ js) = All (λ (k : Job). (k.id == j.id) ≡ false) js × IsDistinct js

-- Deleting the manifest named after `c` takes no protected one.
abbrev IsVictim : List Job → Job → Type 0
IsVictim jobs c = All (λ (j : Job). (j.id == c.id) ≡ true → is_protected j ≡ false) jobs

abbrev protected_jobs : Store → List Job
protected_jobs s = filter_by is_protected s.jobs

All-filter_by {ℓ} :
    {A : Type 0} (P : A → Type ℓ) (p : A → Bool) (xs : List A) → All P xs → All P (filter_by p xs)
All-filter_by P p [] a = tt
All-filter_by P p (x ∷ xs) (a, as_) =
    if-split (All P) (p x) (x ∷ filter_by p xs) (filter_by p xs)
      (λ h. (a, All-filter_by P p xs as_)) (λ h. All-filter_by P p xs as_)

-- A filter that keeps what is protected keeps the list of what is.
filter_by-protected :
    (p : Job → Bool) (jobs : List Job)
    → All (λ (j : Job). is_protected j ≡ true → p j ≡ true) jobs
    → filter_by is_protected (filter_by p jobs) ≡ filter_by is_protected jobs
filter_by-protected p [] a = refl
filter_by-protected p (j ∷ jobs) (k, ks) = elim (Bool-cases (is_protected j)) [
  | inl yes_ ↦ ground (arith, yes_, k yes_, filter_by-protected p jobs ks)
  | inr no_ ↦ ground (arith, no_, Bool-cases (p j), filter_by-protected p jobs ks)
]

All-map {ℓ κ} :
    {A : Type 0} (P : A → Type ℓ) (Q : A → Type κ)
    → ((x : A) → P x → Q x)
    → (xs : List A) → All P xs
    → All Q xs
All-map P Q f [] a = tt
All-map P Q f (x ∷ xs) (a, rest) = (f x a, All-map P Q f xs rest)

All-map2 {ℓ κ μ} :
    {A : Type 0} (P : A → Type ℓ) (Q : A → Type κ) (R : A → Type μ)
    → ((x : A) → P x → Q x → R x)
    → (xs : List A) → All P xs
    → All Q xs
    → All R xs
All-map2 P Q R f [] a b = tt
All-map2 P Q R f (x ∷ xs) (a, more) (b, rest) = (f x a b, All-map2 P Q R f xs more rest)

All-always : (P : Job → Type 0) → ((j : Job) → P j) → (jobs : List Job) → All P jobs
All-always P f [] = tt
All-always P f (j ∷ jobs) = (f j, All-always P f jobs)

abbrev HasOwnName : List Job → Job → Type 0
HasOwnName jobs c = is_protected c ≡ false → IsVictim jobs c

IsDistinct-HasOwnName : (jobs : List Job) → IsDistinct jobs → All (HasOwnName jobs) jobs
IsDistinct-HasOwnName [] d = tt
IsDistinct-HasOwnName (j ∷ jobs) (d, ds) = (
  λ u. (
    λ same. u,
    All-map (λ (k : Job). (k.id == j.id) ≡ false)
        (λ (k : Job). (k.id == j.id) ≡ true → is_protected k ≡ false)
        (λ k other same. absurd (ground (arith, other, same))) jobs d,
  ),
  All-map2 (λ (k : Job). (k.id == j.id) ≡ false) (HasOwnName jobs) (HasOwnName (j ∷ jobs))
      (λ k other own u. (λ same. absurd (ground (arith, other, same)), own u)) jobs d
      (IsDistinct-HasOwnName jobs ds),
)

All-filter_by-holds :
    (p : Job → Bool) (P : Job → Type 0) (jobs : List Job)
    → All (λ (j : Job). p j ≡ true → P j) jobs
    → All P (filter_by p jobs)
All-filter_by-holds p P [] a = tt
All-filter_by-holds p P (x ∷ xs) (a, rest) =
    if-split (All P) (p x) (x ∷ filter_by p xs) (filter_by p xs)
      (λ h. (a h, All-filter_by-holds p P xs rest)) (λ h. All-filter_by-holds p P xs rest)

-- Every candidate for eviction may go without taking a protected manifest, also after others have gone.
candidates-IsVictim : (jobs : List Job) → IsDistinct jobs → All (IsVictim jobs) (candidates jobs)
unfolding candidates
candidates-IsVictim jobs d =
    sort_by-All ended_before (IsVictim jobs) (filter_by (λ (j : Job). not (is_protected j)) jobs) (
      All-filter_by-holds (λ (j : Job). not (is_protected j)) (IsVictim jobs) jobs
        (All-map (HasOwnName jobs) (λ (j : Job). not (is_protected j) ≡ true → IsVictim jobs j)
          (λ j own u. own (ground (arith, u))) jobs (IsDistinct-HasOwnName jobs d)))

evict_job-protected :
    (c : Job) (s : Store) → IsVictim s.jobs c → protected_jobs (evict_job c s) ≡ protected_jobs s
unfolding evict_job
evict_job-protected c s v =
    filter_by-protected (λ (j : Job). not (j.id == c.id) || j.hashing) s.jobs
      (All-map (λ (j : Job). (j.id == c.id) ≡ true → is_protected j ≡ false)
        (λ (j : Job). is_protected j ≡ true → (not (j.id == c.id) || j.hashing) ≡ true)
        (λ j only u. elim (Bool-cases (j.id == c.id)) [
          | inl same ↦ absurd (ground (arith, only same, u))
          | inr other ↦ ground (arith, other)
        ])
        s.jobs v)

IsVictim-evict_job : (c d : Job) (s : Store) → IsVictim s.jobs d → IsVictim (evict_job c s).jobs d
unfolding evict_job
IsVictim-evict_job c d s v =
    All-filter_by (λ (j : Job). (j.id == d.id) ≡ true → is_protected j ≡ false)
      (λ (j : Job). not (j.id == c.id) || j.hashing) s.jobs v

evict-protected :
    (cap : ℕ) (cs : List Job) (s : Store)
    → All (IsVictim s.jobs) cs
    → protected_jobs (evict cap cs s) ≡ protected_jobs s
unfolding evict
evict-protected cap [] s v = refl
evict-protected cap (c ∷ cs) s (v, vs) =
    if-split (λ x. protected_jobs x ≡ protected_jobs s) (leb (4 * cap) (5 * store_bytes s))
      (evict cap cs (evict_job c s)) s
      (λ h.
        evict-protected cap cs (evict_job c s) (
          All-map (IsVictim s.jobs) (IsVictim (evict_job c s).jobs)
            (λ d w. IsVictim-evict_job c d s w) cs vs)
        ∙ evict_job-protected c s v)
      (λ h. refl)

IsDistinct-filter_by :
    (p : Job → Bool) (jobs : List Job) → IsDistinct jobs → IsDistinct (filter_by p jobs)
IsDistinct-filter_by p [] d = tt
IsDistinct-filter_by p (j ∷ jobs) (d, ds) =
    if-split IsDistinct (p j) (j ∷ filter_by p jobs) (filter_by p jobs)
      (λ h. (
        All-filter_by (λ (k : Job). (k.id == j.id) ≡ false) p jobs d,
        IsDistinct-filter_by p jobs ds,
      ))
      (λ h. IsDistinct-filter_by p jobs ds)

sweep_manifests-protected :
    (cfg : Retention) (now : ℕ) (s : Store)
    → protected_jobs (sweep_manifests cfg now s) ≡ protected_jobs s
unfolding sweep_manifests is_expired
sweep_manifests-protected cfg now s = filter_by-protected _ s.jobs (
    All-always _ (λ j u. ground (arith, u, Bool-cases j.pinned, Option-cases j.terminal_at)) s.jobs)

-- The store before eviction, and after it.
unfoldable pub swept : Retention → (now : ℕ) → Store → Store
swept cfg now s = sweep_blobs cfg now (sweep_manifests cfg now s)

-- A sweep takes no manifest of a job that is pinned or has not ended, however full the store is, where
-- the manifests have different names.
pub sweep-protected :
    (cfg : Retention) (now : ℕ) (s : Store)
    → IsDistinct s.jobs
    → filter_by is_protected (sweep cfg now s).jobs ≡ filter_by is_protected s.jobs
unfolding sweep sweep_blobs sweep_manifests
sweep-protected cfg now s d = go cfg.cap_bytes
  where
    left : List Job
    left = (sweep_blobs cfg now (sweep_manifests cfg now s)).jobs

    go :
        (cap : Option ℕ)
        → protected_jobs (elim cap [
          | none ↦ sweep_blobs cfg now (sweep_manifests cfg now s)
          | some c ↦ evict c (candidates left) (sweep_blobs cfg now (sweep_manifests cfg now s))
        ])
          ≡ protected_jobs s
    go none = sweep_manifests-protected cfg now s
    go (some c) =
        evict-protected c (candidates left) (sweep_blobs cfg now (sweep_manifests cfg now s))
          (candidates-IsVictim left (IsDistinct-filter_by _ s.jobs d))
        ∙ sweep_manifests-protected cfg now s
