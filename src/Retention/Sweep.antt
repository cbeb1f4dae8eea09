-- ===== src/Retention/Sweep.antt =====
-- A sweep of src/store/retention.js keeps each blob that a manifest which it leaves lists.
use lane_broker.Prelude.{
  ℕ, ◌*◌, ◌≡◌, inl, inr, refl, subst, ◌∙◌, Bool, true, not, ◌||◌, Option, none, some, List, [], ◌∷◌,
  arith, leb, ◌==◌, Bool-cases, filter_by, any_by, if-split,
}
use lane_broker.Retention.{
  Job, Blob, Store, Retention, has_entry, is_referenced, sweep_manifests, sweep_blobs, evict_job,
  evict, store_bytes, candidates, sweep,
}
use lane_broker.Retention.Protected.{swept}

abbrev pub has_blob : (sha : ℕ) → List Blob → Bool
has_blob sha bs = any_by (λ (b : Blob). b.sha == sha) bs

-- Only a manifest that stays is left to reference a blob, and what it references is still there.
abbrev KeepsReferenced : (sha : ℕ) → (before after : Store) → Type 0
KeepsReferenced sha s t =
    is_referenced t.jobs sha ≡ true
    → (is_referenced s.jobs sha ≡ true) × (has_blob sha t.blobs ≡ has_blob sha s.blobs)

any_by-filter_by :
    (f p : Job → Bool) (jobs : List Job) → any_by f (filter_by p jobs) ≡ true → any_by f jobs ≡ true
any_by-filter_by f p [] e = e
any_by-filter_by f p (j ∷ jobs) e = elim (Bool-cases (f j)) [
  | inl here ↦ ground (arith, here)
  | inr elsewhere ↦
      ground (
        arith,
        elsewhere,
        any_by-filter_by f p jobs (ground (arith, e, elsewhere, Bool-cases (p j))),
      )
]

has_blob-filter_by :
    (sha : ℕ) (p : Blob → Bool) (bs : List Blob)
    → ((b : Blob) → (b.sha == sha) ≡ true → p b ≡ true)
    → has_blob sha (filter_by p bs) ≡ has_blob sha bs
has_blob-filter_by sha p [] f = refl
has_blob-filter_by sha p (b ∷ bs) f = elim (Bool-cases (b.sha == sha)) [
  | inl here ↦ ground (arith, here, f b here)
  | inr other ↦ ground (arith, other, has_blob-filter_by sha p bs f, Bool-cases (p b))
]

KeepsReferenced-trans :
    (sha : ℕ) (s t u : Store)
    → KeepsReferenced sha s t
    → KeepsReferenced sha t u
    → KeepsReferenced sha s u
KeepsReferenced-trans sha s t u k l r = let b = l r in let a = k b.0 in (a.0, b.1 ∙ a.1)

same_sha :
    (jobs : List Job) (b : Blob) (sha : ℕ)
    → (b.sha == sha) ≡ true
    → is_referenced jobs sha ≡ true
    → is_referenced jobs b.sha ≡ true
same_sha jobs b sha e r = subst (λ x. is_referenced jobs x ≡ true) (ground (arith, e)) r

evict_job-KeepsReferenced : (sha : ℕ) (c : Job) (s : Store) → KeepsReferenced sha s (evict_job c s)
unfolding evict_job
evict_job-KeepsReferenced sha c s r =
    let left = filter_by (λ (j : Job). not (j.id == c.id) || j.hashing) s.jobs in
    (
      any_by-filter_by (has_entry sha) _ s.jobs r,
      has_blob-filter_by sha _ s.blobs
          (λ b e. ground (arith, same_sha left b sha e r, Bool-cases (has_entry b.sha c))),
    )

evict-KeepsReferenced :
    (sha cap : ℕ) (cs : List Job) (s : Store) → KeepsReferenced sha s (evict cap cs s)
unfolding evict
evict-KeepsReferenced sha cap [] s = λ r. (r, refl)
evict-KeepsReferenced sha cap (c ∷ cs) s =
    if-split (KeepsReferenced sha s) (leb (4 * cap) (5 * store_bytes s))
      (evict cap cs (evict_job c s)) s
      (λ h.
        KeepsReferenced-trans sha s (evict_job c s) (evict cap cs (evict_job c s))
          (evict_job-KeepsReferenced sha c s) (evict-KeepsReferenced sha cap cs (evict_job c s)))
      (λ h r. (r, refl))

swept-KeepsReferenced :
    (sha : ℕ) (cfg : Retention) (now : ℕ) (s : Store) → KeepsReferenced sha s (swept cfg now s)
unfolding swept sweep_blobs sweep_manifests
swept-KeepsReferenced sha cfg now s r =
    let left = (sweep_manifests cfg now s).jobs in
    (
      any_by-filter_by (has_entry sha) _ s.jobs r,
      has_blob-filter_by sha _ s.blobs (λ b e. ground (arith, same_sha left b sha e r)),
    )

-- A sweep takes no blob that a manifest which it leaves lists.
pub sweep-referenced :
    (cfg : Retention) (now : ℕ) (s : Store) (sha : ℕ)
    → is_referenced (sweep cfg now s).jobs sha ≡ true
    → has_blob sha (sweep cfg now s).blobs ≡ has_blob sha s.blobs
unfolding sweep swept
sweep-referenced cfg now s sha r = (go cfg.cap_bytes r).1
  where
    go :
        (cap : Option ℕ)
        → KeepsReferenced sha s (elim cap [
          | none ↦ sweep_blobs cfg now (sweep_manifests cfg now s)
          | some c ↦
              evict c
                (candidates (sweep_blobs cfg now (sweep_manifests cfg now s)).jobs)
                (sweep_blobs cfg now (sweep_manifests cfg now s))
        ])
    go none = swept-KeepsReferenced sha cfg now s
    go (some c) =
        KeepsReferenced-trans sha s (sweep_blobs cfg now (sweep_manifests cfg now s))
          (evict c (candidates (sweep_blobs cfg now (sweep_manifests cfg now s)).jobs)
            (sweep_blobs cfg now (sweep_manifests cfg now s)))
          (swept-KeepsReferenced sha cfg now s)
          (evict-KeepsReferenced sha c
            (candidates (sweep_blobs cfg now (sweep_manifests cfg now s)).jobs)
            (sweep_blobs cfg now (sweep_manifests cfg now s)))
