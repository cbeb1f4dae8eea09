-- ===== src/Lock/Carrying.antt =====
-- What the calls of withLock (src/state.js) that do not act keep while another one acts, processes end,
-- tombs are collected and time passes.
use lane_broker.Prelude.{
  ℕ, ◌+◌, ◌*◌, ◌≤◌, ◌≡◌, inl, inr, sym, ap, subst, ◌∙◌, Bool, true, false, none, some, arith, ltb,
  ◌==◌, Bool-cases, Option-cases, some_injective,
}
use lane_broker.Lock.{
  Owner, LockRoot, LockDir, gc_tombs, is_stale, tomb_ttl_ms, read_owner, publish, bury,
}
use lane_broker.Lock.System.{Host, owner_of, update}
use lane_broker.Lock.Evidence.{Buried, Carries}
use lane_broker.Lock.Effects.{publish_effect, Restamped, bury_effect, owned-is_free}

module _ (h : Host) (d now : ℕ) (dead : ℕ → Bool) (r : LockRoot) where
  pub pass-Carries : (ms : ℕ) → Carries h d now (now + ms) dead dead r r (λ j. ⊥)
  pass-Carries ms = (
    λ j n i. i,
    λ o at f. ground arith,
    λ o at f g. ground arith,
    λ o at g. ground arith,
    λ o at f g. g,
  )

  pub die-Carries : (q : ℕ) → Carries h d now now dead (update dead q true) r r (λ j. ⊥)
  die-Carries q = (
    λ j n i. ground (arith, Bool-cases (q == h.process_of j)),
    λ o at f. ground (arith, Bool-cases (q == h.process_of o.token)),
    λ o at f g. g,
    λ o at g. g,
    λ o at f g. g,
  )

  gc-kept :
      (fails : ℕ → ℕ → Bool) (o : Owner) (at : ℕ)
      → 3 * d ≤ tomb_ttl_ms
      → Buried d now r o at
      → Buried d now (record { lock = r.lock; tombs = gc_tombs fails now r.tombs }) o at
  unfolding gc_tombs is_stale
  gc-kept fails o at e (inr late) = inr late
  gc-kept fails o at e (inl (b, there, of, t)) = elim (Option-cases b.stolen_at) [
    | inl undated ↦ inl (b, ground arith, of, t)
    | inr (u, dated) ↦ elim (Bool-cases (ltb (u + tomb_ttl_ms) now)) [
      | inl old ↦ inr (ground (arith, t u dated))
      | inr young ↦ inl (b, ground arith, of, t)
    ]
  ]

  pub gc-Carries :
      (fails : ℕ → ℕ → Bool)
      → 3 * d ≤ tomb_ttl_ms
      → Carries h d now now dead dead r
          (record { lock = r.lock; tombs = gc_tombs fails now r.tombs })
          (λ j. ⊥)
  unfolding read_owner
  gc-Carries fails e = (
    λ j n i. i,
    λ o at f. f,
    λ o at f g. elim g [ inl there ↦ inl there | inr b ↦ inr (gc-kept fails o at e b) ],
    λ o at g. gc-kept fails o at e g,
    λ o at f g. g,
  )

  Buried-same :
      (r' : LockRoot) (o : Owner) (at : ℕ)
      → r'.tombs o.pid o.token ≡ r.tombs o.pid o.token
      → Buried d now r o at
      → Buried d now r' o at
  Buried-same r' o at e (inr late) = inr late
  Buried-same r' o at e (inl (b, there, of, t)) = inl (b, e ∙ there, of, t)

  pub publish-Carries :
      (i : ℕ) (r' : LockRoot)
      → dead (h.process_of i) ≡ false
      → publish (owner_of h i) r ≡ some r'
      → Carries h d now now dead dead r r' (λ j. i ≡ j)
  unfolding read_owner
  publish-Carries i r' alive e =
      let p = publish_effect h d now dead r (owner_of h i) r' e in
      (
        λ j n hd up. ground (arith, p, hd up),
        λ o at f. f,
        λ o at f g. elim g [
          | inl there ↦ absurd (ground (arith, p))
          | inr b ↦ inr (Buried-same r' o at (ap (λ m. m o.pid o.token) p.2) b)
        ],
        λ o at g. Buried-same r' o at (ap (λ m. m o.pid o.token) p.2) g,
        λ o at f g l e' k. absurd (ground (arith, p, e', k, f.1)),
      )

  pub Restamped-Carries :
      (r' : LockRoot) → Restamped h d now dead r r' → Carries h d now now dead dead r r' (λ j. ⊥)
  Restamped-Carries r' (same, tombs, dates) = (
    λ j n hd up. same ∙ hd up,
    λ o at f. f,
    λ o at f g. elim g [
      | inl there ↦ inl (same ∙ there)
      | inr b ↦ inr (Buried-same r' o at (ap (λ m. m o.pid o.token) tombs) b)
    ],
    λ o at g. Buried-same r' o at (ap (λ m. m o.pid o.token) tombs) g,
    λ o at f g l' there of t dated. elim (dates l' there t dated) [
      | inl (l, was, owned, stamped_then) ↦ g l was (owned ∙ of) t stamped_then
      | inr late ↦ omega (arith, f.2, late)
    ],
  )

  bury-Buried :
      (b : Owner) (r' : LockRoot)
      → read_owner r ≡ some b
      → bury b r ≡ some r'
      → (o : Owner) (at : ℕ) → Buried d now r o at
      → Buried d now r' o at
  bury-Buried b r' there e o at (inr late) = inr late
  bury-Buried b r' there e o at (inl (t, found, of, u)) =
      let p = bury_effect h d now dead r b r' e in
      let taken = owned-is_free (r.tombs o.pid o.token) t o found of in
      inl (t, ground (arith, found, taken, p.2, p.4 o.pid o.token), of, u)

  pub bury_own :
      (b : Owner) (r' : LockRoot) (at : ℕ)
      → read_owner r ≡ some b
      → bury b r ≡ some r'
      → ((l : LockDir) → r.lock ≡ some l → (t : ℕ) → l.stolen_at ≡ some t → now ≤ t + 2 * d)
      → at ≤ now
      → Buried d now r' b at
  unfolding read_owner
  bury_own b r' at there e dated le =
      let p = bury_effect h d now dead r b r' e in
      let u = dated p.0 p.1 in
      inl (
        p.0,
        ground (arith, p.4 b.pid b.token),
        ground (arith, p.1, there),
        λ t e'. omega (arith, u t e', le),
      )

  pub bury-Carries :
      (b : Owner) (r' : LockRoot)
      → dead (h.process_of b.token) ≡ true
      → b ≡ owner_of h b.token
      → read_owner r ≡ some b
      → bury b r ≡ some r'
      → ((l : LockDir) → r.lock ≡ some l → (t : ℕ) → l.stolen_at ≡ some t → now ≤ t + 2 * d)
      → Carries h d now now dead dead r r' (λ j. ⊥)
  unfolding read_owner
  bury-Carries b r' gone known there e dated =
      let p = bury_effect h d now dead r b r' e in
      (
        λ j n hd up. absurd (ground (arith, some_injective _ _ (sym there ∙ hd up))),
        λ o at f. f,
        λ o at f g. elim g [
          | inl mine ↦ inr (
              subst (λ x. Buried d now r' x at) (some_injective _ _ (sym there ∙ mine))
                (bury_own b r' at there e dated f.2))
          | inr g' ↦ inr (bury-Buried b r' there e o at g')
        ],
        λ o at g. bury-Buried b r' there e o at g,
        λ o at f g l. ground (arith, p),
      )

  -- A living holder takes its record away.
  pub released-Carries :
      (i : ℕ) (r' : LockRoot)
      → dead (h.process_of i) ≡ false
      → read_owner r ≡ some (owner_of h i)
      → read_owner r' ≡ none
      → r'.tombs ≡ r.tombs
      → Carries h d now now dead dead r r' (λ j. i ≡ j)
  unfolding read_owner
  released-Carries i r' alive there none_now tombs = (
    λ j n hd up. absurd (n (ap (λ (o : Owner). o.token) (some_injective _ _ (sym there ∙ hd up)))),
    λ o at f. f,
    λ o at f g. elim g [
      | inl mine ↦ absurd (ground (arith, f.1, f.0, alive, some_injective _ _ (sym there ∙ mine)))
      | inr b ↦ inr (Buried-same r' o at (ap (λ m. m o.pid o.token) tombs) b)
    ],
    λ o at g. Buried-same r' o at (ap (λ m. m o.pid o.token) tombs) g,
    λ o at f g l there' of. absurd (ground (arith, none_now, there', of)),
  )
