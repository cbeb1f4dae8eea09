-- ===== src/Lock/Keeping.antt =====
-- What a step of a call of withLock (src/state.js) has to keep, and the steps that keep it at once.
use lane_broker.Prelude.{
  ℕ, ◌+◌, ◌≤◌, ◌≡◌, inl, inr, refl, sym, ap, ◌∙◌, Bool, true, false, Option, none, some, arith,
  Option-cases,
}
use lane_broker.Lock.{
  tomb_owner, has_token, on_success, Answer, Owner, LockRoot, read_owner, Pc, holding,
}
use lane_broker.Lock.System.{Host, owner_of, System}
use lane_broker.Lock.Effects.{Restamped}
use lane_broker.Lock.Carrying.{Restamped-Carries, released-Carries}
use lane_broker.Lock.Evidence.{Buried, CallInv, Carries}

-- Every lock record is that of its call, and every call is as `CallInv` says.
abbrev pub Inv : Host → (d : ℕ) → System → Type 0
Inv h d s =
    ((o : Owner) → read_owner s.root ≡ some o → o ≡ owner_of h o.token)
    × ((i : ℕ) → CallInv h d s.now s.dead s.root i (s.pc i))

unfoldable pub KnownLock : Host → LockRoot → Type 0
KnownLock h r = (o : Owner) → read_owner r ≡ some o → o ≡ owner_of h o.token

pub on_success-split :
    (P : LockRoot × Pc → Type 0) (r : LockRoot) (o : Option LockRoot) (fails : Bool) (won lost : Pc)
    → P (r, lost)
    → ((r' : LockRoot) → o ≡ some r' → P (r', won))
    → P (on_success r o fails won lost)
unfolding on_success
on_success-split P r none fails won lost f g = f
on_success-split P r (some x) true won lost f g = f
on_success-split P r (some x) false won lost f g = g x refl

-- The tomb that a prompt call has made carries the record of the owner that it found dead.
pub has_token-tomb_owner :
    (d now : ℕ) (r : LockRoot) (o : Owner) (at : ℕ)
    → Buried d now r o at
    → now ≤ at + d
    → has_token (tomb_owner r o) o.token ≡ true
unfolding has_token tomb_owner
has_token-tomb_owner d now r o at b prompt = ground (arith, b, prompt)

-- What a transition of a living call keeps: the record in the lock directory is that of its call, the
-- call itself is as it should be, and so are the others.
unfoldable pub CallKeeps :
    Host → (d now : ℕ) (dead : ℕ → Bool) (r : LockRoot) (i : ℕ) → LockRoot × Pc → Type 0
CallKeeps h d now dead r i next =
    KnownLock h next.0
    × CallInv h d now dead next.0 i next.1
    × Carries h d now now dead dead r next.0 (λ j. i ≡ j)

module _ (h : Host) (d now : ℕ) (dead : ℕ → Bool) (r : LockRoot) (i : ℕ) (a : Answer)
    (known : KnownLock h r) (alive : dead (h.process_of i) ≡ false) where
  pub Carries-same : Carries h d now now dead dead r r (λ j. i ≡ j)
  Carries-same = (λ j n x. x, λ o at f. f, λ o at f g. g, λ o at g. g, λ o at f g. g)

  pub same_owner :
      (o : Owner)
      → o ≡ owner_of h o.token
      → has_token (read_owner r) o.token ≡ true
      → read_owner r ≡ some o
  unfolding has_token KnownLock
  same_owner o e t = elim (Option-cases (read_owner r)) [
    | inl nobody ↦ absurd (ground arith)
    | inr (x, found) ↦
        let same : x.token ≡ o.token = ground (arith, found, t) in
        found ∙ ap some (known x found ∙ ap (owner_of h) same ∙ sym e)
  ]

  -- A step of the others is carried also where `i` is among them.
  pub Carries-weaker :
      (r' : LockRoot)
      → Carries h d now now dead dead r r' (λ j. ⊥)
      → Carries h d now now dead dead r r' (λ j. i ≡ j)
  Carries-weaker r' c = (λ j n. c.0 j (λ z. z), c.1, c.2, c.3, c.4)

  pub stays-CallKeeps : (p : Pc) → CallInv h d now dead r i p → CallKeeps h d now dead r i (r, p)
  unfolding CallKeeps
  stays-CallKeeps p c = (known, c, Carries-same)

  -- A step that leaves the owner in the lock directory as it is keeps what the others know.
  pub Restamped-CallKeeps :
      (r' : LockRoot) (p : Pc)
      → Restamped h d now dead r r'
      → CallInv h d now dead r' i p
      → CallKeeps h d now dead r i (r', p)
  unfolding CallKeeps KnownLock
  Restamped-CallKeeps r' p same c = (
    λ x there. known x (sym same.0 ∙ there),
    c,
    Carries-weaker r' (Restamped-Carries h d now dead r r' same),
  )

  pub released-CallKeeps :
      (r' : LockRoot) (p : Pc)
      → CallInv h d now dead r i holding
      → read_owner r' ≡ none
      → r'.tombs ≡ r.tombs
      → CallInv h d now dead r' i p
      → CallKeeps h d now dead r i (r', p)
  unfolding CallKeeps KnownLock
  released-CallKeeps r' p c none_now tombs after = (
    λ o there. ground (arith, none_now, there),
    after,
    released-Carries h d now dead r i r' alive (c alive) none_now tombs,
  )
