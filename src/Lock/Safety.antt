-- ===== src/Lock/Safety.antt =====
-- Mutual exclusion of withLock (src/state.js): what holds in every state that interleaved calls reach.
use lane_broker.Prelude.{
  ℕ, ◌+◌, ◌*◌, ◌≤◌, ◌≡◌, ◌≢◌, sym, ap, subst, ◌∙◌, Bool, true, false, some, arith, ◌==◌,
  some_injective, if-split,
}
use lane_broker.Lock.{
  tomb_owner, has_token, step_call, Owner, LockRoot, tomb_ttl_ms, read_owner, Pc, trying, refused,
  seen, observed, confirmed, dated, drafted, removing, stamped, moved, waiting, holding, leaving,
  clearing, left, gave_up, broken,
}
use lane_broker.Lock.System.{
  Host, owner_of, System, update, after_gc, Step, act, collect, die, pass, Reach, start, later,
}
use lane_broker.Lock.Carrying.{pass-Carries, die-Carries, gc-Carries}
use lane_broker.Lock.Evidence.{Holds, CallInv, carry}
use lane_broker.Lock.Keeping.{CallKeeps, Inv, KnownLock, has_token-tomb_owner}
use lane_broker.Lock.Steps.{step_call-CallKeeps}

-- The state of every call after call `i` has gone to `p`.
update-CallInv :
    (h : Host) (d now : ℕ) (dead : ℕ → Bool) (r : LockRoot) (pc : ℕ → Pc) (i : ℕ) (p : Pc)
    → CallInv h d now dead r i p
    → ((j : ℕ) → (i ≡ j → ⊥) → CallInv h d now dead r j (pc j))
    → (j : ℕ) → CallInv h d now dead r j (update pc i p j)
update-CallInv h d now dead r pc i p c f j =
    if-split (CallInv h d now dead r j) (i == j) p (pc j)
      (λ e. subst (λ k. CallInv h d now dead r k p) (ground (arith, e)) c)
      (λ e. f j (λ same. ground (arith, e, same)))

known_after_gc :
    (h : Host) (s : System) (fails : ℕ → ℕ → Bool)
    → ((o : Owner) → read_owner s.root ≡ some o → o ≡ owner_of h o.token)
    → (o : Owner) → read_owner (after_gc fails s).root ≡ some o
    → o ≡ owner_of h o.token
unfolding read_owner
known_after_gc h s fails known = known

-- Every step keeps the invariant.
Step-Inv :
    (h : Host) (d : ℕ) → 3 * d ≤ tomb_ttl_ms → (s t : System) → Step h d s t → Inv h d s → Inv h d t
unfolding CallKeeps KnownLock
Step-Inv h d small s t (act i a alive prompt truth) (known, calls) =
    let k =
      step_call-CallKeeps h d s.now s.dead s.root i a known alive (s.pc i) prompt truth (calls i) in
    let next = step_call (owner_of h i) s.now a s.root (s.pc i) in
    (
      k.0,
      update-CallInv h d s.now s.dead next.0 s.pc i next.1 k.1 (λ j n.
          carry h d s.now s.now s.dead s.dead s.root next.0 (λ x. i ≡ x) k.2 j n (s.pc j)
            (calls j)),
    )
Step-Inv h d small s t (collect fails) (known, calls) = (
  known_after_gc h s fails known,
  λ j.
      carry h d s.now s.now s.dead s.dead s.root _ (λ x. ⊥)
        (gc-Carries h d s.now s.dead s.root fails small) j (λ z. z) (s.pc j) (calls j),
)
Step-Inv h d small s t (die q) (known, calls) = (
  known,
  λ j.
      carry h d s.now s.now s.dead (update s.dead q true) s.root s.root (λ x. ⊥)
        (die-Carries h d s.now s.dead s.root q) j (λ z. z) (s.pc j) (calls j),
)
Step-Inv h d small s t (pass ms) (known, calls) = (
  known,
  λ j.
      carry h d s.now (s.now + ms) s.dead s.dead s.root s.root (λ x. ⊥)
        (pass-Carries h d s.now s.dead s.root ms) j (λ z. z) (s.pc j) (calls j),
)

pub Reach-Inv : (h : Host) (d : ℕ) → 3 * d ≤ tomb_ttl_ms → (s : System) → Reach h d s → Inv h d s
unfolding read_owner
Reach-Inv h d small s start = (λ o e. ground arith, λ i. tt)
Reach-Inv h d small s (later r st) = Step-Inv h d small _ s st (Reach-Inv h d small _ r)

-- A call that has published its lock and has not let go of it, by renaming the directory away or by
-- unlinking the record in it.
unfoldable pub is_holding : Pc → Bool
is_holding holding = true
is_holding leaving = true
is_holding clearing = true
is_holding (removing false) = true
is_holding _ = false

is_holding-Holds :
    (h : Host) (d now : ℕ) (dead : ℕ → Bool) (r : LockRoot) (i : ℕ) (p : Pc)
    → is_holding p ≡ true
    → CallInv h d now dead r i p
    → Holds h d now dead r i
unfolding is_holding
is_holding-Holds h d now dead r i holding e c = c
is_holding-Holds h d now dead r i leaving e c = c
is_holding-Holds h d now dead r i clearing e c = c
is_holding-Holds h d now dead r i (removing false) e c = c
is_holding-Holds h d now dead r i (removing true) e c = absurd (ground arith)
is_holding-Holds h d now dead r i trying e c = absurd (ground arith)
is_holding-Holds h d now dead r i refused e c = absurd (ground arith)
is_holding-Holds h d now dead r i (seen o) e c = absurd (ground arith)
is_holding-Holds h d now dead r i (observed o at) e c = absurd (ground arith)
is_holding-Holds h d now dead r i (confirmed o at) e c = absurd (ground arith)
is_holding-Holds h d now dead r i (dated o at w) e c = absurd (ground arith)
is_holding-Holds h d now dead r i (drafted o at w) e c = absurd (ground arith)
is_holding-Holds h d now dead r i (stamped o at) e c = absurd (ground arith)
is_holding-Holds h d now dead r i (moved o at) e c = absurd (ground arith)
is_holding-Holds h d now dead r i (waiting w) e c = absurd (ground arith)
is_holding-Holds h d now dead r i left e c = absurd (ground arith)
is_holding-Holds h d now dead r i gave_up e c = absurd (ground arith)
is_holding-Holds h d now dead r i broken e c = absurd (ground arith)

-- In every reachable state, whatever processes have ended, whatever writes, renames and removals of
-- the lock directory have failed or stopped halfway, and however the calls interleave, the lock
-- directory of a living call that holds the lock carries that call's record, and no other living call
-- holds it: provided that no tomb is collected within three times the time that a call needs from
-- finding an owner dead to its last rename, and that a probe only finds processes gone that are.
pub mutual_exclusion :
    (h : Host) (d : ℕ) (s : System) (i : ℕ)
    → 3 * d ≤ tomb_ttl_ms
    → Reach h d s
    → s.dead (h.process_of i) ≡ false
    → is_holding (s.pc i) ≡ true
    → (read_owner s.root ≡ some (owner_of h i))
      × ((j : ℕ) → s.dead (h.process_of j) ≡ false → is_holding (s.pc j) ≡ true → i ≡ j)
mutual_exclusion h d s i small r alive e =
    let mine : (j : ℕ)
        → s.dead (h.process_of j) ≡ false
        → is_holding (s.pc j) ≡ true
        → read_owner s.root ≡ some (owner_of h j) =
      λ j up k.
        is_holding-Holds h d s.now s.dead s.root j (s.pc j) k ((Reach-Inv h d small s r).1 j) up in
    (
      mine i alive e,
      λ j up k.
          ap (λ (o : Owner). o.token) (some_injective _ _ (sym (mine i alive e) ∙ mine j up k)),
    )

-- If no tomb is collected within three times the time that a call needs from finding an owner dead to
-- its last rename, and a probe only finds processes gone that are, no call ever fails to put a tomb
-- back, and none comes to: the tomb that a prompt call has made carries the record of the owner that
-- it found dead.
pub takeover_never_broken :
    (h : Host) (d : ℕ) (s : System) (i : ℕ)
    → 3 * d ≤ tomb_ttl_ms
    → Reach h d s
    → (s.pc i ≢ broken)
      × ((o : Owner) (at : ℕ)
          → s.pc i ≡ moved o at
          → s.now ≤ at + d
          → has_token (tomb_owner s.root o) o.token ≡ true)
takeover_never_broken h d s i small r =
    let c = (Reach-Inv h d small s r).1 i in
    (
      λ e. subst (CallInv h d s.now s.dead s.root i) e c,
      λ o at e prompt.
          has_token-tomb_owner d s.now s.root o at (subst (CallInv h d s.now s.dead s.root i) e c).1
            prompt,
    )
