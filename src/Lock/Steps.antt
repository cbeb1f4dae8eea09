-- ===== src/Lock/Steps.antt =====
-- What one step of a call of withLock (src/state.js) keeps of the knowledge that the call has.
use lane_broker.Prelude.{
  ℕ, ◌+◌, ◌*◌, ◌≤◌, ◌≡◌, inl, refl, ◌∙◌, Bool, true, false, Option, none, some, arith,
  if◌then◌else◌, if-split,
}
use lane_broker.Lock.{
  unreadable, unbury, recovered, recovery_failed, tomb_owner, has_token, on_success, live_holder,
  step_call, Answer, clear, Owner, LockRoot, LockDir, is_lock_owner_alive, read_owner, publish,
  stamp, bury, Pc, trying, refused, seen, observed, confirmed, dated, drafted, removing,
  write_draft, unlink, rmdir, remove_next, Entry, owner_file, stamp_file, draft_file, other_files,
  stamped, moved, waiting, holding, leaving, clearing, left, gave_up, broken,
}
use lane_broker.Lock.System.{Host, owner_of, Truthful, TruthfulAt, Prompt}
use lane_broker.Lock.Effects.{
  publish_effect, stamp_effect, bury_effect, bury_there, Restamped, write_draft-Restamped,
  stamp-Restamped, unlink-Restamped, rmdir-Restamped, clear_effect, unlinked_effect,
}
use lane_broker.Lock.Carrying.{publish-Carries, bury-Carries, bury_own, Restamped-Carries}
use lane_broker.Lock.Evidence.{CallInv, is_lock_owner_alive_evidence}
use lane_broker.Lock.Keeping.{
  KnownLock, on_success-split, has_token-tomb_owner, CallKeeps, Carries-same, same_owner,
  Carries-weaker, stays-CallKeeps, Restamped-CallKeeps, released-CallKeeps,
}

module _ (h : Host) (d now : ℕ) (dead : ℕ → Bool) (r : LockRoot) (i : ℕ) (a : Answer)
    (known : KnownLock h r) (alive : dead (h.process_of i) ≡ false) where
  published-CallKeeps :
      (r' : LockRoot)
      → publish (owner_of h i) r ≡ some r'
      → CallKeeps h d now dead r i (r', holding)
  unfolding CallKeeps KnownLock read_owner
  published-CallKeeps r' e =
      let p = publish_effect h d now dead r (owner_of h i) r' e in
      (
        λ o there. ground (arith, p.1, there),
        λ up. ground (arith, p.1),
        publish-Carries h d now dead r i r' alive e,
      )

  trying-CallKeeps : CallKeeps h d now dead r i (step_call (owner_of h i) now a r trying)
  unfolding step_call
  trying-CallKeeps =
      on_success-split (CallKeeps h d now dead r i) r (publish (owner_of h i) r) a.fails holding
        refused (stays-CallKeeps h d now dead r i a known alive refused tt) published-CallKeeps

  observed-CallKeeps :
      (o : Owner) (at : ℕ)
      → CallInv h d now dead r i (observed o at)
      → CallKeeps h d now dead r i (step_call (owner_of h i) now a r (observed o at))
  unfolding step_call
  observed-CallKeeps o at c =
      if-split (CallKeeps h d now dead r i) (has_token (read_owner r) o.token) (r, confirmed o at)
        (r, waiting recovery_failed)
        (λ e.
          stays-CallKeeps h d now dead r i a known alive (confirmed o at)
            (c, inl (same_owner h d now dead r i a known alive o c.0 e)))
        (λ e. stays-CallKeeps h d now dead r i a known alive (waiting recovery_failed) tt)

  dated-CallKeeps :
      (o : Owner) (at written : ℕ)
      → CallInv h d now dead r i (dated o at written)
      → CallKeeps h d now dead r i (step_call (owner_of h i) now a r (dated o at written))
  unfolding step_call
  dated-CallKeeps o at written (f, g, le) =
      on_success-split (CallKeeps h d now dead r i) r (write_draft i written r) a.fails
        (drafted o at written) (waiting recovery_failed)
        (stays-CallKeeps h d now dead r i a known alive (waiting recovery_failed) tt)
        (λ r' e.
          let same = write_draft-Restamped h d now dead r i written r' e in
          let k = Restamped-Carries h d now dead r r' same in
          Restamped-CallKeeps h d now dead r i a known alive r' (drafted o at written) same
            (k.1 o at f, k.2 o at f g, le))

  drafted-CallKeeps :
      (o : Owner) (at written : ℕ)
      → now ≤ at + d
      → CallInv h d now dead r i (drafted o at written)
      → CallKeeps h d now dead r i (step_call (owner_of h i) now a r (drafted o at written))
  unfolding step_call
  drafted-CallKeeps o at written prompt (f, g, le) =
      on_success-split (CallKeeps h d now dead r i) r (stamp i written r) a.fails (stamped o at)
        (waiting recovery_failed)
        (stays-CallKeeps h d now dead r i a known alive (waiting recovery_failed) tt)
        (λ r' e.
          let drawn : now ≤ written + d = omega (arith, le, prompt) in
          let same = stamp-Restamped h d now dead r i written r' drawn e in
          let k = Restamped-Carries h d now dead r r' same in
          Restamped-CallKeeps h d now dead r i a known alive r' (stamped o at) same (
            k.1 o at f,
            k.2 o at f g,
            λ l there of t e'.
                let now_is = stamp_effect h d now dead r i written r' e in
                ground (arith, now_is.2, there, e', le),
          ))

  buried-CallKeeps :
      (o : Owner) (at : ℕ)
      → now ≤ at + d
      → CallInv h d now dead r i (stamped o at)
      → (r' : LockRoot) → bury o r ≡ some r'
      → CallKeeps h d now dead r i (r', moved o at)
  unfolding CallKeeps KnownLock read_owner
  buried-CallKeeps o at prompt (f, g, m) r' e =
      let p = bury_effect h d now dead r o r' e in
      let there : read_owner r ≡ some o = bury_there h d now dead r o at r' prompt g e in
      let dated : (l : LockDir)
          → r.lock ≡ some l
          → (t : ℕ) → l.stolen_at ≡ some t
          → now ≤ t + 2 * d =
        λ l e' t at_t. omega (arith, m l e' (ground (arith, e', there)) t at_t, prompt) in
      let k = bury-Carries h d now dead r o r' f.1 f.0 there e dated in
      (
        λ x found. absurd (ground (arith, p, found)),
        (k.1 o at f, bury_own h d now dead r o r' at there e dated f.2),
        Carries-weaker h d now dead r i a known alive r' k,
      )

  stamped-CallKeeps :
      (o : Owner) (at : ℕ)
      → now ≤ at + d
      → CallInv h d now dead r i (stamped o at)
      → CallKeeps h d now dead r i (step_call (owner_of h i) now a r (stamped o at))
  unfolding step_call
  stamped-CallKeeps o at prompt c =
      on_success-split (CallKeeps h d now dead r i) r (bury o r) a.fails (moved o at)
        (waiting recovery_failed)
        (stays-CallKeeps h d now dead r i a known alive (waiting recovery_failed) tt)
        (buried-CallKeeps o at prompt c)

  moved-CallKeeps :
      (o : Owner) (at : ℕ)
      → now ≤ at + d
      → CallInv h d now dead r i (moved o at)
      → CallKeeps h d now dead r i (step_call (owner_of h i) now a r (moved o at))
  unfolding step_call
  moved-CallKeeps o at prompt c =
      if-split (CallKeeps h d now dead r i) (has_token (tomb_owner r o) o.token)
        (r, waiting recovered) (on_success r (unbury o r) a.fails (waiting recovery_failed) broken)
        (λ e. stays-CallKeeps h d now dead r i a known alive (waiting recovered) tt)
        (λ e. absurd (ground (arith, e, has_token-tomb_owner d now r o at c.1 prompt)))

  holding-CallKeeps :
      CallInv h d now dead r i holding
      → CallKeeps h d now dead r i (step_call (owner_of h i) now a r holding)
  unfolding step_call
  holding-CallKeeps c =
      if-split (CallKeeps h d now dead r i) (has_token (read_owner r) (owner_of h i).token)
        (r, leaving) (r, left) (λ e. stays-CallKeeps h d now dead r i a known alive leaving c)
        (λ e. stays-CallKeeps h d now dead r i a known alive left tt)

  leaving-CallKeeps :
      CallInv h d now dead r i leaving
      → CallKeeps h d now dead r i (step_call (owner_of h i) now a r leaving)
  unfolding step_call
  leaving-CallKeeps c =
      on_success-split (CallKeeps h d now dead r i) r (clear r) a.fails left clearing
        (stays-CallKeeps h d now dead r i a known alive clearing c)
        (λ r' e.
          let p = clear_effect h d now dead r r' e in
          released-CallKeeps h d now dead r i a known alive r' left c p.0 p.1 tt)

  clearing-CallKeeps :
      CallInv h d now dead r i clearing
      → CallKeeps h d now dead r i (step_call (owner_of h i) now a r clearing)
  unfolding step_call
  clearing-CallKeeps c =
      if-split (CallKeeps h d now dead r i) (has_token (read_owner r) (owner_of h i).token)
        (r, removing false) (r, left)
        (λ e. stays-CallKeeps h d now dead r i a known alive (removing false) c)
        (λ e. stays-CallKeeps h d now dead r i a known alive left tt)

  removing_kept :
      (unlinked : Bool) (r' : LockRoot)
      → Restamped h d now dead r r'
      → CallInv h d now dead r i (removing unlinked)
      → CallInv h d now dead r' i (removing unlinked)
  removing_kept false r' same c = λ up. same.0 ∙ c up
  removing_kept true r' same c = tt

  unlinked-CallKeeps :
      (unlinked : Bool) (e : Entry)
      → (e ≡ owner_file → ⊥)
      → CallInv h d now dead r i (removing unlinked)
      → CallKeeps h d now dead r i (unlink e r, removing unlinked)
  unlinked-CallKeeps unlinked e n c =
      let same = unlink-Restamped h d now dead r e n in
      Restamped-CallKeeps h d now dead r i a known alive (unlink e r) (removing unlinked) same
        (removing_kept unlinked _ same c)

  rmdir-CallKeeps :
      (unlinked : Bool)
      → CallInv h d now dead r i (removing unlinked)
      → CallKeeps h d now dead r i (remove_next unlinked none r)
  unfolding remove_next
  rmdir-CallKeeps unlinked c =
      on_success-split (CallKeeps h d now dead r i) r (rmdir r) false left
        (if unlinked then left else removing false) (unfinished unlinked c)
        (λ r' e.
          Restamped-CallKeeps h d now dead r i a known alive r' left
            (rmdir-Restamped h d now dead r r' e) tt)
    where
      unfinished :
          (u : Bool)
          → CallInv h d now dead r i (removing u)
          → CallKeeps h d now dead r i (r, if u then left else removing false)
      unfinished false c = stays-CallKeeps h d now dead r i a known alive (removing false) c
      unfinished true c = stays-CallKeeps h d now dead r i a known alive left tt

  remove_next-CallKeeps :
      (unlinked : Bool) (e : Option Entry)
      → CallInv h d now dead r i (removing unlinked)
      → CallKeeps h d now dead r i (remove_next unlinked e r)
  unfolding remove_next
  remove_next-CallKeeps unlinked none c = rmdir-CallKeeps unlinked c
  remove_next-CallKeeps false (some owner_file) c =
      let p = unlinked_effect h d now dead r in
      released-CallKeeps h d now dead r i a known alive (unlink owner_file r) (removing true) c p.0
        p.1 tt
  remove_next-CallKeeps true (some owner_file) c =
      stays-CallKeeps h d now dead r i a known alive (removing true) tt
  remove_next-CallKeeps unlinked (some stamp_file) c =
      unlinked-CallKeeps unlinked stamp_file (λ e. ground (arith, e)) c
  remove_next-CallKeeps unlinked (some (draft_file call written)) c =
      unlinked-CallKeeps unlinked (draft_file call written) (λ e. ground (arith, e)) c
  remove_next-CallKeeps unlinked (some other_files) c =
      unlinked-CallKeeps unlinked other_files (λ e. ground (arith, e)) c

  seen-CallKeeps :
      (o : Owner)
      → Truthful a.probe o.start (dead (h.process_of o.token))
      → CallInv h d now dead r i (seen o)
      → CallKeeps h d now dead r i (step_call (owner_of h i) now a r (seen o))
  unfolding step_call CallKeeps
  seen-CallKeeps o t c =
      if-split (CallKeeps h d now dead r i) (is_lock_owner_alive a.probe o)
        (r, waiting (live_holder o.pid)) (r, observed o now)
        (λ e. (known, tt, Carries-same h d now dead r i a known alive))
        (λ e. (
          known,
          (c, is_lock_owner_alive_evidence a.probe o _ t e, omega arith),
          Carries-same h d now dead r i a known alive,
        ))

  read_known : (o : Owner) → read_owner r ≡ some o → o ≡ owner_of h o.token
  unfolding KnownLock
  read_known = known

  refused-CallKeeps : CallKeeps h d now dead r i (step_call (owner_of h i) now a r refused)
  unfolding step_call
  refused-CallKeeps = go (read_owner r) refl
    where
      go :
          (x : Option Owner)
          → read_owner r ≡ x
          → CallKeeps h d now dead r i
              (elim x [ none ↦ (r, waiting unreadable) | some o ↦ (r, seen o) ])
      go none e = stays-CallKeeps h d now dead r i a known alive (waiting unreadable) tt
      go (some o) e = stays-CallKeeps h d now dead r i a known alive (seen o) (read_known o e)

  pub step_call-CallKeeps :
      (p : Pc)
      → Prompt d now p
      → TruthfulAt h dead a.probe p
      → CallInv h d now dead r i p
      → CallKeeps h d now dead r i (step_call (owner_of h i) now a r p)
  unfolding step_call
  step_call-CallKeeps trying pr t c = trying-CallKeeps
  step_call-CallKeeps refused pr t c = refused-CallKeeps
  step_call-CallKeeps (seen o) pr t c = seen-CallKeeps o t c
  step_call-CallKeeps (observed o at) pr t c = observed-CallKeeps o at c
  step_call-CallKeeps (confirmed o at) pr t c =
      stays-CallKeeps h d now dead r i a known alive (dated o at now) (c.0, c.1, c.0.2)
  step_call-CallKeeps (dated o at written) pr t c = dated-CallKeeps o at written c
  step_call-CallKeeps (drafted o at written) pr t c = drafted-CallKeeps o at written pr c
  step_call-CallKeeps (stamped o at) pr t c = stamped-CallKeeps o at pr c
  step_call-CallKeeps (moved o at) pr t c = moved-CallKeeps o at pr c
  step_call-CallKeeps (waiting why) pr t c =
      if-split (CallKeeps h d now dead r i) a.goes_on (r, trying) (r, gave_up)
        (λ e. stays-CallKeeps h d now dead r i a known alive trying tt)
        (λ e. stays-CallKeeps h d now dead r i a known alive gave_up tt)
  step_call-CallKeeps holding pr t c = holding-CallKeeps c
  step_call-CallKeeps leaving pr t c = leaving-CallKeeps c
  step_call-CallKeeps clearing pr t c = clearing-CallKeeps c
  step_call-CallKeeps (removing unlinked) pr t c =
      if-split (CallKeeps h d now dead r i) a.fails (r, left) (remove_next unlinked a.unlinks r)
        (λ e. stays-CallKeeps h d now dead r i a known alive left tt)
        (λ e. remove_next-CallKeeps unlinked a.unlinks c)
  step_call-CallKeeps left pr t c = stays-CallKeeps h d now dead r i a known alive left tt
  step_call-CallKeeps gave_up pr t c = stays-CallKeeps h d now dead r i a known alive gave_up tt
  step_call-CallKeeps broken pr t c = stays-CallKeeps h d now dead r i a known alive broken c
