-- ===== src/Lock/Recovery.antt =====
-- A caller that is left alone gets the lock (src/state.js, withLock), also from a dead owner.
use lane_broker.Prelude.{
  ℕ, zero, suc, ◌≡◌, true, false, ◌&&◌, Option, none, some, ◌∷◌, ◌==◌, if◌then◌else◌,
}
use lane_broker.Lease.{ProcessProbe}
use lane_broker.Lock.{
  without_draft, staged, Entry, confirmed, staged, without_draft, confirmed, Owner, LockRoot,
  LockDir, Pc, Answer, step_call, is_lock_owner_alive,
}

-- `n` transitions of one call, with the same answers each time and no other call in between.
unfoldable pub alone : (me : Owner) (now : ℕ) → Answer → ℕ → LockRoot × Pc → LockRoot × Pc
alone me now a zero s = s
alone me now a (suc n) s = alone me now a n (step_call me now a s.0 s.1)

abbrev going_well : ProcessProbe → Option Entry → Answer
going_well probe unlinks = record {
  fails = false;
  probe = probe;
  goes_on = true;
  unlinks = unlinks;
}

module _ (me o : Owner) (now : ℕ) (probe : ProcessProbe) (unlinks : Option Entry) where
  module _ (l : LockDir) (tombs : ℕ → ℕ → Option LockDir) (of : l.owner ≡ some o)
      (dead : is_lock_owner_alive probe o ≡ false) (no_tomb : tombs o.pid o.token ≡ none) where
    marked : LockDir
    marked = record l {
      stolen_at = some now;
      drafts = without_draft me.token now ((me.token, now) ∷ l.drafts);
    }

    buried : ℕ → ℕ → Option LockDir
    buried p t = if (o.pid == p) && (o.token == t) then some marked else tombs p t
