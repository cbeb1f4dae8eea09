-- ===== src/Lock/Evidence.antt =====
-- What a call of withLock (src/state.js) knows of the lock directory, and that what others do keeps it.
use lane_broker.Prelude.{ℕ, ◌+◌, ◌*◌, ◌≤◌, ◌<◌, ◌≡◌, ◌⊎◌, inl, inr, Bool, true, false, some}
use lane_broker.Lease.{ProcessProbe}
use lane_broker.Lease.Reaping.{is_process_alive_evidence}
use lane_broker.Lock.{
  Owner, LockRoot, LockDir, is_lock_owner_alive, read_owner, Pc, trying, refused, seen, observed,
  confirmed, dated, drafted, removing, stamped, moved, waiting, holding, leaving, clearing, left,
  gave_up, broken,
}
use lane_broker.Lock.System.{Host, owner_of, Truthful}

-- The lock of a dead owner that a call found at `at` is still there, or lies in its tomb, which no
-- collection removes while the call may still act, or the call may no longer act.
abbrev pub Guarded : (d now : ℕ) → LockRoot → Owner → (at : ℕ) → Type 0
Guarded d now r o at =
    (read_owner r ≡ some o)
    ⊎ (((b : LockDir) × (r.tombs o.pid o.token ≡ some b)
          × (b.owner ≡ some o)
          × ((t : ℕ) → b.stolen_at ≡ some t → at ≤ t + 2 * d))
        ⊎ (at + d < now))

abbrev pub Buried : (d now : ℕ) → LockRoot → Owner → (at : ℕ) → Type 0
Buried d now r o at =
    ((b : LockDir) × (r.tombs o.pid o.token ≡ some b)
      × (b.owner ≡ some o)
      × ((t : ℕ) → b.stolen_at ≡ some t → at ≤ t + 2 * d))
    ⊎ (at + d < now)

-- The stamp of the lock directory, if it is this owner's, was not drawn much before `at`. Without a
-- stamp the tomb that it comes to be is never collected.
abbrev pub Stamped : (d : ℕ) → LockRoot → Owner → (at : ℕ) → Type 0
Stamped d r o at =
    (l : LockDir) → r.lock ≡ some l → l.owner ≡ some o → (t : ℕ) → l.stolen_at ≡ some t → at ≤ t + d

module _ (h : Host) (d now : ℕ) (dead : ℕ → Bool) (r : LockRoot) where
  abbrev pub FoundDead : Owner → (at : ℕ) → Type 0
  FoundDead o at = (o ≡ owner_of h o.token) × (dead (h.process_of o.token) ≡ true) × (at ≤ now)

  -- A call that has published its lock and lives.
  abbrev pub Holds : (call : ℕ) → Type 0
  Holds i = dead (h.process_of i) ≡ false → read_owner r ≡ some (owner_of h i)

  abbrev pub CallInv : (call : ℕ) → Pc → Type 0
  CallInv i (seen o) = o ≡ owner_of h o.token
  CallInv i (observed o at) = FoundDead o at
  CallInv i (confirmed o at) = FoundDead o at × Guarded d now r o at
  CallInv i (dated o at written) = FoundDead o at × Guarded d now r o at × (at ≤ written)
  CallInv i (drafted o at written) = FoundDead o at × Guarded d now r o at × (at ≤ written)
  CallInv i (stamped o at) = FoundDead o at × Guarded d now r o at × Stamped d r o at
  CallInv i (moved o at) = FoundDead o at × Buried d now r o at
  CallInv i holding = Holds i
  CallInv i leaving = Holds i
  CallInv i clearing = Holds i
  CallInv i (removing false) = Holds i
  CallInv i (removing true) = Unit
  CallInv i broken = ⊥
  CallInv i _ = Unit

-- A probe that may only say what is so finds an owner dead that is.
pub is_lock_owner_alive_evidence :
    (p : ProcessProbe) (o : Owner) (gone : Bool)
    → Truthful p o.start gone
    → is_lock_owner_alive p o ≡ false
    → gone ≡ true
unfolding is_lock_owner_alive
is_lock_owner_alive_evidence p o gone t e = elim (is_process_alive_evidence p o.start e) [
  | inl no_pid ↦ t.0 no_pid
  | inr (r, rec, inl (s, found, ne)) ↦ t.1 s r found rec ne
  | inr (r, rec, inr (found, again)) ↦ t.2 again
]

-- What a change of time, of the dead and of the root has to keep for the calls that do not act.
abbrev pub Carries :
    Host → (d now now' : ℕ) (dead dead' : ℕ → Bool) (r r' : LockRoot) (acting : ℕ → Type 0) → Type 0
Carries h d now now' dead dead' r r' acting =
    ((j : ℕ) → (acting j → ⊥) → Holds h d now dead r j → Holds h d now' dead' r' j)
    × ((o : Owner) (at : ℕ) → FoundDead h d now dead r o at → FoundDead h d now' dead' r' o at)
    × ((o : Owner) (at : ℕ)
        → FoundDead h d now dead r o at
        → Guarded d now r o at
        → Guarded d now' r' o at)
    × ((o : Owner) (at : ℕ) → Buried d now r o at → Buried d now' r' o at)
    × ((o : Owner) (at : ℕ) → FoundDead h d now dead r o at → Stamped d r o at → Stamped d r' o at)

pub carry :
    (h : Host) (d now now' : ℕ) (dead dead' : ℕ → Bool) (r r' : LockRoot) (acting : ℕ → Type 0)
    → Carries h d now now' dead dead' r r' acting
    → (j : ℕ) → (acting j → ⊥)
    → (p : Pc) → CallInv h d now dead r j p
    → CallInv h d now' dead' r' j p
carry h d now now' dead dead' r r' acting c j n (seen o) i = i
carry h d now now' dead dead' r r' acting c j n (observed o at) i = c.1 o at i
carry h d now now' dead dead' r r' acting c j n (confirmed o at) i =
    (c.1 o at i.0, c.2 o at i.0 i.1)
carry h d now now' dead dead' r r' acting c j n (dated o at written) i =
    (c.1 o at i.0, c.2 o at i.0 i.1, i.2)
carry h d now now' dead dead' r r' acting c j n (drafted o at written) i =
    (c.1 o at i.0, c.2 o at i.0 i.1, i.2)
carry h d now now' dead dead' r r' acting c j n (stamped o at) i =
    (c.1 o at i.0, c.2 o at i.0 i.1, c.4 o at i.0 i.2)
carry h d now now' dead dead' r r' acting c j n (moved o at) i = (c.1 o at i.0, c.3 o at i.1)
carry h d now now' dead dead' r r' acting c j n holding i = c.0 j n i
carry h d now now' dead dead' r r' acting c j n leaving i = c.0 j n i
carry h d now now' dead dead' r r' acting c j n clearing i = c.0 j n i
carry h d now now' dead dead' r r' acting c j n (removing false) i = c.0 j n i
carry h d now now' dead dead' r r' acting c j n (removing true) i = tt
carry h d now now' dead dead' r r' acting c j n broken i = i
carry h d now now' dead dead' r r' acting c j n trying i = tt
carry h d now now' dead dead' r r' acting c j n refused i = tt
carry h d now now' dead dead' r r' acting c j n (waiting w) i = tt
carry h d now now' dead dead' r r' acting c j n left i = tt
carry h d now now' dead dead' r r' acting c j n gave_up i = tt
