-- ===== src/Lock/Refinement.antt =====
-- withLock (src/state.js) implements a mutex that its owner takes and gives back, and that only a dead
-- owner loses.
use lane_broker.Prelude.{ℕ, ◌≡◌, Bool, true, false, Option, none, some}
use lane_broker.Lock.{LockRoot, read_owner, Pc, Answer}
use lane_broker.Lock.System.{Host, System}

-- The abstract mutex: free, or owned by a call. `gone i` says that the process of call `i` has ended.
pub data MutexStep (gone : ℕ → Bool) : Option ℕ → Option ℕ → Type 0 where
  stutter : {m : Option ℕ} → MutexStep gone m m
  acquire : (i : ℕ) → gone i ≡ false → MutexStep gone none (some i)
  release : (i : ℕ) → gone i ≡ false → MutexStep gone (some i) none
  forfeit : (i : ℕ) → gone i ≡ true → MutexStep gone (some i) none

-- The call whose record is in the lock directory.
unfoldable pub view : LockRoot → Option ℕ
view r = elim (read_owner r) [ none ↦ none | some o ↦ some o.token ]

module _ (h : Host) (d now : ℕ) (dead : ℕ → Bool) (r : LockRoot) (i : ℕ) (a : Answer)
    (alive : dead (h.process_of i) ≡ false) where
  gone : ℕ → Bool
  gone j = dead (h.process_of j)

  Refines : LockRoot × Pc → Type 0
  Refines next = MutexStep gone (view r) (view next.0)
