-- ===== src/Lock/System.antt =====
-- Calls of withLock (src/state.js) by several processes, interleaved: each step is a transition of
-- one call, a garbage collection of tombs, the end of a process, or the passing of time.
use lane_broker.Prelude.{
  ℕ, ◌+◌, ◌≤◌, ◌≡◌, ◌≢◌, Bool, true, false, Option, none, some, ◌==◌, if◌then◌else◌,
}
use lane_broker.Lease.{ProcessProbe, started_at}
use lane_broker.Lock.{
  Owner, LockRoot, gc_tombs, Pc, trying, seen, confirmed, dated, drafted, stamped, moved, Answer,
  step_call,
}

-- The calls are numbered by their tokens; each belongs to a process, which has a pid and a start
-- time that it may have failed to read. A pid may be that of several processes.
pub record Host : Type 0 where
  pub process_of : (call : ℕ) → ℕ
  pub pid_of : (process : ℕ) → ℕ
  pub start_of : (process : ℕ) → Option ℕ

abbrev pub owner_of : Host → (call : ℕ) → Owner
owner_of h i = record {
  pid = h.pid_of (h.process_of i);
  token = i;
  start = h.start_of (h.process_of i);
}

pub record System : Type 0 where
  pub now : ℕ
  pub dead : (process : ℕ) → Bool
  pub root : LockRoot
  pub pc : (call : ℕ) → Pc

abbrev pub update {ℓ} : {A : Type ℓ} → (ℕ → A) → ℕ → A → ℕ → A
update f i a j = if i == j then a else f j

abbrev pub init : System
init = record {
  now = 0;
  dead = λ q. false;
  root = record { lock = none; tombs = λ p t. none };
  pc = λ i. trying;
}

-- What a probe of process `q`, recorded with start time `start`, may answer: it says gone only of a
-- process that is.
abbrev pub Truthful : ProcessProbe → (start : Option ℕ) → (gone : Bool) → Type 0
Truthful p start gone =
    (p.pid_alive ≡ false → gone ≡ true)
    × ((s r : ℕ) → p.start ≡ started_at s → start ≡ some r → s ≢ r → gone ≡ true)
    × (p.alive_again ≡ false → gone ≡ true)

abbrev pub TruthfulAt : Host → (ℕ → Bool) → ProcessProbe → Pc → Type 0
TruthfulAt h dead p (seen o) = Truthful p o.start (dead (h.process_of o.token))
TruthfulAt h dead p _ = Unit

-- A call that takes a lock over acts within `d` of having seen its owner dead.
abbrev pub Prompt : (d now : ℕ) → Pc → Type 0
Prompt d now (confirmed o at) = now ≤ at + d
Prompt d now (dated o at written) = now ≤ at + d
Prompt d now (drafted o at written) = now ≤ at + d
Prompt d now (stamped o at) = now ≤ at + d
Prompt d now (moved o at) = now ≤ at + d
Prompt d now _ = Unit

abbrev pub after_call : Host → System → (i : ℕ) → Answer → System
after_call h s i a =
    let next = step_call (owner_of h i) s.now a s.root (s.pc i) in
    record { now = s.now; dead = s.dead; root = next.0; pc = update s.pc i next.1 }

abbrev pub after_gc : (fails : ℕ → ℕ → Bool) → System → System
after_gc fails s = record {
  now = s.now;
  dead = s.dead;
  root = record { lock = s.root.lock; tombs = gc_tombs fails s.now s.root.tombs };
  pc = s.pc;
}

pub data Step (h : Host) (d : ℕ) : System → System → Type 0 where
  act :
      {s : System} (i : ℕ) (a : Answer)
      → s.dead (h.process_of i) ≡ false
      → Prompt d s.now (s.pc i)
      → TruthfulAt h s.dead a.probe (s.pc i)
      → Step h d s (after_call h s i a)
  collect : {s : System} (fails : ℕ → ℕ → Bool) → Step h d s (after_gc fails s)
  die :
      {s : System} (q : ℕ)
      → Step h d s (record { now = s.now; dead = update s.dead q true; root = s.root; pc = s.pc })
  pass :
      {s : System} (ms : ℕ)
      → Step h d s (record { now = s.now + ms; dead = s.dead; root = s.root; pc = s.pc })

pub data Reach (h : Host) (d : ℕ) : System → Type 0 where
  start : Reach h d init
  later : {s t : System} → Reach h d s → Step h d s t → Reach h d t
