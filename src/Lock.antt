-- ===== src/Lock.antt =====
-- The global mutex (src/state.js, withLock and what it calls): the lock directory, the tombs of
-- directories that were taken from dead owners, and one call of withLock as a machine whose every
-- transition touches the file system at most once, so that calls of several processes interleave
-- between any two of them. An instant is milliseconds. A token is a random UUID of the call: a
-- number here. A directory name is there or not, and `tombs p t` is `.lock-tomb-<p>-<t>`. Staging
-- and trash directories have names of their own and appear only as the renames from and to them.
mod System
mod Evidence
mod Effects
mod Carrying
mod Keeping
mod Steps
mod Safety
mod Refinement
mod Recovery
mod Waiting
mod Tests
use lane_broker.Prelude.{
  ℕ, zero, suc, ◌+◌, ◌*◌, Bool, true, false, not, List, [], ◌∷◌, length, is_some, filter_by, any_by,
  ◌&&◌, Option, none, some, ltb, ◌==◌, if◌then◌else◌,
}
use lane_broker.Lease.{ProcessProbe, is_process_alive}

-- `owner.json`.
pub record Owner : Type 0 where
  pub pid : ℕ
  pub token : ℕ
  pub start : Option ℕ

-- A lock directory or a tomb: its `owner.json`, if readable, its `stolen-at`, if it parses, the
-- temporary files of stamps, each by the call that wrote it and the time in it, and whether there is
-- anything else in it, such as an `owner.json` that cannot be read.
pub record LockDir : Type 0 where
  pub owner : Option Owner
  pub stolen_at : Option ℕ
  pub drafts : List (ℕ × ℕ)
  pub others : Bool

pub record LockRoot : Type 0 where
  pub lock : Option LockDir
  pub tombs : (pid token : ℕ) → Option LockDir

-- What `kill(pid, 0)`, `ps` and a second `kill(pid, 0)` say of the owner.
unfoldable pub is_lock_owner_alive : ProcessProbe → Owner → Bool
is_lock_owner_alive p o = is_process_alive p o.start

abbrev pub tomb_ttl_ms : ℕ
tomb_ttl_ms = 7 * 24 * 60 * 60 * 1000

unfoldable pub is_stale : (now : ℕ) → LockDir → Bool
is_stale now d = elim d.stolen_at [ some at ↦ ltb (at + tomb_ttl_ms) now | none ↦ false ]

-- `fails p t`: that tomb cannot be removed now.
unfoldable pub gc_tombs :
    (fails : ℕ → ℕ → Bool) (now : ℕ) → (ℕ → ℕ → Option LockDir) → ℕ → ℕ → Option LockDir
gc_tombs fails now tombs p t = elim (tombs p t) [
  | none ↦ none
  | some d ↦ if is_stale now d && not (fails p t) then none else some d
]

unfoldable pub read_owner : LockRoot → Option Owner
read_owner r = elim r.lock [ none ↦ none | some d ↦ d.owner ]

unfoldable pub has_token : Option Owner → ℕ → Bool
has_token none t = false
has_token (some o) t = o.token == t

unfoldable pub is_empty : LockDir → Bool
is_empty d =
    not (is_some d.owner) && not (is_some d.stolen_at) && (length d.drafts == 0) && not d.others

-- Where a directory can be renamed to: a path without a directory, or with an empty one.
unfoldable pub is_free : Option LockDir → Bool
is_free none = true
is_free (some d) = is_empty d

abbrev pub staged : Owner → LockDir
staged me = record { owner = some me; stolen_at = none; drafts = []; others = false }

-- `renameSync(staging, lockDir)`.
unfoldable pub publish : Owner → LockRoot → Option LockRoot
publish me r =
    if is_free r.lock then some (record { lock = some (staged me); tombs = r.tombs }) else none

-- `writeFileSync(stampTmp, ...)`, into the lock directory that is there now.
unfoldable pub write_draft : (call written : ℕ) → LockRoot → Option LockRoot
write_draft call written r = elim r.lock [
  | none ↦ none
  | some d ↦ some (record {
    lock = some (record {
      owner = d.owner;
      stolen_at = d.stolen_at;
      drafts = (call, written) ∷ d.drafts;
      others = d.others;
    });
    tombs = r.tombs;
  })
]

unfoldable pub is_draft : (call written : ℕ) → ℕ × ℕ → Bool
is_draft call written f = (f.0 == call) && (f.1 == written)

unfoldable pub without_draft : (call written : ℕ) → List (ℕ × ℕ) → List (ℕ × ℕ)
without_draft call written fs = filter_by (λ (f : ℕ × ℕ). not (is_draft call written f)) fs

-- `renameSync(stampTmp, 'stolen-at')`: it fails if the lock directory that is there now is not the one
-- that the temporary file was written into.
unfoldable pub stamp : (call written : ℕ) → LockRoot → Option LockRoot
stamp call written r = elim r.lock [
  | none ↦ none
  | some d ↦
      if any_by (is_draft call written) d.drafts
      then some (record {
        lock = some (record {
          owner = d.owner;
          stolen_at = some written;
          drafts = without_draft call written d.drafts;
          others = d.others;
        });
        tombs = r.tombs;
      })
      else none
]

-- `renameSync(lockDir, tomb)`.
unfoldable pub bury : Owner → LockRoot → Option LockRoot
bury o r = elim r.lock [
  | none ↦ none
  | some d ↦
      if is_free (r.tombs o.pid o.token)
      then some (record {
        lock = none;
        tombs = λ p t. if (o.pid == p) && (o.token == t) then some d else r.tombs p t;
      })
      else none
]

-- `renameSync(tomb, lockDir)`.
unfoldable pub unbury : Owner → LockRoot → Option LockRoot
unbury o r = elim (r.tombs o.pid o.token) [
  | none ↦ none
  | some d ↦
      if is_free r.lock
      then some (record {
        lock = some d;
        tombs = λ p t. if (o.pid == p) && (o.token == t) then none else r.tombs p t;
      })
      else none
]

-- `renameSync(lockDir, trash)`.
unfoldable pub clear : LockRoot → Option LockRoot
clear r = elim r.lock [ none ↦ none | some d ↦ some (record { lock = none; tombs = r.tombs }) ]

-- What `rmSync` unlinks in the lock directory, one after another and in an order of its own.
pub data Entry : Type 0 where
  owner_file : Entry
  stamp_file : Entry
  draft_file : (call written : ℕ) → Entry
  other_files : Entry

unfoldable pub without_entry : Entry → LockDir → LockDir
without_entry owner_file d = record d { owner = none }
without_entry stamp_file d = record d { stolen_at = none }
without_entry (draft_file call written) d = record d {
  drafts = without_draft call written d.drafts;
}
without_entry other_files d = record d { others = false }

unfoldable pub unlink : Entry → LockRoot → LockRoot
unlink e r = elim r.lock [
  | none ↦ r
  | some d ↦ record { lock = some (without_entry e d); tombs = r.tombs }
]

-- The last step of `rmSync`, which fails on a directory that has come to hold something.
unfoldable pub rmdir : LockRoot → Option LockRoot
rmdir r = if is_free r.lock then some (record { lock = none; tombs = r.tombs }) else none

unfoldable pub tomb_owner : LockRoot → Owner → Option Owner
tomb_owner r o = elim (r.tombs o.pid o.token) [ none ↦ none | some d ↦ d.owner ]

-- Why a call waits before it tries again.
pub data Wait : Type 0 where
  unreadable : Wait
  live_holder : (pid : ℕ) → Wait
  recovered : Wait
  recovery_failed : Wait

-- Where a call of withLock is. `at` is when it saw the owner dead, `written` the time that it stamps;
-- `removing` says whether its `rmSync` has unlinked `owner.json`.
pub data Pc : Type 0 where
  trying : Pc
  refused : Pc
  seen : Owner → Pc
  observed : Owner → (at : ℕ) → Pc
  confirmed : Owner → (at : ℕ) → Pc
  dated : Owner → (at written : ℕ) → Pc
  drafted : Owner → (at written : ℕ) → Pc
  stamped : Owner → (at : ℕ) → Pc
  moved : Owner → (at : ℕ) → Pc
  waiting : Wait → Pc
  holding : Pc
  leaving : Pc
  clearing : Pc
  removing : (unlinked : Bool) → Pc
  left : Pc
  gave_up : Pc
  broken : Pc

-- What the system answers at a transition: whether the call's write or rename fails for a reason of
-- its own, what the probe of the owner says, whether the deadline lets the call go on, and what
-- `rmSync` does next: unlink an entry or remove the directory.
pub record Answer : Type 0 where
  pub fails : Bool
  pub probe : ProcessProbe
  pub goes_on : Bool
  pub unlinks : Option Entry

unfoldable pub on_success : LockRoot → Option LockRoot → Bool → (won lost : Pc) → LockRoot × Pc
on_success r none fails won lost = (r, lost)
on_success r (some after) fails won lost = if fails then (r, lost) else (after, won)

-- `rmSync` of the lock directory; `owner.json` is unlinked once.
unfoldable pub remove_next : (unlinked : Bool) → Option Entry → LockRoot → LockRoot × Pc
unfolding on_success
remove_next unlinked none r =
    on_success r (rmdir r) false left (if unlinked then left else removing false)
remove_next false (some owner_file) r = (unlink owner_file r, removing true)
remove_next true (some owner_file) r = (r, removing true)
remove_next unlinked (some stamp_file) r = (unlink stamp_file r, removing unlinked)
remove_next unlinked (some (draft_file call written)) r =
    (unlink (draft_file call written) r, removing unlinked)
remove_next unlinked (some other_files) r = (unlink other_files r, removing unlinked)

unfoldable pub step_call : (me : Owner) (now : ℕ) → Answer → LockRoot → Pc → LockRoot × Pc
unfolding on_success
step_call me now a r trying = on_success r (publish me r) a.fails holding refused
step_call me now a r refused = elim (read_owner r) [
  | none ↦ (r, waiting unreadable)
  | some o ↦ (r, seen o)
]
step_call me now a r (seen o) =
    if is_lock_owner_alive a.probe o then (r, waiting (live_holder o.pid)) else (r, observed o now)
step_call me now a r (observed o at) =
    if has_token (read_owner r) o.token then (r, confirmed o at) else (r, waiting recovery_failed)
step_call me now a r (confirmed o at) = (r, dated o at now)
step_call me now a r (dated o at written) =
    on_success r (write_draft me.token written r) a.fails (drafted o at written)
      (waiting recovery_failed)
step_call me now a r (drafted o at written) =
    on_success r (stamp me.token written r) a.fails (stamped o at) (waiting recovery_failed)
step_call me now a r (stamped o at) =
    on_success r (bury o r) a.fails (moved o at) (waiting recovery_failed)
step_call me now a r (moved o at) =
    if has_token (tomb_owner r o) o.token
    then (r, waiting recovered)
    else on_success r (unbury o r) a.fails (waiting recovery_failed) broken
step_call me now a r (waiting why) = if a.goes_on then (r, trying) else (r, gave_up)
step_call me now a r holding = if has_token (read_owner r) me.token then (r, leaving) else (r, left)
step_call me now a r leaving = on_success r (clear r) a.fails left clearing
step_call me now a r clearing =
    if has_token (read_owner r) me.token then (r, removing false) else (r, left)
step_call me now a r (removing unlinked) =
    if a.fails then (r, left) else remove_next unlinked a.unlinks r
step_call me now a r left = (r, left)
step_call me now a r gave_up = (r, gave_up)
step_call me now a r broken = (r, broken)
