-- ===== src/Lock/Waiting.antt =====
-- How long a call of withLock (src/state.js) waits: its deadline, and the policy under which it waits on
-- past a deadline (setLockContentionPolicy).
use lane_broker.Prelude.{
  ℕ, suc, ◌+◌, ◌*◌, ◌≤◌, ◌<◌, min, ◌≡◌, ◌↔◌, ◌⊎◌, inl, inr, subst, Bool, true, false, not, ◌&&◌,
  ◌||◌, Option, none, some, List, [], ◌∷◌, arith, ltb, leb, ◌==◌, if◌then◌else◌, Bool-cases,
  Option-cases, All, sum_by,
}
use lane_broker.Lock.{Wait, unreadable, live_holder, recovered, recovery_failed}

pub record Policy : Type 0 where
  pub timeout_ms : ℕ
  pub retry_contention : Bool
  pub own_pid : ℕ

pub record Timer : Type 0 where
  pub deadline : ℕ
  pub backoff_ceiling_ms : ℕ
  pub unreadable_deadlines : ℕ

abbrev pub contention_backoff_min_ms : ℕ
contention_backoff_min_ms = 100

abbrev pub contention_backoff_max_ms : ℕ
contention_backoff_max_ms = 2000

abbrev pub unreadable_owner_deadlines_max : ℕ
unreadable_owner_deadlines_max = 3

-- `backOff`, which sleeps for at most the ceiling and is back at `now`.
unfoldable pub back_off : Policy → Timer → (now : ℕ) → Timer
back_off p t now = record {
  deadline = now + p.timeout_ms;
  backoff_ceiling_ms = min (t.backoff_ceiling_ms * 2) contention_backoff_max_ms;
  unreadable_deadlines = t.unreadable_deadlines;
}

unfoldable pub counted : Timer → (unreadable_deadlines : ℕ) → Timer
counted t n = record {
  deadline = t.deadline;
  backoff_ceiling_ms = t.backoff_ceiling_ms;
  unreadable_deadlines = n;
}

-- The decision after a failed attempt at `now`: `none` throws LockTimeoutError. A back-off is over at
-- `back`.
unfoldable pub after_wait : Policy → Timer → (now back : ℕ) → Wait → Option Timer
after_wait p t now back unreadable =
    if ltb t.deadline now
    then (if not p.retry_contention
          || leb unreadable_owner_deadlines_max (t.unreadable_deadlines + 1)
        then none
        else some (back_off p (counted t (t.unreadable_deadlines + 1)) back))
    else some t
after_wait p t now back (live_holder pid) =
    if ltb t.deadline now
    then (if not p.retry_contention || pid == p.own_pid
        then none
        else some (back_off p (counted t 0) back))
    else some (counted t 0)
after_wait p t now back recovered =
    if ltb t.deadline now && not p.retry_contention then none else some (counted t 0)
after_wait p t now back recovery_failed = if ltb t.deadline now then none else some (counted t 0)

-- A call gives up exactly when its deadline has passed and, unless the wait was for its own recovery of
-- a dead owner's lock, it does not retry, or waits for itself, or finds the owner unreadable at the
-- third deadline in a row, or its recovery failed.
abbrev pub GivesUp : Policy → Timer → (now : ℕ) → Wait → Type 0
GivesUp p t now unreadable =
    (t.deadline < now) × ((p.retry_contention ≡ false) ⊎ (2 ≤ t.unreadable_deadlines))
GivesUp p t now (live_holder pid) =
    (t.deadline < now) × ((p.retry_contention ≡ false) ⊎ (pid ≡ p.own_pid))
GivesUp p t now recovered = (t.deadline < now) × (p.retry_contention ≡ false)
GivesUp p t now recovery_failed = t.deadline < now

-- A call that fails to get the lock throws LockTimeoutError exactly if its deadline has passed and: it
-- does not retry; or its recovery of a dead owner's lock failed; or the lock is its own process's; or it
-- is the third deadline in a row at which the owner cannot be read. It never throws right after it
-- has recovered a lock unless it does not retry.
pub after_wait-GivesUp :
    (p : Policy) (t : Timer) (now back : ℕ) (why : Wait)
    → (after_wait p t now back why ≡ none) ↔ GivesUp p t now why
unfolding after_wait
after_wait-GivesUp p t now back unreadable = ground (arith, Bool-cases p.retry_contention)
after_wait-GivesUp p t now back (live_holder pid) = ground (arith, Bool-cases p.retry_contention)
after_wait-GivesUp p t now back recovered = ground (arith, Bool-cases p.retry_contention)
after_wait-GivesUp p t now back recovery_failed = ground arith

pub record FailedTry : Type 0 where
  pub now : ℕ
  pub back : ℕ
  pub why : Wait

-- The failed attempts of one call, in order.
unfoldable pub run_waits : Policy → Timer → List FailedTry → Option Timer
run_waits p t [] = some t
run_waits p t (a ∷ rest) = elim (after_wait p t a.now a.back a.why) [
  | none ↦ none
  | some after ↦ run_waits p after rest
]

-- Only a recovery is tried again at once; every other wait sleeps for `pollMs`.
unfoldable pub slept_ms : (poll_ms : ℕ) → Wait → ℕ
slept_ms poll recovered = 0
slept_ms poll unreadable = poll
slept_ms poll (live_holder pid) = poll
slept_ms poll recovery_failed = poll

-- The clock does not step back, and sleeping takes its time.
abbrev pub Clocked : (poll_ms since : ℕ) → List FailedTry → Type 0
Clocked poll since [] = Unit
Clocked poll since (a ∷ rest) = (since ≤ a.now) × Clocked poll (a.now + slept_ms poll a.why) rest

one_wait :
    (p : Policy) (t u : Timer) (poll since : ℕ) (a : FailedTry)
    → p.retry_contention ≡ false
    → after_wait p t a.now a.back a.why ≡ some u
    → (u.deadline ≡ t.deadline) × (a.now ≤ t.deadline) × (slept_ms poll a.why ≤ poll)
unfolding after_wait counted slept_ms
one_wait p t u poll since a plain e = one a.why e
  where
    one :
        (why : Wait)
        → after_wait p t a.now a.back why ≡ some u
        → (u.deadline ≡ t.deadline) × (a.now ≤ t.deadline) × (slept_ms poll why ≤ poll)
    one unreadable e = ground (arith, plain)
    one (live_holder pid) e = ground (arith, plain)
    one recovered e = ground (arith, plain)
    one recovery_failed e = ground (arith, plain)

-- A call that does not retry ends: from `since` on, its failed attempts sleep until one interval after
-- its deadline at most, so that with a positive interval only finitely many of them go on; and each
-- that goes on was made by the deadline.
pub run_waits-ends :
    (p : Policy) (t u : Timer) (poll since : ℕ) (tries : List FailedTry)
    → p.retry_contention ≡ false
    → since ≤ t.deadline + poll
    → Clocked poll since tries
    → run_waits p t tries ≡ some u
    → (since + sum_by (λ a. slept_ms poll a.why) tries ≤ t.deadline + poll)
      × All (λ a. a.now ≤ t.deadline) tries
unfolding run_waits
run_waits-ends p t u poll since [] plain early c e = (omega (arith, early), tt)
run_waits-ends p t u poll since (a ∷ rest) plain early (le, c) e =
    elim (Option-cases (after_wait p t a.now a.back a.why)) [
      | inl over ↦ absurd (ground (arith, over))
      | inr (v, on) ↦
          let w = one_wait p t v poll since a plain on in
          let more =
            run_waits-ends p v u poll (a.now + slept_ms poll a.why) rest plain (ground (arith, w)) c
              (ground (arith, on)) in
          (ground (arith, w, more.0), (w.1, subst (λ x. All (λ b. b.now ≤ x) rest) w.0 more.1))
    ]

abbrev pub Unreadable : FailedTry → Type 0
Unreadable a = a.why ≡ unreadable

one_unreadable_wait :
    (p : Policy) (t u : Timer) (a : FailedTry)
    → a.why ≡ unreadable
    → after_wait p t a.now a.back a.why ≡ some u
    → ((ltb t.deadline a.now ≡ false) × (u.unreadable_deadlines ≡ t.unreadable_deadlines))
      ⊎ ((ltb t.deadline a.now ≡ true)
          × (u.unreadable_deadlines ≡ suc t.unreadable_deadlines)
          × (u.unreadable_deadlines ≤ 2))
unfolding after_wait counted back_off
one_unreadable_wait p t u a un e =
    ground (arith, un, Bool-cases p.retry_contention, Bool-cases (ltb t.deadline a.now))

-- The attempts of a run that were made past a deadline and still go on.
unfoldable pub late_attempts : Policy → Timer → List FailedTry → ℕ
late_attempts p t [] = 0
late_attempts p t (a ∷ rest) = elim (after_wait p t a.now a.back a.why) [
  | none ↦ 0
  | some after ↦ (if ltb t.deadline a.now then 1 else 0) + late_attempts p after rest
]

-- A call that cannot read the owner once, whatever its policy, goes on past at most two deadlines: at
-- the third it throws.
pub late_attempts-bound :
    (p : Policy) (t : Timer) (tries : List FailedTry)
    → t.unreadable_deadlines ≤ 2
    → All (λ a. a.why ≡ unreadable) tries
    → late_attempts p t tries + t.unreadable_deadlines ≤ 2
unfolding late_attempts
late_attempts-bound p t [] few un = omega (arith, few)
late_attempts-bound p t (a ∷ rest) few (un, uns) =
    elim (Option-cases (after_wait p t a.now a.back a.why)) [
      | inl over ↦ ground (arith, over, few)
      | inr (v, on) ↦
          let w = one_unreadable_wait p t v a un on in
          let more = late_attempts-bound p v rest (ground (arith, few, w)) uns in
          ground (arith, on, w, more)
    ]
