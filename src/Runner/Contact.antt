-- ===== src/Runner/Contact.antt =====
-- The clock of a failing runner (src/runner-unreachable.js) and what placement reads off it.
use lane_broker.Prelude.{
  ℕ, ◌+◌, ◌≤◌, ◌<◌, ◌≡◌, ◌≢◌, inl, inr, refl, ap, subst, ◌∙◌, Bool, true, false, Option, none, some,
  List, [], ◌∷◌, ◌++◌, arith, ◌==◌, if◌then◌else◌, Bool-cases, Option-cases, or_else, All,
}
use lane_broker.Runner.{
  ContactFile, heartbeat_fresh_ms, apply_contact, record_contact, contacts, record_pings, is_fresh,
  Runner, is_down, is_heartbeat_up, runner_state, down,
}

-- A reconcile contacts one runner, or the watcher pings several.
pub data ContactEvent : Type 0 where
  contact : (name : ℕ) (ok : Bool) (at : ℕ) → ContactEvent
  tick : (pings : List (ℕ × Bool)) (at : ℕ) → ContactEvent

unfoldable pub contact_event : ContactFile → ContactEvent → ContactFile
contact_event f (contact name ok at) = (record_contact f name ok at).0
contact_event f (tick pings at) = record_pings f pings at

unfoldable pub contact_run : ContactFile → List ContactEvent → ContactFile
contact_run f [] = f
contact_run f (e ∷ es) = contact_run (contact_event f e) es

-- What an event says of runner `n`, its last word: it answered, it failed, or nothing.
abbrev pub word_of : (n : ℕ) → List (ℕ × Bool) → Option Bool
word_of n [] = none
word_of n ((name, ok) ∷ rest) = elim (word_of n rest) [
  | some w ↦ some w
  | none ↦ if name == n then some ok else none
]

-- The names of a tick are those of the configured runners, each once.
abbrev pub Once : List (ℕ × Bool) → Type 0
Once [] = Unit
Once ((name, ok) ∷ rest) = (word_of name rest ≡ none) × Once rest

abbrev pub word : (n : ℕ) → ContactEvent → Option Bool
word n (contact name ok at) = if name == n then some ok else none
word n (tick pings at) = word_of n pings

abbrev pub time : ContactEvent → ℕ
time (contact name ok at) = at
time (tick pings at) = at

abbrev pub IsTick : ContactEvent → Type 0
IsTick (contact name ok at) = Unit
IsTick (tick pings at) = Once pings

-- What a runner's clock is after an event that says this of it.
abbrev pub clock_after : Option ℕ → Option Bool → (at : ℕ) → Option ℕ
clock_after before none at = before
clock_after before (some true) at = none
clock_after before (some false) at = some (or_else before at)

contacts-elsewhere :
    (u : ℕ → Option ℕ) (now : ℕ) (pings : List (ℕ × Bool)) (n : ℕ)
    → word_of n pings ≡ none
    → contacts u now pings n ≡ u n
unfolding contacts apply_contact
contacts-elsewhere u now [] n e = refl
contacts-elsewhere u now ((name, ok) ∷ rest) n e =
    let more = contacts-elsewhere (apply_contact u name ok now) now rest n (ground (arith, e)) in
    more ∙ ground (arith, e, Bool-cases (name == n))

contacts-clock_after :
    (u : ℕ → Option ℕ) (now : ℕ) (pings : List (ℕ × Bool)) (n : ℕ)
    → Once pings
    → contacts u now pings n ≡ clock_after (u n) (word_of n pings) now
unfolding contacts apply_contact
contacts-clock_after u now [] n o = refl
contacts-clock_after u now ((name, ok) ∷ rest) n (once, o) = elim (Bool-cases (name == n)) [
  | inl same ↦
      let here : name ≡ n = ground (arith, same) in
      let silent : word_of n rest ≡ none = subst (λ k. word_of k rest ≡ none) here once in
      contacts-elsewhere (apply_contact u name ok now) now rest n silent
      ∙ ground (arith, same, silent, Bool-cases ok)
  | inr other ↦
      contacts-clock_after (apply_contact u name ok now) now rest n o
      ∙ ground (arith, other, Option-cases (word_of n rest))
]

contact_event-clock_after :
    (f : ContactFile) (e : ContactEvent) (n : ℕ)
    → IsTick e
    → (contact_event f e).unreachable n ≡ clock_after (f.unreachable n) (word n e) (time e)
unfolding contact_event record_contact apply_contact record_pings
contact_event-clock_after f (contact name ok at) n t =
    ground (arith, Bool-cases (name == n), Bool-cases ok)
contact_event-clock_after f (tick pings at) n t = contacts-clock_after f.unreachable at pings n t

-- When runner `n` first failed in a list of events.
abbrev pub first_failure : (n : ℕ) → List ContactEvent → Option ℕ
first_failure n [] = none
first_failure n (e ∷ es) = elim (word n e) [
  | some false ↦ some (time e)
  | some true ↦ first_failure n es
  | none ↦ first_failure n es
]

abbrev pub NeverAnswers : (n : ℕ) → List ContactEvent → Type 0
NeverAnswers n [] = Unit
NeverAnswers n (e ∷ es) = (word n e ≢ some true) × NeverAnswers n es

first_or : Option ℕ → Option ℕ → Option ℕ
first_or (some t) later = some t
first_or none later = later

first_or_step :
    (before after : Option ℕ) (w : Option Bool) (at : ℕ) (later : Option ℕ)
    → w ≢ some true
    → after ≡ clock_after before w at
    → first_or after later
      ≡ first_or before (elim w [ some false ↦ some at | some true ↦ later | none ↦ later ])
unfolding first_or
first_or_step before after none at later silent e = ground (arith, e, Option-cases before)
first_or_step before after (some true) at later silent e = absurd (silent refl)
first_or_step before after (some false) at later silent e = ground (arith, e, Option-cases before)

contact_run-first_or :
    (n : ℕ) (f : ContactFile) (es : List ContactEvent)
    → All IsTick es
    → NeverAnswers n es
    → (contact_run f es).unreachable n ≡ first_or (f.unreachable n) (first_failure n es)
unfolding contact_run first_or
contact_run-first_or n f [] t never = ground (arith, Option-cases (f.unreachable n))
contact_run-first_or n f (e ∷ es) (t, ts) (silent, never) =
    contact_run-first_or n (contact_event f e) es ts never
    ∙ first_or_step (f.unreachable n) ((contact_event f e).unreachable n) (word n e) (time e)
        (first_failure n es) silent (contact_event-clock_after f e n t)

contact_run-append :
    (f : ContactFile) (xs ys : List ContactEvent)
    → contact_run f (xs ++ ys) ≡ contact_run (contact_run f xs) ys
unfolding contact_run
contact_run-append f [] ys = refl
contact_run-append f (x ∷ xs) ys = contact_run-append (contact_event f x) xs ys

-- After any run of contacts and watcher ticks, each of which pings a runner at most once, the clock of a
-- runner that has answered and not since is the time of its first failed contact after that answer, and
-- it has no clock if it has not failed since.
pub contact_run-first_failure :
    (n : ℕ) (f : ContactFile) (earlier : List ContactEvent) (answer : ContactEvent)
    (later : List ContactEvent)
    → word n answer ≡ some true
    → IsTick answer
    → All IsTick later
    → NeverAnswers n later
    → (contact_run f (earlier ++ (answer ∷ later))).unreachable n ≡ first_failure n later
unfolding contact_run first_or
contact_run-first_failure n f earlier answer later e t ts never =
    let before = contact_run f earlier in
    let cleared : (contact_event before answer).unreachable n ≡ none =
      contact_event-clock_after before answer n t
      ∙ ap (λ w. clock_after (before.unreachable n) w (time answer)) e in
    ap (λ (g : ContactFile). g.unreachable n) (contact_run-append f earlier (answer ∷ later))
    ∙ contact_run-first_or n (contact_event before answer) later ts never
    ∙ ap (λ o. first_or o (first_failure n later)) cleared

is_fresh-tick :
    (f : ContactFile) (now : ℕ)
    → is_fresh f now ≡ true
    → (tick_at : ℕ) × (f.heartbeat_at ≡ some tick_at) × (now ≤ tick_at + heartbeat_fresh_ms)
unfolding is_fresh
is_fresh-tick f now e = elim (Option-cases f.heartbeat_at) [
  | inl never ↦ absurd (ground (arith, e, never))
  | inr (at, ticked) ↦ (at, ticked, ground (arith, e, ticked))
]

is_fresh-stale :
    (f : ContactFile) (now : ℕ)
    → ((tick_at : ℕ) → f.heartbeat_at ≡ some tick_at → tick_at + heartbeat_fresh_ms < now)
    → is_fresh f now ≡ false
unfolding is_fresh
is_fresh-stale f now silent = elim (Option-cases f.heartbeat_at) [
  | inl never ↦ ground (arith, never)
  | inr (at, ticked) ↦ ground (arith, ticked, silent at ticked)
]

-- A runner that placement skips as down is not one that the heartbeat vouches for, and its state is
-- shown as down. It is configured as online, the watcher has ticked within five minutes, and the
-- runner's streak of failures is at least `runnerDownAfterMs` old. While no tick is that recent no
-- runner is either.
pub is_down-evidence :
    (f : ContactFile) (after now : ℕ) (on_schedule : Bool) (r : Runner)
    → (is_down f after now r ≡ true
        → (is_heartbeat_up f now r ≡ false)
          × (runner_state f after now on_schedule r ≡ down)
          × (r.offline ≡ false)
          × ((tick_at : ℕ) × (f.heartbeat_at ≡ some tick_at) × (now ≤ tick_at + heartbeat_fresh_ms))
          × ((since : ℕ) × (f.unreachable r.name ≡ some since) × (since + after ≤ now)))
      × (((tick_at : ℕ) → f.heartbeat_at ≡ some tick_at → tick_at + heartbeat_fresh_ms < now)
          → (is_down f after now r ≡ false) × (is_heartbeat_up f now r ≡ false))
unfolding is_down is_heartbeat_up runner_state
is_down-evidence f after now on_schedule r = (
  λ d. elim (Option-cases (f.unreachable r.name)) [
    | inl never ↦ absurd (ground (arith, d, never))
    | inr (since, e) ↦ (
      ground (arith, d, e),
      ground (arith, d),
      ground (arith, d),
      is_fresh-tick f now (ground (arith, d)),
      (since, e, ground (arith, d, e)),
    )
  ],
  λ silent.
      let stale = is_fresh-stale f now silent in (ground (arith, stale), ground (arith, stale)),
)
