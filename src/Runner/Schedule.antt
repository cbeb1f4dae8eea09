-- ===== src/Runner/Schedule.antt =====
-- When a runner is powered on (src/runner-schedule.js, runnerAvailability). The clock of a time zone,
-- which Intl computes, is an argument: `wall t` is what it shows at instant `t`, as milliseconds since
-- the epoch. Instants are later than a day after the epoch. `days` of a window are numbers from 0 for
-- Monday, `from` and `to` minutes of the day.
use lane_broker.Prelude.{
  ℕ, ◌+◌, ◌-◌, ◌*◌, ◌/◌, ◌%◌, ◌≤◌, ◌<◌, ◌≡◌, ◌↔◌, ◌⊎◌, inl, inr, refl, Bool, true, false, ◌&&◌,
  Option, none, some, List, [], ◌∷◌, arith, ltb, leb, ◌==◌, if◌then◌else◌, Bool-cases, Option-cases,
  is_some, any_by, All,
}

pub record Window : Type 0 where
  pub days : List ℕ
  pub from : ℕ
  pub to : ℕ

abbrev pub day_ms : ℕ
day_ms = 86400000

-- The instant at which the zone's clock shows `wall_ms`: three corrections of a first guess.
abbrev pub corrected : (wall : ℕ → ℕ) (wall_ms guess : ℕ) → ℕ
corrected wall wall_ms guess = wall_ms + guess - wall guess

unfoldable pub instant_of : (wall : ℕ → ℕ) (wall_ms : ℕ) → ℕ
instant_of wall wall_ms =
    corrected wall wall_ms (corrected wall wall_ms (corrected wall wall_ms wall_ms))

-- The day of the week: the epoch began on a Thursday.
unfoldable pub week_day : (day_start : ℕ) → ℕ
week_day day_start = (day_start / day_ms + 3) % 7

-- Start and end of the window on the day that starts at `day_start`, if it is one of its days.
unfoldable pub occurrence : (wall : ℕ → ℕ) → Window → (day_start : ℕ) → Option (ℕ × ℕ)
occurrence wall w day_start =
    if any_by (λ d. d == week_day day_start) w.days
    then some (
      instant_of wall (day_start + w.from * 60000),
      instant_of wall (day_start + (if ltb w.from w.to then w.to else w.to + 1440) * 60000),
    )
    else none

unfoldable pub today_start : (wall_now : ℕ) → ℕ
today_start wall_now = wall_now - wall_now % day_ms

-- The occurrences that are looked at, yesterday's and today's of each window.
unfoldable pub occurrences : (wall : ℕ → ℕ) → List Window → (now : ℕ) → List (Option (ℕ × ℕ))
occurrences wall [] now = []
occurrences wall (w ∷ ws) now =
    let today = today_start (wall now) in
    occurrence wall w (today - day_ms) ∷ occurrence wall w today ∷ occurrences wall ws now

unfoldable pub closing : (now : ℕ) (closes_at : Option ℕ) → Option (ℕ × ℕ) → Option ℕ
closing now closes_at none = closes_at
closing now closes_at (some (start, end)) =
    let later : Bool = elim closes_at [ none ↦ true | some c ↦ ltb c end ] in
    if leb start now && ltb now end && later then some end else closes_at

unfoldable pub latest_closing : (now : ℕ) → Option ℕ → List (Option (ℕ × ℕ)) → Option ℕ
latest_closing now closes_at [] = closes_at
latest_closing now closes_at (o ∷ os) = latest_closing now (closing now closes_at o) os

-- Whether the runner is available, and until when.
unfoldable pub runner_availability :
    (wall : ℕ → ℕ) → (schedule : Option (List Window)) (now : ℕ) → Bool × Option ℕ
runner_availability wall none now = (true, none)
runner_availability wall (some windows) now =
    let closes_at = latest_closing now none (occurrences wall windows now) in
    (is_some closes_at, closes_at)

-- The occurrence holds `now` and ends at `e`.
abbrev pub EndsAt : (now e : ℕ) → Option (ℕ × ℕ) → Type 0
EndsAt now e o = (start : ℕ) × (o ≡ some (start, e)) × (start ≤ now) × (now < e)

abbrev pub EndsBy : (now e : ℕ) → Option (ℕ × ℕ) → Type 0
EndsBy now e o = (start x : ℕ) → o ≡ some (start, x) → start ≤ now → now < x → x ≤ e

abbrev pub Misses : (now : ℕ) → Option (ℕ × ℕ) → Type 0
Misses now o = (start x : ℕ) → o ≡ some (start, x) → start ≤ now → now < x → ⊥

-- One of the list satisfies `P`.
abbrev pub Exists : (P : Option (ℕ × ℕ) → Type 0) → List (Option (ℕ × ℕ)) → Type 0
Exists P [] = ⊥
Exists P (x ∷ xs) = P x ⊎ Exists P xs

-- What the latest closing time so far says of the next one.
closing-none :
    (now : ℕ) (acc : Option ℕ) (o : Option (ℕ × ℕ))
    → closing now acc o ≡ none
    → (acc ≡ none) × Misses now o
unfolding closing
closing-none now acc none e = (e, λ start x f. ground (arith, f))
closing-none now none (some (s, x)) e = (refl, λ start y f le lt. ground (arith, e, f, le, lt))
closing-none now (some c) (some (s, x)) e = absurd (ground (arith, e))

closing-some :
    (now e : ℕ) (acc : Option ℕ) (o : Option (ℕ × ℕ))
    → closing now acc o ≡ some e
    → ((acc ≡ some e) ⊎ EndsAt now e o) × ((c : ℕ) → acc ≡ some c → c ≤ e) × EndsBy now e o
unfolding closing
closing-some now e acc none h = (inl h, λ c k. ground (arith, h, k), λ start x f. ground (arith, f))
closing-some now e none (some (s, x)) h = (
  inr (s, ground (arith, h), ground (arith, h), ground (arith, h)),
  λ c k. ground (arith, k),
  λ start y f le lt. ground (arith, h, f, le, lt),
)
closing-some now e (some c) (some (s, x)) h =
    elim (Bool-cases (leb s now && ltb now x && ltb c x)) [
      | inl moves ↦ (
        inr (s, ground (arith, h, moves), ground (arith, moves), ground (arith, h, moves)),
        λ d k. ground (arith, h, k, moves),
        λ start y f le lt. ground (arith, h, f, le, lt, moves),
      )
      | inr stays ↦ (
        inl (ground (arith, h, stays)),
        λ d k. ground (arith, h, k, stays),
        λ start y f le lt. ground (arith, h, f, le, lt, stays),
      )
    ]

latest_closing-none :
    (now : ℕ) (acc : Option ℕ) (os : List (Option (ℕ × ℕ)))
    → latest_closing now acc os ≡ none
    → (acc ≡ none) × All (Misses now) os
unfolding latest_closing
latest_closing-none now acc [] e = (e, tt)
latest_closing-none now acc (o ∷ os) e =
    let rest = latest_closing-none now (closing now acc o) os e in
    let here = closing-none now acc o rest.0 in (here.0, (here.1, rest.1))

latest_closing-some :
    (now e : ℕ) (acc : Option ℕ) (os : List (Option (ℕ × ℕ)))
    → latest_closing now acc os ≡ some e
    → ((acc ≡ some e) ⊎ Exists (EndsAt now e) os)
      × ((c : ℕ) → acc ≡ some c → c ≤ e)
      × All (EndsBy now e) os
unfolding latest_closing
latest_closing-some now e acc [] h = (inl h, λ c k. ground (arith, h, k), tt)
latest_closing-some now e acc (o ∷ os) h =
    let rest = latest_closing-some now e (closing now acc o) os h in
    elim (Option-cases (closing now acc o)) [
      | inl none_yet ↦
          let q = closing-none now acc o none_yet in
          (
            elim rest.0 [
              | inl found ↦ absurd (ground (arith, found, none_yet))
              | inr later ↦ inr (inr later)
            ],
            λ c k. ground (arith, q.0, k),
            (λ s x f le lt. absurd (q.1 s x f le lt), rest.2),
          )
      | inr (c, so_far) ↦
          let q = closing-some now c acc o so_far in
          let le = rest.1 c so_far in
          (
            elim rest.0 [
              | inl found ↦ elim (closing-some now e acc o found).0 [
                | inl before ↦ inl before
                | inr here ↦ inr (inl here)
              ]
              | inr later ↦ inr (inr later)
            ],
            λ d k. omega (arith, q.1 d k, le),
            (λ s x f a b. omega (arith, q.2 s x f a b, le), rest.2),
          )
    ]

-- A runner without a schedule is always available. With one it is available exactly while some window's
-- occurrence of yesterday or today holds the instant, and it then closes at the end of the one of them
-- that ends last.
pub runner_availability-closes :
    (wall : ℕ → ℕ) (windows : List Window) (now : ℕ)
    → let a = runner_availability wall (some windows) now in
      (a.0 ≡ false → All (Misses now) (occurrences wall windows now))
      × (a.0 ≡ true
          → (e : ℕ) × (a.1 ≡ some e)
            × Exists (EndsAt now e) (occurrences wall windows now)
            × All (EndsBy now e) (occurrences wall windows now))
unfolding runner_availability
runner_availability-closes wall windows now =
    let os = occurrences wall windows now in
    elim (Option-cases (latest_closing now none os)) [
      | inl closed ↦
          (λ e. (latest_closing-none now none os closed).1, λ e. absurd (ground (arith, e, closed)))
      | inr (end, open_) ↦ (
        λ e. absurd (ground (arith, e, open_)),
        λ e.
            let l = latest_closing-some now end none os open_ in
            (
              end,
              open_,
              elim l.0 [
                | inl start ↦ absurd (ground (arith, start))
                | inr some_window ↦ some_window
              ],
              l.2,
            ),
      )
    ]

corrected-fixed :
    (wall : ℕ → ℕ) (ahead behind w guess : ℕ)
    → ((t : ℕ) → behind ≤ t → wall t + behind ≡ t + ahead)
    → behind ≤ guess
    → corrected wall w guess ≡ w + behind - ahead
corrected-fixed wall ahead behind w guess fixed le = omega (arith, fixed guess le)

-- In a zone that is ahead of or behind UTC by a constant, an instant has passed exactly if the clock
-- shows its wall time or later.
instant_of-fixed :
    (wall : ℕ → ℕ) (ahead behind w now : ℕ)
    → ((t : ℕ) → behind ≤ t → wall t + behind ≡ t + ahead)
    → ahead + 2 * behind ≤ w
    → behind ≤ now
    → (instant_of wall w ≤ now) ↔ (w ≤ wall now)
unfolding instant_of
instant_of-fixed wall ahead behind w now fixed big late =
    let c1 = corrected-fixed wall ahead behind w w fixed (omega (arith, big)) in
    let c2 =
      corrected-fixed wall ahead behind w (corrected wall w w) fixed (omega (arith, c1, big)) in
    let c3 =
      corrected-fixed wall ahead behind w (corrected wall w (corrected wall w w)) fixed
        (omega (arith, c2, big)) in
    let n = fixed now late in
    (λ le. omega (arith, c3, n, le, big), λ le. omega (arith, c3, n, le, big))
