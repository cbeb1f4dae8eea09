-- ===== src/Watchdog/Streak.antt =====
-- A kill for no progress has a streak of idle observations behind it (src/no-progress.js).
use lane_broker.Prelude.{
  ℕ, ◌+◌, ◌≤◌, ◌≡◌, inl, inr, refl, sym, ap, subst, ◌∙◌, true, Option, none, some, List, [], ◌∷◌,
  ◌++◌, append-nil, append_assoc, arith, Bool-cases, Option-cases, some_injective,
}
use lane_broker.Watchdog.{
  should_kill, Snapshot, Watch, Baseline, idle_between, baseline_of, is_idle, observe, note_output,
}

-- What happens to a watch, in order: the command writes, or it is observed.
pub data WatchEvent : Type 0 where
  output : (byte_count at : ℕ) → WatchEvent
  look : Option Snapshot → (at : ℕ) → WatchEvent

unfoldable pub watch_event : Watch → WatchEvent → Watch
watch_event w (output bytes at) = note_output w bytes at
watch_event w (look snapshot at) = (observe w snapshot at).0

unfoldable pub watch_run : Watch → List WatchEvent → Watch
watch_run w [] = w
watch_run w (e ∷ es) = watch_run (watch_event w e) es

-- No byte was written, and every observation was idle.
abbrev pub Quiet : Watch → List WatchEvent → Type 0
Quiet w [] = Unit
Quiet w (output bytes at ∷ es) = (bytes ≡ 0) × Quiet (watch_event w (output bytes at)) es
Quiet w (look snapshot at ∷ es) =
    (is_idle w snapshot at ≡ true) × Quiet (watch_event w (look snapshot at)) es

watch_run-append :
    (w : Watch) (xs ys : List WatchEvent) → watch_run w (xs ++ ys) ≡ watch_run (watch_run w xs) ys
unfolding watch_run
watch_run-append w [] ys = refl
watch_run-append w (x ∷ xs) ys = watch_run-append (watch_event w x) xs ys

Quiet-append :
    (w : Watch) (xs ys : List WatchEvent)
    → Quiet w xs
    → Quiet (watch_run w xs) ys
    → Quiet w (xs ++ ys)
unfolding watch_run
Quiet-append w [] ys q r = r
Quiet-append w (output bytes at ∷ xs) ys (none_written, q) r =
    (none_written, Quiet-append (watch_event w (output bytes at)) xs ys q r)
Quiet-append w (look snapshot at ∷ xs) ys (idle, q) r =
    (idle, Quiet-append (watch_event w (look snapshot at)) xs ys q r)

-- The run so far ends in an observation at `since` and quiet from there.
abbrev pub QuietSince : Watch → (since : ℕ) → List WatchEvent → Type 0
QuietSince w since es =
    (earlier : List WatchEvent) × (seen : Option Snapshot) × (later : List WatchEvent) × (es
      ≡ earlier ++ (look seen since ∷ later))
    × Quiet (watch_run w (earlier ++ (look seen since ∷ []))) later

QuietSince-append :
    (w : Watch) (since : ℕ) (es : List WatchEvent) (e : WatchEvent)
    → Quiet (watch_run w es) (e ∷ [])
    → QuietSince w since es
    → QuietSince w since (es ++ (e ∷ []))
QuietSince-append w since es e quiet (earlier, seen, later, split, q) = (
  earlier,
  seen,
  later ++ (e ∷ []),
  ap (λ l. l ++ (e ∷ [])) split ∙ append_assoc earlier (look seen since ∷ later) (e ∷ []),
  Quiet-append (watch_run w (earlier ++ (look seen since ∷ []))) later (e ∷ []) q (
      subst (λ x. Quiet x (e ∷ []))
        (ap (watch_run w) (split ∙ sym (append_assoc earlier (look seen since ∷ []) later))
          ∙ watch_run-append w (earlier ++ (look seen since ∷ [])) later)
        quiet),
)

-- The watch `v` after a run, where it has a baseline: what was written since then, and if nothing was,
-- the streak.
StreakInv : Watch → List WatchEvent → Watch → Type 0
StreakInv w es v =
    (b : Baseline)
    → v.baseline ≡ some b
    → (b.output_bytes ≤ v.output_bytes)
      × (b.output_bytes ≡ v.output_bytes → QuietSince w v.idle_since es)

baseline_of-output_bytes :
    (bytes at : ℕ) (seen : Option Snapshot) (b : Baseline)
    → baseline_of bytes at seen ≡ some b
    → b.output_bytes ≡ bytes
unfolding baseline_of
baseline_of-output_bytes bytes at none b e = ground (arith, e)
baseline_of-output_bytes bytes at (some cpu) b e =
    ap (λ (x : Baseline). x.output_bytes) (some_injective _ _ (sym e))

-- Only a watch with a baseline since which nothing was written is idle.
is_idle-baseline :
    (v : Watch) (seen : Option Snapshot) (at : ℕ)
    → is_idle v seen at ≡ true
    → (b : Baseline) × (v.baseline ≡ some b) × (b.output_bytes ≡ v.output_bytes)
unfolding is_idle idle_between
is_idle-baseline v none at e = absurd (ground (arith, e))
is_idle-baseline v (some cpu) at e = elim (Option-cases v.baseline) [
  | inl missing ↦ absurd (ground (arith, e, missing))
  | inr (b, found) ↦ (b, found, ground (arith, e, found))
]

StreakInv-step :
    (w : Watch) (es : List WatchEvent) (v : Watch) (e : WatchEvent)
    → watch_run w es ≡ v
    → StreakInv w es v
    → StreakInv w (es ++ (e ∷ [])) (watch_event v e)
unfolding StreakInv watch_event note_output observe
StreakInv-step w es v (output bytes at) run inv b found =
    let i = inv b found in
    (
      omega (arith, i.0),
      λ same.
          QuietSince-append w v.idle_since es (output bytes at) (omega (arith, same, i.0), tt)
            (i.1 (omega (arith, same, i.0))),
    )
StreakInv-step w es v (look seen at) run inv b found =
    let same = baseline_of-output_bytes v.output_bytes at seen b found in
    (
      omega (arith, same),
      λ e. elim (Bool-cases (is_idle v seen at)) [
        | inl idle ↦
            let q = is_idle-baseline v seen at idle in
            subst (λ t. QuietSince w t (es ++ (look seen at ∷ []))) (ground (arith, idle))
              (QuietSince-append w v.idle_since es (look seen at)
                (subst (λ x. is_idle x seen at ≡ true) (sym run) idle, tt) ((inv q.0 q.1).1 q.2))
        | inr progress ↦
            subst (λ t. QuietSince w t (es ++ (look seen at ∷ []))) (ground (arith, progress))
              (es, seen, [], refl, tt)
      ],
    )

StreakInv-run :
    (w : Watch) (done es : List WatchEvent) (v : Watch)
    → watch_run w done ≡ v
    → StreakInv w done v
    → StreakInv w (done ++ es) (watch_run v es)
unfolding watch_run
StreakInv-run w done [] v run inv = subst (λ l. StreakInv w l v) (sym (append-nil done)) inv
StreakInv-run w done (e ∷ es) v run inv =
    subst (λ l. StreakInv w l (watch_run (watch_event v e) es)) (append_assoc done (e ∷ []) es)
      (StreakInv-run w (done ++ (e ∷ [])) es (watch_event v e)
        (watch_run-append w done (e ∷ []) ∙ ap (λ x. watch_event x e) run)
        (StreakInv-step w done v e run inv))

-- A watch whose streak reaches the timeout, after any run from one without a baseline, has looked at a
-- command at least the timeout ago which has since written nothing and was idle at every observation,
-- this one included.
pub should_kill-QuietSince :
    (w : Watch) (es : List WatchEvent) (seen : Option Snapshot) (now timeout_ms : ℕ)
    → w.baseline ≡ none
    → should_kill timeout_ms (observe (watch_run w es) seen now).1 ≡ true
    → (is_idle (watch_run w es) seen now ≡ true)
      × QuietSince w (watch_run w es).idle_since es
      × ((watch_run w es).idle_since + timeout_ms ≤ now)
unfolding should_kill observe StreakInv watch_run
should_kill-QuietSince w es seen now timeout_ms fresh kill =
    let v = watch_run w es in
    let idle : is_idle v seen now ≡ true = ground (arith, kill, Bool-cases (is_idle v seen now)) in
    let q = is_idle-baseline v seen now idle in
    let inv = StreakInv-run w [] es w refl (λ b found. absurd (ground (arith, fresh, found))) in
    (idle, (inv q.0 q.1).1 q.2, ground (arith, kill, idle))
