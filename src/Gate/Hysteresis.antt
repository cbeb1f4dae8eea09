-- ===== src/Gate/Hysteresis.antt =====
-- What the two gates of src/load.js and src/admission.js promise over runs of samples.
use lane_broker.Prelude.{
  subst, ℕ, ◌+◌, ◌≤◌, ◌<◌, ◌≡◌, sym, ap, ◌∙◌, ◌⊎◌, inl, inr, true, false, List, [], ◌∷◌, ◌++◌,
  Option, some, length, length-append, All, All-append, append_assoc, arith,
}
use lane_broker.Gate.{
  Bool, CpuReading, sample_and_update_cpu_gate, Thresholds, GateState, same_fingerprint,
  update_gate_state, update_cpu_gate_state, run_gate,
}

same_fingerprint_refl : (t : Thresholds) → same_fingerprint (some t) t ≡ true
same_fingerprint_refl t = ground arith

-- A stretch of at least `open_samples` successive samples below the opening threshold.
pub record HasQuietStretch (t : Thresholds) (xs : List ℕ) : Type 0 where
  pub before : List ℕ
  pub quiet : List ℕ
  pub after : List ℕ
  pub split : xs ≡ before ++ (quiet ++ after)
  pub below : All (λ x. x < t.open_below) quiet
  pub long : t.open_samples ≤ length quiet

prepend : (t : Thresholds) (xs ys : List ℕ) → HasQuietStretch t ys → HasQuietStretch t (xs ++ ys)
prepend t xs ys h = record {
  before = xs ++ h.before;
  quiet = h.quiet;
  after = h.after;
  split = ap (λ l. xs ++ l) h.split ∙ sym (append_assoc xs h.before (h.quiet ++ h.after));
  below = h.below;
  long = h.long;
}

-- The gate is closed under its present thresholds and has counted `n` quiet samples.
record Counting (t : Thresholds) (s : GateState) (n : ℕ) : Type 0 where
  shut : s.closed ≡ true
  stamped : s.fingerprint ≡ some t
  counted : s.consecutive_under ≡ n

-- What one update of a closed gate does: it opens after enough quiet samples, or goes on counting.
abbrev Outcome : Thresholds → GateState → ℕ → ℕ → Type 0
Outcome t s' n x =
    ((t.open_samples ≤ n + 1) × (x < t.open_below))
    ⊎ (Counting t s' 0 ⊎ (Counting t s' (n + 1) × (x < t.open_below)))

module _ (t : Thresholds) (s : GateState) (n x : ℕ) (c : Counting t s n) where
  load-Outcome : Outcome t (update_gate_state (some s) x t) n x
  unfolding update_gate_state
  load-Outcome = ground (arith, same_fingerprint_refl t)

  cpu-Outcome : Outcome t (update_cpu_gate_state (some s) x t) n x
  unfolding update_cpu_gate_state
  cpu-Outcome = ground (arith, same_fingerprint_refl t)

-- The samples `seen` were quiet, and the gate counts them.
abbrev Counts : Thresholds → GateState → List ℕ → Type 0
Counts t s seen = Counting t s (length seen) × All (λ x. x < t.open_below) seen

module _ (update : Option GateState → ℕ → Thresholds → GateState) (t : Thresholds)
    (outcome : (s : GateState) (n x : ℕ)
      → Counting t s n
      → Outcome t (update (some s) x t) n x) where
  quiet_stretch :
      (xs : List ℕ) (s : GateState) (seen : List ℕ)
      → Counts t s seen
      → (run_gate update t s xs).closed ≡ false
      → HasQuietStretch t (seen ++ xs)
  unfolding run_gate
  quiet_stretch [] s seen (c, q) opened = cc c.shut
  quiet_stretch (x ∷ xs) s seen (c, q) opened = elim (outcome s (length seen) x c) [
    | inl (long, low) ↦ record {
      before = [];
      quiet = seen ++ x ∷ [];
      after = xs;
      split = sym (append_assoc seen (x ∷ []) xs);
      below = All-append (λ y. y < t.open_below) seen (x ∷ []) q (low, tt);
      long = omega (arith, length-append seen (x ∷ []));
    }
    | inr (inl restarted) ↦ subst (HasQuietStretch t) (append_assoc seen (x ∷ []) xs) (
        prepend t (seen ++ x ∷ []) xs
          (quiet_stretch xs (update (some s) x t) [] (restarted, tt) opened))
    | inr (inr (counted, low)) ↦ subst (HasQuietStretch t) (append_assoc seen (x ∷ []) xs) (
        quiet_stretch xs (update (some s) x t) (seen ++ x ∷ [])
          (
            rw (length-append seen (x ∷ [])) counted,
            All-append (λ y. y < t.open_below) seen (x ∷ []) q (low, tt),
          )
          opened)
  ]

-- A gate that is closed and has counted nothing reads as open after a run of samples only if the
-- run has a stretch of at least `open_samples` successive samples below the opening threshold.
-- This holds of the load gate and of the CPU gate.
pub run_gate-HasQuietStretch :
    (t : Thresholds) (s : GateState) (xs : List ℕ)
    → s.closed ≡ true
    → s.fingerprint ≡ some t
    → s.consecutive_under ≡ 0
    → ((run_gate update_gate_state t s xs).closed ≡ false → HasQuietStretch t xs)
      × ((run_gate update_cpu_gate_state t s xs).closed ≡ false → HasQuietStretch t xs)
run_gate-HasQuietStretch t s xs shut stamped counted = (
  quiet_stretch update_gate_state t (λ s' n x. load-Outcome t s' n x) xs s [] start,
  quiet_stretch update_cpu_gate_state t (λ s' n x. cpu-Outcome t s' n x) xs s [] start,
)
  where
    start : Counts t s []
    start = (record { shut = shut; stamped = stamped; counted = counted }, tt)

-- What a quiet sample does to a gate in any state, when quiet samples are below the close threshold.
record Advance (t : Thresholds) (s s' : GateState) : Type 0 where
  stays_open : s.closed ≡ false → s'.closed ≡ false
  counts :
      (s'.closed ≡ false)
      ⊎ ((s'.fingerprint ≡ some t)
          × (1 ≤ s'.consecutive_under)
          × (s'.consecutive_under < t.open_samples)
          × (s.fingerprint ≡ some t → s'.consecutive_under ≡ s.consecutive_under + 1))

module _ (t : Thresholds) (wide : t.open_below ≤ t.close) (s : GateState) (x : ℕ)
    (low : x < t.open_below) where
  load-Advance : Advance t s (update_gate_state (some s) x t)
  unfolding update_gate_state
  load-Advance = ground (arith, same_fingerprint_refl t)

  cpu-Advance : Advance t s (update_cpu_gate_state (some s) x t)
  unfolding update_cpu_gate_state
  cpu-Advance = ground (arith, same_fingerprint_refl t)

module _ (update : Option GateState → ℕ → Thresholds → GateState) (t : Thresholds)
    (advance : (s : GateState) (x : ℕ) → x < t.open_below → Advance t s (update (some s) x t)) where
  stays_open_run :
      (xs : List ℕ) (s : GateState)
      → All (λ x. x < t.open_below) xs
      → s.closed ≡ false
      → (run_gate update t s xs).closed ≡ false
  unfolding run_gate
  stays_open_run [] s low opened = opened
  stays_open_run (x ∷ xs) s (low, lows) opened =
      stays_open_run xs (update (some s) x t) lows ((advance s x low).stays_open opened)

  counting_opens :
      (xs : List ℕ) (s : GateState)
      → All (λ x. x < t.open_below) xs
      → s.fingerprint ≡ some t
      → s.consecutive_under < t.open_samples
      → t.open_samples ≤ s.consecutive_under + length xs
      → (run_gate update t s xs).closed ≡ false
  unfolding run_gate
  counting_opens [] s low stamped few many = absurd (omega arith)
  counting_opens (x ∷ xs) s (low, lows) stamped few many = elim ((advance s x low).counts) [
    | inl opened ↦ stays_open_run xs (update (some s) x t) lows opened
    | inr (stamp, _, few', next) ↦
        counting_opens xs (update (some s) x t) lows stamp few' (omega (arith, next stamped))
  ]

  quiet_opens :
      (x : ℕ) (xs : List ℕ) (s : GateState)
      → All (λ y. y < t.open_below) (x ∷ xs)
      → t.open_samples ≤ length (x ∷ xs)
      → (run_gate update t s (x ∷ xs)).closed ≡ false
  unfolding run_gate
  quiet_opens x xs s (low, lows) many = elim ((advance s x low).counts) [
    | inl opened ↦ stays_open_run xs (update (some s) x t) lows opened
    | inr (stamp, one, few, _) ↦
        counting_opens xs (update (some s) x t) lows stamp few (omega arith)
  ]

-- From every state, whatever its counter and fingerprint, a non-empty run of `open_samples` or more
-- samples below the opening threshold leaves both gates open, if quiet samples are never loud
-- enough to close a gate (`open_below` is at most `close`).
pub run_gate_opens :
    (t : Thresholds) (s : GateState) (x : ℕ) (xs : List ℕ)
    → t.open_below ≤ t.close
    → All (λ y. y < t.open_below) (x ∷ xs)
    → t.open_samples ≤ length (x ∷ xs)
    → ((run_gate update_gate_state t s (x ∷ xs)).closed ≡ false)
      × ((run_gate update_cpu_gate_state t s (x ∷ xs)).closed ≡ false)
run_gate_opens t s x xs wide low many = (
  quiet_opens update_gate_state t (λ s' y. load-Advance t wide s' y) x xs s low many,
  quiet_opens update_cpu_gate_state t (λ s' y. cpu-Advance t wide s' y) x xs s low many,
)

-- One poll of the CPU gate. With no fresh evidence (a sample that is missing, stale or unusable,
-- and not a re-read one) the state and the file stay as they are; a re-read sample leaves the file
-- alone and can only close the gate that its caller sees; a fresh sample over the threshold closes
-- the gate, and the file agrees with the answer if the write went through.
pub sample_and_update_cpu_gate_cases :
    (s : GateState) (r : CpuReading) (t : Thresholds) (written : Bool)
    → let (seen, file) = sample_and_update_cpu_gate s r t written in
      (r.reused ≡ false → r.usable ≡ false → (seen ≡ s) × (file ≡ s))
      × (r.reused ≡ false → r.stale ≡ true → (seen ≡ s) × (file ≡ s))
      × (r.reused ≡ true → file ≡ s)
      × (r.reused ≡ true → s.closed ≡ true → seen.closed ≡ true)
      × (r.usable ≡ true
          → r.reused ≡ true ⊎ r.stale ≡ false
          → t.close ≤ r.percent
          → seen.closed ≡ true)
      × (written ≡ true → r.reused ≡ false → file ≡ seen)
unfolding sample_and_update_cpu_gate
sample_and_update_cpu_gate_cases s r t written = ground arith

-- A change of thresholds is no evidence of a quieter machine: on the first sample under new
-- thresholds a closed gate stays closed, unless one quiet sample is enough to open it.
pub new_thresholds_keep_closed :
    (t : Thresholds) (s : GateState) (x : ℕ)
    → s.closed ≡ true
    → same_fingerprint s.fingerprint t ≡ false
    → 2 ≤ t.open_samples
    → ((update_gate_state (some s) x t).closed ≡ true)
      × ((update_cpu_gate_state (some s) x t).closed ≡ true)
      × ((update_gate_state (some s) x t).consecutive_under ≤ 1)
unfolding update_gate_state update_cpu_gate_state
new_thresholds_keep_closed t s x shut other two = ground arith
