-- ===== src/Journal/Tracked.antt =====
-- The list of pending records of the journal of src/store/journal.js, and what is read off it.
use lane_broker.Prelude.{
  ℕ, ◌+◌, ◌-◌, ◌≤◌, ◌≡◌, inl, inr, refl, sym, ap, subst, ◌∙◌, true, false, Option, none, some, List,
  [], ◌∷◌, ◌++◌, map, append_assoc, arith, ltb, leb, if◌then◌else◌, Bool-cases, length,
  length-append,
}
use lane_broker.Journal.{Rec}
use lane_broker.Journal.Log.{Journal, Watermark, drop_replicated, oldest_pending_created_at}
use lane_broker.Journal.Lines.{Numbered, Numbered-drop}

abbrev pub stamp_of : Rec → ℕ × ℕ
stamp_of r = (r.seq, r.entry.created_at)

-- The time of the first record above a watermark.
abbrev pub first_above : (mark : ℕ) → List Rec → Option ℕ
first_above mark [] = none
first_above mark (r ∷ rs) =
    let rest = first_above mark rs in if ltb mark r.seq then some r.entry.created_at else rest

-- The list holds all records but some that an earlier watermark had passed.
abbrev pub Tracks : (mark : ℕ) → List Rec → Journal → Type 0
Tracks mark rs j =
    (old kept : List Rec) × (rs ≡ old ++ kept)
    × (length old ≤ mark)
    × (j.pending ≡ map stamp_of kept)
    × (j.track_pending ≡ true)

first_above-append :
    (mark first : ℕ) (old kept : List Rec)
    → Numbered first (old ++ kept)
    → first + length old ≤ mark + 1
    → first_above mark (old ++ kept) ≡ first_above mark kept
first_above-append mark first [] kept h below = refl
first_above-append mark first (r ∷ old) kept h below =
    let passed : ltb mark r.seq ≡ false = ground (arith, h.0, below) in
    rw passed (first_above-append mark (first + 1) old kept h.1 (omega (arith, below)))

-- What is dropped has been passed, and the first that stays is the first above the watermark.
drop_replicated-stamps :
    (mark first : ℕ) (kept : List Rec)
    → Numbered first kept
    → (gone left_over : List Rec) × (kept ≡ gone ++ left_over)
      × (drop_replicated mark (map stamp_of kept) ≡ map stamp_of left_over)
      × (length gone ≤ mark + 1 - first)
      × (elim (map stamp_of left_over) as (λ l. Option ℕ) [ [] ↦ none | (seq, at) ∷ rest ↦ some at ]
          ≡ first_above mark kept)
unfolding drop_replicated
drop_replicated-stamps mark first [] h = ([], [], refl, refl, omega arith, refl)
drop_replicated-stamps mark first (r ∷ kept) h = elim (Bool-cases (leb r.seq mark)) [
  | inl passed ↦
      let (gone, rest, split, same, few, top) = drop_replicated-stamps mark (first + 1) kept h.1 in
      let below : ltb mark r.seq ≡ false = ground (arith, passed) in
      (
        r ∷ gone,
        rest,
        ap (λ l. r ∷ l) split,
        rw (passed, drop_replicated) same,
        ground (arith, passed, h.0, few),
        rw below top,
      )
  | inr above ↦
      let over : ltb mark r.seq ≡ true = ground (arith, above) in
      ([], r ∷ kept, refl, rw (above, drop_replicated) refl, omega arith, rw over refl)
]

-- What the journal reports is the time of the first record above the watermark.
pub oldest_pending-first_above :
    (mark : Watermark) (n : ℕ) (j : Journal) (rs : List Rec)
    → Numbered 1 rs
    → Tracks n rs j
    → n ≤ mark.seq
    → ((oldest_pending_created_at mark j).1 ≡ first_above mark.seq rs)
      × Tracks mark.seq rs (oldest_pending_created_at mark j).0
unfolding oldest_pending_created_at
oldest_pending-first_above mark n j rs numbered (old, kept, split, few, same, tracked) later =
    let order = subst (Numbered 1) split numbered in
    let (gone, rest, cut, dropped, passed, top) =
      drop_replicated-stamps mark.seq (1 + length old) kept (Numbered-drop 1 old kept order) in
    let trimmed = ap (drop_replicated mark.seq) same ∙ dropped in
    rw tracked (
      ap (λ l. elim l as (λ l. Option ℕ) [ [] ↦ none | (seq, at) ∷ more ↦ some at ]) trimmed
          ∙ top
          ∙ sym (first_above-append mark.seq 1 old kept order (omega (arith, few, later)))
          ∙ ap (first_above mark.seq) (sym split),
      (
        old ++ gone,
        rest,
        split ∙ ap (λ l. old ++ l) cut ∙ sym (append_assoc old gone rest),
        omega (arith, length-append old gone, passed, few, later),
        trimmed,
        refl,
      ),
    )
