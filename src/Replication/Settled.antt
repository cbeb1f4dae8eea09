-- ===== src/Replication/Settled.antt =====
-- What shipping one record of the journal establishes (src/store/replicate.js).
use lane_broker.Prelude.{
  ℕ, ◌≡◌, ◌⊎◌, inl, inr, refl, ap, ◌∙◌, Bool, true, false, ◌&&◌, Option, none, some, List, [], ◌∷◌,
  ◌++◌, arith, ◌==◌, Bool-cases, Option-cases, any_by, All,
}
use lane_broker.Journal.Durable.{Result-cases}
use lane_broker.Journal.{
  Codec, Kind, Located, blob, delete, delete_cancel, delete_intent, manifest, ok, pin, terminal,
}
use lane_broker.Journal.Log.{Journal, iterate}
use lane_broker.Replication.{
  Answers, Ending, Outcome, ReplicationState, committed_deletion, displaced, drained, is_delete,
  same_value, ship, ship_as, ship_entries, ship_object, ship_state, threw, verified,
}

-- The watermark behind some entries.
unfoldable pub marked : ReplicationState → List Located → ReplicationState
marked s [] = s
marked s (l ∷ ls) = marked (record s { replicated_seq = l.rec.seq; replicated_offset = l.end }) ls

pub marked-append :
    (s : ReplicationState) (xs ys : List Located) → marked s (xs ++ ys) ≡ marked (marked s xs) ys
unfolding marked
marked-append s [] ys = refl
marked-append s (x ∷ xs) ys =
    marked-append (record s { replicated_seq = x.rec.seq; replicated_offset = x.end }) xs ys

module _ (c : Codec) (chunk : ℕ) (j : Journal) (answers : Located → Answers) where
  same_value-eq : (v w : Option ℕ) → same_value v w ≡ true → v ≡ w
  unfolding same_value
  same_value-eq none none e = refl
  same_value-eq (some x) (some y) e = ap some (ground (arith, e))
  same_value-eq none (some y) e = absurd (ground (arith, e))
  same_value-eq (some x) none e = absurd (ground (arith, e))

  verified-seen :
      (sha size : ℕ) (seen : Option (ℕ × ℕ))
      → verified sha size seen ≡ true
      → seen ≡ some (sha, size)
  unfolding verified
  verified-seen sha size none e = absurd (ground (arith, e))
  verified-seen sha size (some (h, z)) e = ground (arith, e)

  -- A committed record after this one deletes its path.
  abbrev pub DeletedLater : Located → Type 0
  DeletedLater l =
      (before after : List Located) × (d : Located) × (iterate c chunk l.end j
        ≡ ok (before ++ (d ∷ after)))
      × (is_delete d.rec.entry.kind ≡ true)
      × (d.rec.entry.path ≡ l.rec.entry.path)

  -- The object was seen at the replica as the journal has it, or is deleted by a later record.
  abbrev pub ObjectSettled : Located → Type 0
  ObjectSettled l =
      (((answers l).exists ≡ true) × ((answers l).seen ≡ some (l.rec.entry.sha, l.rec.entry.size)))
      ⊎ (((answers l).exists ≡ false) × DeletedLater l)

  -- The replica has the job with this value, or has not and the job has ended here or is deleted later.
  abbrev pub StateSettled : Located → Type 0
  StateSettled l =
      (((answers l).applied ≡ some true) × ((answers l).job_value ≡ some l.rec.entry.value))
      ⊎ ((((answers l).applied ≡ some false)
            × ((answers l).exists ≡ true)
            × ((answers l).terminal_here ≡ true))
          ⊎ (((answers l).exists ≡ false) × DeletedLater l))

  abbrev pub SettledAs : Kind → Located → Type 0
  SettledAs blob l = ObjectSettled l
  SettledAs manifest l = ObjectSettled l
  SettledAs terminal l = StateSettled l
  SettledAs pin l = StateSettled l
  SettledAs delete l = Unit
  SettledAs delete_intent l = Unit
  SettledAs delete_cancel l = Unit

  abbrev pub Settled : Located → Type 0
  Settled l = SettledAs l.rec.entry.kind l

  -- Why a round stops before these entries.
  abbrev pub StopsAt : Ending → List Located → Type 0
  StopsAt drained stop = stop ≡ []
  StopsAt threw stop =
      (l : Located) × (more : List Located) × (stop ≡ l ∷ more)
      × (ship c chunk j (answers l) l ≡ none)
  StopsAt displaced stop =
      (l : Located) × (more : List Located) × (stop ≡ l ∷ more) × ((answers l).owner ≡ false)

  any_by-split {ℓ} :
      {A : Type ℓ} (p : A → Bool) (xs : List A)
      → any_by p xs ≡ true
      → (before after : List A) × (x : A) × (xs ≡ before ++ (x ∷ after)) × (p x ≡ true)
  any_by-split p [] e = absurd (ground (arith, e))
  any_by-split p (x ∷ xs) e = elim (Bool-cases (p x)) [
    | inl here ↦ ([], xs, x, refl, here)
    | inr later ↦
        let (before, after, y, split, holds) = any_by-split p xs (ground (arith, e, later)) in
        (x ∷ before, after, y, ap (λ l. x ∷ l) split, holds)
  ]

  committed_deletion-DeletedLater :
      (l : Located)
      → committed_deletion c chunk l.rec.entry.path l.end j ≡ some true
      → DeletedLater l
  unfolding committed_deletion
  committed_deletion-DeletedLater l e = elim (Result-cases (iterate c chunk l.end j)) [
    | inl (ls, found) ↦
        let p =
          λ (d : Located). is_delete d.rec.entry.kind && d.rec.entry.path == l.rec.entry.path in
        let (before, after, d, split, holds) = any_by-split p ls (ground (arith, e, found)) in
        (before, after, d, found ∙ ap ok split, ground (arith, holds), ground (arith, holds))
    | inr (f, broke) ↦ absurd (ground (arith, e, broke))
  ]

  ship_object-Settled :
      (l : Located) (o : Outcome) → ship_object c chunk j (answers l) l ≡ some o → ObjectSettled l
  unfolding ship_object verified
  ship_object-Settled l o e = elim (Bool-cases (answers l).exists) [
    | inl here ↦ inl (
      here,
      verified-seen l.rec.entry.sha l.rec.entry.size (answers l).seen (ground (arith, e, here)),
    )
    | inr gone ↦ inr (gone, committed_deletion-DeletedLater l (ground (arith, e, gone)))
  ]

  ship_state-Settled :
      (l : Located) (o : Outcome) → ship_state c chunk j (answers l) l ≡ some o → StateSettled l
  unfolding ship_state
  ship_state-Settled l o e = elim (Option-cases (answers l).applied) [
    | inl thrown ↦ absurd (ground (arith, e, thrown))
    | inr (true, applied) ↦ elim (Option-cases (answers l).job_value) [
      | inl thrown ↦ absurd (ground (arith, e, applied, thrown))
      | inr (v, read) ↦ inl (
        applied,
        read ∙ ap some (same_value-eq v l.rec.entry.value (ground (arith, e, applied, read))),
      )
    ]
    | inr (false, missing) ↦ elim (Bool-cases (answers l).exists) [
      | inl here ↦ inr (inl (missing, here, ground (arith, e, missing, here)))
      | inr gone ↦
          inr (inr (gone, committed_deletion-DeletedLater l (ground (arith, e, missing, gone))))
    ]
  ]

  ship_as-Settled :
      (k : Kind) (l : Located) (o : Outcome)
      → ship_as k c chunk j (answers l) l ≡ some o
      → SettledAs k l
  unfolding ship_as
  ship_as-Settled blob l o e = ship_object-Settled l o e
  ship_as-Settled manifest l o e = ship_object-Settled l o e
  ship_as-Settled terminal l o e = ship_state-Settled l o e
  ship_as-Settled pin l o e = ship_state-Settled l o e
  ship_as-Settled delete l o e = tt
  ship_as-Settled delete_intent l o e = tt
  ship_as-Settled delete_cancel l o e = tt

  -- One pass over entries: those before the stop are settled and marked.
  pub ship_entries-stop :
      (ls : List Located) (s : ReplicationState)
      → (done stop : List Located) × (ending : Ending) × (ls ≡ done ++ stop)
        × (ship_entries c chunk j answers ls s ≡ (marked s done, ending))
        × All Settled done
        × StopsAt ending stop
  unfolding ship_entries marked
  ship_entries-stop [] s = ([], [], drained, refl, refl, tt, refl)
  ship_entries-stop (l ∷ ls) s = elim (Option-cases (ship c chunk j (answers l) l)) [
    | inl thrown ↦
        ([], l ∷ ls, threw, refl, rw (thrown, ship_entries) refl, tt, (l, ls, refl, thrown))
    | inr (o, sent) ↦ elim (Bool-cases (answers l).owner) [
      | inr lost ↦
          ([], l ∷ ls, displaced, refl, rw (sent, lost, ship_entries) refl, tt, (l, ls, refl, lost))
      | inl owner ↦
          let (done, stop, ending, split, pass, settled, why) =
            ship_entries-stop ls
              (record s { replicated_seq = l.rec.seq; replicated_offset = l.end }) in
          (
            l ∷ done,
            stop,
            ending,
            ap (λ k. l ∷ k) split,
            rw (sent, owner, ship_entries) pass,
            (ship_as-Settled l.rec.entry.kind l o sent, settled),
            why,
          )
    ]
  ]
