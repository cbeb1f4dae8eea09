-- ===== src/Lock/Effects.antt =====
-- What the file operations of withLock (src/state.js) change of the lock directory and the tombs.
use lane_broker.Prelude.{
  ℕ, ◌+◌, ◌≤◌, ◌≡◌, ◌⊎◌, inl, inr, refl, Bool, true, false, ◌&&◌, Option, none, some, ◌∷◌, arith,
  ◌==◌, if◌then◌else◌, Option-cases,
}
use lane_broker.Lock.{
  clear, Owner, LockRoot, LockDir, read_owner, publish, stamp, bury, is_free, is_empty, staged,
  write_draft, unlink, rmdir, without_draft, without_entry, Entry, owner_file, stamp_file,
  draft_file, other_files,
}
use lane_broker.Lock.System.{Host}
use lane_broker.Lock.Evidence.{Guarded}

pub owned-is_free :
    (x : Option LockDir) (l : LockDir) (o : Owner)
    → x ≡ some l
    → l.owner ≡ some o
    → is_free x ≡ false
unfolding is_free is_empty
owned-is_free x l o e of = ground (arith, e, of)

module _ (h : Host) (d now : ℕ) (dead : ℕ → Bool) (r : LockRoot) where
  pub publish_effect :
      (me : Owner) (r' : LockRoot)
      → publish me r ≡ some r'
      → (read_owner r ≡ none) × (r'.lock ≡ some (staged me)) × (r'.tombs ≡ r.tombs)
  unfolding publish is_free is_empty read_owner
  publish_effect me r' e = ground arith

  -- The lock directory after a step that leaves its owner as it is: a stamp in it now was there before,
  -- or was drawn within `d`.
  abbrev pub Restamped : LockRoot → Type 0
  Restamped r' =
      (read_owner r' ≡ read_owner r)
      × (r'.tombs ≡ r.tombs)
      × ((l' : LockDir)
          → r'.lock ≡ some l'
          → (t : ℕ) → l'.stolen_at ≡ some t
          → ((l : LockDir) × (r.lock ≡ some l) × (l.owner ≡ l'.owner) × (l.stolen_at ≡ some t))
            ⊎ (now ≤ t + d))

  pub write_draft_effect :
      (call written : ℕ) (r' : LockRoot)
      → write_draft call written r ≡ some r'
      → (l : LockDir) × (r.lock ≡ some l)
        × (r'.lock ≡ some (record l { drafts = (call, written) ∷ l.drafts }))
        × (r'.tombs ≡ r.tombs)
  unfolding write_draft
  write_draft_effect call written r' e = ground arith

  pub stamp_effect :
      (call written : ℕ) (r' : LockRoot)
      → stamp call written r ≡ some r'
      → (l : LockDir) × (r.lock ≡ some l)
        × (r'.lock
            ≡ some (record l {
              stolen_at = some written;
              drafts = without_draft call written l.drafts;
            }))
        × (r'.tombs ≡ r.tombs)
  unfolding stamp
  stamp_effect call written r' e = ground arith

  pub write_draft-Restamped :
      (call written : ℕ) (r' : LockRoot) → write_draft call written r ≡ some r' → Restamped r'
  unfolding write_draft read_owner
  write_draft-Restamped call written r' e =
      let (l, was, now_is, tombs) = write_draft_effect call written r' e in
      (
        ground (arith, was, now_is),
        tombs,
        λ l' there t dated.
            inl (l, was, ground (arith, now_is, there), ground (arith, now_is, there, dated)),
      )

  pub stamp-Restamped :
      (call written : ℕ) (r' : LockRoot)
      → now ≤ written + d
      → stamp call written r ≡ some r'
      → Restamped r'
  unfolding stamp read_owner
  stamp-Restamped call written r' late e =
      let (l, was, now_is, tombs) = stamp_effect call written r' e in
      (
        ground (arith, was, now_is),
        tombs,
        λ l' there t dated. inr (ground (arith, now_is, there, dated, late)),
      )

  unlink_dir :
      (e : Entry) → (e ≡ owner_file → ⊥) → (l : LockDir) → r.lock ≡ some l → Restamped (unlink e r)
  unfolding unlink without_entry read_owner
  unlink_dir owner_file n l there = absurd (n refl)
  unlink_dir stamp_file n l there = ground (arith, there)
  unlink_dir (draft_file call written) n l there = ground (arith, there)
  unlink_dir other_files n l there = ground (arith, there)

  pub unlink-Restamped : (e : Entry) → (e ≡ owner_file → ⊥) → Restamped (unlink e r)
  unfolding unlink without_entry read_owner
  unlink-Restamped e n = elim (Option-cases r.lock) [
    | inl gone ↦ ground arith
    | inr (l, there) ↦ unlink_dir e n l there
  ]

  pub rmdir-Restamped : (r' : LockRoot) → rmdir r ≡ some r' → Restamped r'
  unfolding rmdir is_free is_empty read_owner
  rmdir-Restamped r' e = (ground arith, ground arith, λ l' there t dated. absurd (ground arith))

  pub bury_effect :
      (o : Owner) (r' : LockRoot)
      → bury o r ≡ some r'
      → (l : LockDir) × (r.lock ≡ some l)
        × (is_free (r.tombs o.pid o.token) ≡ true)
        × (r'.lock ≡ none)
        × ((p t : ℕ)
            → r'.tombs p t ≡ (if (o.pid == p) && (o.token == t) then some l else r.tombs p t))
  unfolding bury
  bury_effect o r' e = ground arith

  -- What a prompt call moves is the lock of the owner that it found dead.
  pub bury_there :
      (o : Owner) (at : ℕ) (r' : LockRoot)
      → now ≤ at + d
      → Guarded d now r o at
      → bury o r ≡ some r'
      → read_owner r ≡ some o
  bury_there o at r' prompt (inl there) e = there
  bury_there o at r' prompt (inr (inr late)) e = absurd (omega (arith, prompt, late))
  bury_there o at r' prompt (inr (inl (b, found, of, u))) e =
      let p = bury_effect o r' e in
      absurd (ground (arith, p.2, owned-is_free (r.tombs o.pid o.token) b o found of))

  pub clear_effect :
      (r' : LockRoot) → clear r ≡ some r' → (read_owner r' ≡ none) × (r'.tombs ≡ r.tombs)
  unfolding clear read_owner
  clear_effect r' e = ground arith

  pub unlinked_effect :
      (read_owner (unlink owner_file r) ≡ none) × ((unlink owner_file r).tombs ≡ r.tombs)
  unfolding unlink without_entry read_owner
  unlinked_effect = elim (Option-cases r.lock) [
    | inl gone ↦ ground arith
    | inr (l, there) ↦ ground arith
  ]
