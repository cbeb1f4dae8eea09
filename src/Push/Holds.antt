-- ===== src/Push/Holds.antt =====
-- The one pass of pushHolds (src/push-gate.js) gives what a search from scratch for each lane gives, and
-- leaves no two pushes of one caller free to start.
use lane_broker.Prelude.{
  ℕ, ◌≡◌, inl, inr, refl, sym, ap, ◌∙◌, Bool, true, ◌&&◌, Option, none, some, List, [], ◌∷◌, ◌++◌,
  append_assoc, arith, ◌==◌, if◌then◌else◌, Bool-cases, Option-cases, is_some, filter_by, find_by,
  any_by, sort_by,
}
use lane_broker.Push.{
  Gate, push_order, differs, if_differs, or_other, earliest_after, another_after, noted, push_pass,
  first_of, first_differing, caller_holds,
}

-- Searched from scratch: the first running lane of another push, else the first live one of another push
-- among those earlier in the order of the pushes.
unfoldable pub holder_of : (running earlier : List Gate) → Gate → Option Gate
holder_of running earlier g = or_other (find_by (differs g) running) (find_by (differs g) earlier)

unfoldable pub live_only : List Gate → List Gate
live_only gs = filter_by (λ (g : Gate). g.live) gs

unfoldable pub holds_from_scratch : (running earlier : List Gate) → List Gate → List (ℕ × ℕ)
holds_from_scratch running earlier [] = []
holds_from_scratch running earlier (g ∷ gs) =
    noted g (holder_of running (live_only earlier) g)
      (holds_from_scratch running (earlier ++ (g ∷ [])) gs)

same_push :
    (g e : Gate) (gs : List Gate)
    → g.git_pid ≡ e.git_pid
    → find_by (differs e) gs ≡ find_by (differs g) gs
unfolding differs
same_push g e [] same = refl
same_push g e (x ∷ gs) same = ground (arith, same, same_push g e gs same)

-- The first and the first of another push give the first of another push than any lane's.
two_suffice :
    (g : Gate) (gs : List Gate)
    → or_other (if_differs g (first_of gs)) (first_differing (first_of gs) gs)
      ≡ find_by (differs g) gs
unfolding or_other if_differs first_of first_differing differs
two_suffice g [] = refl
two_suffice g (e ∷ gs) = elim (Bool-cases (e.git_pid == g.git_pid)) [
  | inl same ↦ ground (arith, same, same_push g e gs (ground (arith, same)))
  | inr other ↦ ground (arith, other)
]

live_only-append : (xs ys : List Gate) → live_only (xs ++ ys) ≡ live_only xs ++ live_only ys
unfolding live_only
live_only-append [] ys = refl
live_only-append (x ∷ xs) ys = ground (arith, live_only-append xs ys, Bool-cases x.live)

first_of-earliest_after :
    (seen : List Gate) (g : Gate)
    → earliest_after (first_of seen) g ≡ first_of (seen ++ live_only (g ∷ []))
unfolding first_of earliest_after live_only
first_of-earliest_after [] g = ground (arith, Bool-cases g.live)
first_of-earliest_after (e ∷ seen) g = refl

find_by-append :
    (p : Gate → Bool) (xs : List Gate) (g : Gate)
    → find_by p (xs ++ live_only (g ∷ []))
      ≡ or_other (find_by p xs) (if g.live && p g then some g else none)
unfolding or_other live_only
find_by-append p [] g = ground (arith, Bool-cases g.live, Bool-cases (p g))
find_by-append p (x ∷ xs) g = ground (arith, find_by-append p xs g, Bool-cases (p x))

first_differing-another_after :
    (seen : List Gate) (g : Gate)
    → another_after (first_of seen) (first_differing (first_of seen) seen) g
      ≡ first_differing (first_of (seen ++ live_only (g ∷ []))) (seen ++ live_only (g ∷ []))
unfolding first_of first_differing another_after live_only differs or_other
first_differing-another_after [] g = ground (arith, Bool-cases g.live)
first_differing-another_after (e ∷ seen) g = ground (
  arith,
  find_by-append (differs e) seen g,
  Option-cases (find_by (differs e) seen),
  Bool-cases g.live,
  Bool-cases (differs e g),
)

push_pass-holds_from_scratch :
    (running seen : List Gate) (gs : List Gate)
    → push_pass
        (first_of running)
        (first_differing (first_of running) running)
        (first_of (live_only seen))
        (first_differing (first_of (live_only seen)) (live_only seen))
        gs
      ≡ holds_from_scratch running seen gs
unfolding push_pass holds_from_scratch holder_of
push_pass-holds_from_scratch running seen [] = refl
push_pass-holds_from_scratch running seen (g ∷ gs) =
    let l = live_only seen in
    let more = push_pass-holds_from_scratch running (seen ++ (g ∷ [])) gs in
    let grown = sym (live_only-append seen (g ∷ [])) in
    let first : earliest_after (first_of l) g ≡ first_of (live_only (seen ++ (g ∷ []))) =
      first_of-earliest_after l g ∙ ap first_of grown in
    let another : another_after (first_of l) (first_differing (first_of l) l) g
        ≡ first_differing (first_of (live_only (seen ++ (g ∷ [])))) (live_only (seen ++ (g ∷ []))) =
      first_differing-another_after l g ∙ ap (λ x. first_differing (first_of x) x) grown in
    let among_running = two_suffice g running in let among_earlier = two_suffice g l in cc

-- The one pass over a caller's lanes finds for each queued lane, in the order of the pushes, the holder
-- that a search from scratch finds: the first running lane of another push, else the first live lane of
-- another push that stands before it.
pub caller_holds-holds_from_scratch :
    (running queued : List Gate)
    → caller_holds running queued ≡ holds_from_scratch running [] (sort_by push_order queued)
unfolding caller_holds live_only first_of first_differing
caller_holds-holds_from_scratch running queued =
    push_pass-holds_from_scratch running [] (sort_by push_order queued)

abbrev pub is_held : (id : ℕ) → List (ℕ × ℕ) → Bool
is_held id holds = any_by (λ (v : ℕ × ℕ). v.0 == id) holds

Known : (running seen : List Gate) → Gate → Type 0
Known running seen g = is_some (holder_of running (live_only seen) g) ≡ true

Known-append :
    (running seen : List Gate) (b g : Gate)
    → Known running seen b
    → Known running (seen ++ (g ∷ [])) b
unfolding Known holder_of or_other
Known-append running seen b g k =
    let e =
      ap (find_by (differs b)) (live_only-append seen (g ∷ []))
      ∙ find_by-append (differs b) (live_only seen) g in
    ground (
      arith,
      k,
      e,
      Option-cases (find_by (differs b) running),
      Option-cases (find_by (differs b) (live_only seen)),
    )

is_held-noted :
    (id : ℕ) (g : Gate) (o : Option Gate) (rest : List (ℕ × ℕ))
    → is_held id rest ≡ true
    → is_held id (noted g o rest) ≡ true
unfolding noted
is_held-noted id g none rest e = e
is_held-noted id g (some k) rest e = ground (arith, e)

is_held-holds_from_scratch :
    (running seen : List Gate) (ys : List Gate) (b : Gate) (zs : List Gate)
    → Known running seen b
    → is_held b.id (holds_from_scratch running seen (ys ++ (b ∷ zs))) ≡ true
unfolding holds_from_scratch noted Known
is_held-holds_from_scratch running seen [] b zs k =
    ground (arith, k, Option-cases (holder_of running (live_only seen) b))
is_held-holds_from_scratch running seen (y ∷ ys) b zs k =
    is_held-noted b.id y (holder_of running (live_only seen) y) _ (
      is_held-holds_from_scratch running (seen ++ (y ∷ [])) ys b zs
        (Known-append running seen b y k))

Known-seen :
    (running seen : List Gate) (a b : Gate)
    → a.live ≡ true
    → differs b a ≡ true
    → Known running (seen ++ (a ∷ [])) b
unfolding Known holder_of or_other
Known-seen running seen a b live other =
    let e =
      ap (find_by (differs b)) (live_only-append seen (a ∷ []))
      ∙ find_by-append (differs b) (live_only seen) a in
    ground (
      arith,
      e,
      live,
      other,
      Option-cases (find_by (differs b) running),
      Option-cases (find_by (differs b) (live_only seen)),
    )

held_behind :
    (running seen xs : List Gate) (a : Gate) (ys : List Gate) (b : Gate) (zs : List Gate)
    → a.live ≡ true
    → differs b a ≡ true
    → is_held b.id (holds_from_scratch running seen (xs ++ (a ∷ (ys ++ (b ∷ zs))))) ≡ true
unfolding holds_from_scratch
held_behind running seen [] a ys b zs live other =
    is_held-noted b.id a (holder_of running (live_only seen) a) _ (
      is_held-holds_from_scratch running (seen ++ (a ∷ [])) ys b zs
        (Known-seen running seen a b live other))
held_behind running seen (x ∷ xs) a ys b zs live other =
    is_held-noted b.id x (holder_of running (live_only seen) x) _
      (held_behind running (seen ++ (x ∷ [])) xs a ys b zs live other)

-- Of two queued lanes of one caller that belong to different pushes, the later in the order of the
-- pushes is held if the earlier one is live; and every queued lane is held while a lane of another push
-- of the caller runs.
pub caller_holds-one_push :
    (running queued xs : List Gate) (b : Gate) (zs : List Gate)
    → sort_by push_order queued ≡ xs ++ (b ∷ zs)
    → ((ahead : List Gate) (a : Gate) (between : List Gate)
        → xs ≡ ahead ++ (a ∷ between)
        → a.live ≡ true
        → differs b a ≡ true
        → is_held b.id (caller_holds running queued) ≡ true)
      × ((r : Gate)
          → find_by (differs b) running ≡ some r
          → is_held b.id (caller_holds running queued) ≡ true)
unfolding Known holder_of or_other
caller_holds-one_push running queued xs b zs sorted =
    let e =
      caller_holds-holds_from_scratch running queued ∙ ap (holds_from_scratch running []) sorted in
    (
      λ ahead a between split live other.
          ap (is_held b.id) (
            e
            ∙ ap (λ l. holds_from_scratch running [] (l ++ (b ∷ zs))) split
            ∙ ap (holds_from_scratch running []) (append_assoc ahead (a ∷ between) (b ∷ zs)))
          ∙ held_behind running [] ahead a between b zs live other,
      λ r found.
          ap (is_held b.id) e
          ∙ is_held-holds_from_scratch running [] xs b zs (ground (arith, found)),
    )
