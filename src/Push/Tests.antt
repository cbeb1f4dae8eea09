-- ===== src/Push/Tests.antt =====
-- The theorems on pushes (src/push-gate.js) on four lanes of one caller.
use lane_broker.Prelude.{ℕ, ◌≡◌, refl, Bool, true, List, [], ◌∷◌, insert_by, sort_by}
use lane_broker.Push.Holds.{caller_holds-holds_from_scratch, holds_from_scratch}
use lane_broker.Push.{
  Gate, another_after, caller_holds, differs, earliest_after, first_differing, first_of, if_differs,
  noted, or_other, push_order, push_pass,
}

abbrev gate : (id pid started : ℕ) (live : Bool) → Gate
gate id pid started live = record {
  id = id;
  git_pid = pid;
  git_start_epoch = started;
  caller = 1;
  live = live;
}

-- Lanes 1 and 2 belong to one push, 3 and 4 to two others that started later.
abbrev four : List Gate
four = gate 3 70 200 true ∷ gate 1 60 100 true ∷ gate 4 80 300 true ∷ gate 2 60 100 true ∷ []

abbrev in_order : List Gate
in_order = gate 1 60 100 true ∷ gate 2 60 100 true ∷ gate 3 70 200 true ∷ gate 4 80 300 true ∷ []

four_sorted : sort_by push_order four ≡ in_order
unfolding sort_by insert_by push_order
four_sorted = refl

four_holds : caller_holds [] four ≡ (3, 1) ∷ (4, 1) ∷ []
unfolding caller_holds push_pass noted or_other if_differs first_of first_differing differs
    earliest_after another_after sort_by insert_by push_order
four_holds = refl

caller_holds-holds_from_scratch_example :
    caller_holds (gate 9 60 50 true ∷ []) four
    ≡ holds_from_scratch (gate 9 60 50 true ∷ []) [] (sort_by push_order four)
caller_holds-holds_from_scratch_example =
    caller_holds-holds_from_scratch (gate 9 60 50 true ∷ []) four
