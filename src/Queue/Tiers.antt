-- ===== src/Queue/Tiers.antt =====
-- The cap on queued high tickets (src/scheduler.js, admitTier and enqueue).
use lane_broker.Prelude.{
  ℕ, suc, ◌+◌, ◌≤◌, ◌<◌, max, ◌≡◌, subst, Bool, true, Option, none, some, List, [], ◌∷◌, ◌++◌,
  arith, leb, ==_iff, if◌then◌else◌, Bool-cases, or_else, is_some, length, filter_by, if-split,
}
use lane_broker.Records.{Tier, medium, Ticket}
use lane_broker.Priority.{is_high}
use lane_broker.Queue.{
  Files, existing_ticket, holds_high, queued_high, admit_tier, queued_record, enqueue,
}

length-filter_snoc :
    {A : Type 0} (p : A → Bool) (xs : List A) (y : A)
    → length (filter_by p (xs ++ (y ∷ []))) ≡ length (filter_by p xs) + (if p y then 1 else 0)
length-filter_snoc p [] y = ground arith
length-filter_snoc p (x ∷ xs) y = ground (arith, length-filter_snoc p xs y)

module _ (alive : Ticket → Bool) (max_high : ℕ) (f : Files) (now_eff : ℕ) where
  admitted_high :
      (repo : ℕ) (requested : Tier)
      → is_high (admit_tier alive max_high f.queue repo requested none).0 ≡ true
      → queued_high alive repo none f.queue < max_high
  unfolding admit_tier
  admitted_high repo requested h = ground (
    arith,
    Bool-cases (is_high requested),
    Bool-cases (leb max_high (queued_high alive repo none f.queue)),
  )

  record_high :
      (t : Ticket) (repo : ℕ)
      → holds_high alive repo none (some (queued_record alive max_high f now_eff t)) ≡ true
      → queued_high alive repo none f.queue < max_high
  unfolding queued_record
  record_high t repo h =
      subst (λ r. queued_high alive r none f.queue < max_high)
        ((==_iff t.repo_id repo).0 (ground arith))
        (admitted_high t.repo_id (or_else t.priority_requested medium) (ground arith))

  -- An enqueue never takes a repo over its cap of queued high tickets with a live supervisor; a repo
  -- that is over it already, after a change of the cap, gets no more.
  pub queued_high-enqueue :
      (owner : Option ℕ) (t : Ticket) (repo : ℕ)
      → queued_high alive repo none (enqueue alive max_high f now_eff owner t).queue
        ≤ max max_high (queued_high alive repo none f.queue)
  unfolding queued_high enqueue
  queued_high-enqueue owner t repo =
      if-split
        (λ (g : Files).
          queued_high alive repo none g.queue ≤ max max_high (queued_high alive repo none f.queue))
        (is_some (existing_ticket f t.id owner)) f
        (record f {
          queue = f.queue ++ (some (queued_record alive max_high f now_eff t) ∷ []);
          next_seq = suc f.next_seq;
        })
        (λ h. ground arith)
        (λ h. ground (
          arith,
          length-filter_snoc (holds_high alive repo none) f.queue
              (some (queued_record alive max_high f now_eff t)),
          record_high t repo,
          Bool-cases (holds_high alive repo none (some (queued_record alive max_high f now_eff t))),
        ))
