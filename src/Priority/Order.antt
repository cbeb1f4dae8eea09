-- ===== src/Priority/Order.antt =====
-- The order of the queue (src/priority.js, orderQueue).
use lane_broker.Prelude.{
  ℕ, ◌≡◌, refl, sym, ap, subst, Bool, true, false, Option, none, some, List, [], ◌∷◌, ◌++◌, map,
  append-nil, arith, InOrder, sort_by-Perm, sort_by-InOrder, Perm,
}
use lane_broker.Priority.{PriorityConfig, goes_before, flush, order_from, order_queue}
use lane_broker.Records.{Ticket}

-- A run of readable records is sorted, and moves across no unreadable record.
pub data Arranged (now_eff : ℕ) (cfg : PriorityConfig) (after : Bool)
    : List (Option Ticket) → List (Option Ticket) → Type 0 where
  last_run :
      (run out : List Ticket)
      → Perm out run
      → InOrder (goes_before now_eff cfg after) out
      → Arranged now_eff cfg after (map some run) (map some out)
  barrier :
      (run out : List Ticket) (rs outs : List (Option Ticket))
      → Perm out run
      → InOrder (goes_before now_eff cfg after) out
      → Arranged now_eff cfg after rs outs
      → Arranged now_eff cfg after (map some run ++ (none ∷ rs)) (map some out ++ (none ∷ outs))

snoc_run :
    (run : List Ticket) (t : Ticket) (rs : List (Option Ticket))
    → map some (run ++ (t ∷ [])) ++ rs ≡ map some run ++ (some t ∷ rs)
snoc_run [] t rs = refl
snoc_run (u ∷ run) t rs = ap (λ l. some u ∷ l) (snoc_run run t rs)

module _ (now_eff : ℕ) (cfg : PriorityConfig) (after : Bool) where
  asym :
      (a b : Ticket)
      → goes_before now_eff cfg after a b ≡ true
      → goes_before now_eff cfg after b a ≡ false
  unfolding goes_before
  asym a b h = ground arith

  neg_trans :
      (a b c : Ticket)
      → goes_before now_eff cfg after b a ≡ false
      → goes_before now_eff cfg after c b ≡ false
      → goes_before now_eff cfg after c a ≡ false
  unfolding goes_before
  neg_trans a b c h k = ground arith

  order_from-Arranged :
      (run : List Ticket) (rs : List (Option Ticket))
      → Arranged now_eff cfg after (map some run ++ rs) (order_from now_eff cfg after run rs)
  unfolding order_from
  order_from-Arranged run [] =
      subst (λ l. Arranged now_eff cfg after l (flush now_eff cfg after run))
        (sym (append-nil (map some run)))
        (last_run run _ (sort_by-Perm _ run) (sort_by-InOrder _ asym neg_trans run))
  order_from-Arranged run (none ∷ rs) =
      barrier run _ rs _ (sort_by-Perm _ run) (sort_by-InOrder _ asym neg_trans run)
        (order_from-Arranged [] rs)
  order_from-Arranged run (some t ∷ rs) =
      subst (λ l. Arranged now_eff cfg after l (order_from now_eff cfg after (run ++ (t ∷ [])) rs))
        (snoc_run run t rs) (order_from-Arranged (run ++ (t ∷ [])) rs)

  -- Ordering a queue keeps every unreadable record where it is, and puts each run of readable records
  -- between them in the order of score, sim rank and sequence number, losing and repeating none.
  pub order_queue-Arranged :
      (raw : List (Option Ticket))
      → Arranged now_eff cfg after raw (order_queue now_eff cfg after raw)
  unfolding order_queue
  order_queue-Arranged raw = order_from-Arranged [] raw
