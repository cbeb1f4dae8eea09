-- ===== src/Runner/Readiness.antt =====
-- The readiness gaps of runners (src/runner-unreachable.js, recordReadiness and readReadiness).
use lane_broker.Prelude.{
  ℕ, ◌+◌, ◌≤◌, ◌<◌, ◌≡◌, inl, inr, Bool, true, false, Option, none, some, List, arith, leb,
  Bool-cases, Option-cases,
}
use lane_broker.Runner.{ContactFile, readiness_ttl_ms, unexpired, record_readiness, read_readiness}

-- What a placement records of a runner is read back for an hour and then no more; a runner that it
-- clears has no gap, and for one that it does not mention a later read gives what it would have given
-- without the write.
pub read_readiness-record_readiness :
    (f : ContactFile) (gaps : ℕ → Option (List ℕ)) (clear : ℕ → Bool) (now at n : ℕ)
    → now ≤ at
    → let read = read_readiness (record_readiness f gaps clear now) at n in
      ((missing : List ℕ)
        → gaps n ≡ some missing
        → (at ≤ now + readiness_ttl_ms → read ≡ some (record { missing = missing; at = now }))
          × (now + readiness_ttl_ms < at → read ≡ none))
      × (gaps n ≡ none → clear n ≡ true → read ≡ none)
      × (gaps n ≡ none → clear n ≡ false → read ≡ read_readiness f at n)
unfolding read_readiness record_readiness unexpired
read_readiness-record_readiness f gaps clear now at n le = (
  λ missing e. (λ young. ground (arith, e, young), λ old. ground (arith, e, old)),
  λ e c. ground (arith, e, c),
  λ e c. elim (Option-cases (f.readiness n)) [
    | inl never ↦ ground (arith, e, c, never)
    | inr (g, stored) ↦
        ground (arith, e, c, stored, le, Bool-cases (leb now (g.at + readiness_ttl_ms)))
  ],
)
