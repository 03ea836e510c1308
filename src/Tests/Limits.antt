-- ===== src/Tests/Limits.antt =====
-- The theorems on budgets, at a concrete budget.
use geo_spatial_dispatch_ser.Prelude.{
  ℕ, ◌+◌, ◌≤◌, ◌<◌, ◌≡◌, refl, true, false, [], ◌∷◌, pos, arith, ◌⊎◌, trim_space, is_space,
}
use geo_spatial_dispatch_ser.Result.{ok}
use geo_spatial_dispatch_ser.Redis.Memory.{Store, memory, text}
use geo_spatial_dispatch_ser.Client.{quiet}
use geo_spatial_dispatch_ser.Ratelimiter.Numbers.Decimals.{decimals}
use geo_spatial_dispatch_ser.Ratelimiter.{budget_key, set_budget, get_budget, allow_atomic}
use geo_spatial_dispatch_ser.Ratelimiter.Budgets.{
  HasBudget, spend, spend-HasBudget, allow_atomic-HasBudget, get_budget-set_budget,
}
use geo_spatial_dispatch_ser.Tests.Setup.{holding, empty}

-- A budget of five.
abbrev five : Store
five = holding (("ratelimit:budget:alice", text "+11111") ∷ [])

alice : budget_key " alice" ≡ ok "ratelimit:budget:alice"
unfolding budget_key trim_space is_space
alice = refl

five-HasBudget : HasBudget five " alice" 5
five-HasBudget = record {
  redis_key = "ratelimit:budget:alice";
  key_known = alice;
  stored = refl;
  bounded = omega arith;
}

spend-HasBudget_example :
    let (total, e) = spend " alice" (2 ∷ 4 ∷ 1 ∷ []) five in
    (rest : ℕ) × HasBudget e " alice" rest × (total + rest ≡ 5)
spend-HasBudget_example =
    spend-HasBudget " alice" (2 ∷ 4 ∷ 1 ∷ []) five 5 five-HasBudget
      (omega arith, (omega arith, (omega arith, tt)))

allow_atomic-HasBudget_example :
    let (answer, w) = allow_atomic " alice" (pos 2) (quiet five) in
    ((2 ≤ 5) × (answer ≡ ok (true, pos 3)) × HasBudget w.db " alice" 3)
    ⊎ ((5 < 2) × (answer ≡ ok (false, pos 0)) × (w ≡ quiet five))
allow_atomic-HasBudget_example =
    allow_atomic-HasBudget five " alice" 5 2 five-HasBudget (omega arith)

get_budget-set_budget_example :
    let (done, w) = set_budget " alice" (pos 5) (quiet empty) in
    (done ≡ ok tt) × (get_budget " alice" w ≡ (ok (pos 5), w))
get_budget-set_budget_example =
    get_budget-set_budget " alice" "ratelimit:budget:alice" 5 empty alice (omega arith)
