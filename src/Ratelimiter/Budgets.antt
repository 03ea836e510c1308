-- ===== src/Ratelimiter/Budgets.antt =====
-- internal/ratelimiter/ratelimiter.go: what the limiter promises of a budget.
use geo_spatial_dispatch_ser.Prelude.{
  ℕ, ◌+◌, ◌-◌, ◌≤◌, ◌<◌, String, ◌≡◌, refl, Bool, true, false, some, List, [], ◌∷◌, ℤ, pos, negsuc,
  leb, arith, Bool-cases, inl, inr, ◌⊎◌,
}
use geo_spatial_dispatch_ser.Result.{Result, ok, err}
use geo_spatial_dispatch_ser.Redis.{Redis}
use geo_spatial_dispatch_ser.Client.{quiet, pure, call, ◌>>=◌}
use geo_spatial_dispatch_ser.Ratelimiter.Numbers.{ScriptNumbers, exact_bound}
use geo_spatial_dispatch_ser.Ratelimiter.{
  budget_key, deduct_budget_script, set_budget, get_budget, allow_atomic,
}

module _ ⦃R : Redis⦄ ⦃N : ScriptNumbers⦄ where
  open R use {Db, get, set}
  open N use {format_int}

  -- The key holds the budget `n`, which a float64 holds exactly.
  pub record HasBudget (d : Db) (key : String) (n : ℕ) : Type 0 where
    pub redis_key : String
    pub key_known : budget_key key ≡ ok redis_key
    pub stored : get d redis_key ≡ some (format_int (pos n))
    pub bounded : n ≤ exact_bound

  leb-le : (m n : ℕ) → leb m n ≡ true → m ≤ n
  leb-le m n h = ground arith

  leb-lt : (m n : ℕ) → leb m n ≡ false → n < m
  leb-lt m n h = ground arith

  module _ (d : Db) (key : String) (n cost : ℕ) (b : HasBudget d key n)
      (small : cost ≤ exact_bound) where
    script_grants :
        leb cost n ≡ true
        → deduct_budget_script b.redis_key (format_int (pos cost)) d
          ≡ (ok (pos (n - cost)), set d b.redis_key (format_int (pos (n - cost))))
    unfolding deduct_budget_script
    script_grants h =
        let rest : n - cost ≤ exact_bound = omega (arith, b.bounded) in
        rw
          (
            b.stored,
            N.tonumber-format n b.bounded,
            N.tonumber-format cost small,
            N.le-exact cost n small b.bounded,
            h,
            N.minus-exact n cost b.bounded (leb-le cost n h),
            N.to_reply-exact (n - cost) rest,
            N.to_text-exact (n - cost) rest,
          )
          refl

    script_refuses :
        leb cost n ≡ false
        → deduct_budget_script b.redis_key (format_int (pos cost)) d ≡ (ok (negsuc 0), d)
    unfolding deduct_budget_script
    script_refuses h =
        rw
          (
            b.stored,
            N.tonumber-format n b.bounded,
            N.tonumber-format cost small,
            N.le-exact cost n small b.bounded,
            h,
          )
          refl

    pub allow_atomic_grants :
        leb cost n ≡ true
        → allow_atomic key (pos cost) (quiet d)
          ≡ (ok (true, pos (n - cost)), quiet (set d b.redis_key (format_int (pos (n - cost)))))
    unfolding allow_atomic call ◌>>=◌ pure
    allow_atomic_grants h = rw (b.key_known, script_grants h) refl

    pub allow_atomic_refuses :
        leb cost n ≡ false → allow_atomic key (pos cost) (quiet d) ≡ (ok (false, pos 0), quiet d)
    unfolding allow_atomic call ◌>>=◌ pure
    allow_atomic_refuses h = rw (b.key_known, script_refuses h) refl

    pub remaining-HasBudget :
        HasBudget (set d b.redis_key (format_int (pos (n - cost)))) key (n - cost)
    remaining-HasBudget = record {
      redis_key = b.redis_key;
      key_known = b.key_known;
      stored = R.get-set d b.redis_key (format_int (pos (n - cost)));
      bounded = omega (arith, b.bounded);
    }

    -- A request whose cost is at most the budget is allowed, takes its cost and is told what remains; a
    -- dearer one is refused and takes nothing. Budget and cost are at most 2 ^ 53.
    pub allow_atomic-HasBudget :
        let (answer, w) = allow_atomic key (pos cost) (quiet d) in
        ((cost ≤ n) × (answer ≡ ok (true, pos (n - cost))) × HasBudget w.db key (n - cost))
        ⊎ ((n < cost) × (answer ≡ ok (false, pos 0)) × (w ≡ quiet d))
    allow_atomic-HasBudget = elim (Bool-cases (leb cost n)) [
      | inl enough ↦
          inl (rw (allow_atomic_grants enough) (leb-le cost n enough, refl, remaining-HasBudget))
      | inr dear ↦ inr (rw (allow_atomic_refuses dear) (leb-lt cost n dear, refl, refl))
    ]

  -- What an answer has taken from the budget.
  abbrev pub taken : Result (Bool × ℤ) → ℕ → ℕ
  taken (ok (true, _)) cost = cost
  taken (ok (false, _)) cost = 0
  taken (err e) cost = 0

  -- Requests of any clients, in the order in which the server runs the script for them: what they have
  -- taken together, and the database.
  unfoldable pub spend : String → List ℕ → Db → ℕ × Db
  spend key [] d = (0, d)
  spend key (cost ∷ costs) d =
      let (answer, w) = allow_atomic key (pos cost) (quiet d) in
      let (total, e) = spend key costs w.db in (taken answer cost + total, e)

  abbrev pub Small : List ℕ → Type 0
  Small [] = Unit
  Small (cost ∷ costs) = (cost ≤ exact_bound) × Small costs

  -- A budget is never overspent: however many requests are made, what they have taken and what remains
  -- are together the budget that was there. Budget and costs are at most 2 ^ 53.
  pub spend-HasBudget :
      (key : String) (costs : List ℕ) (d : Db) (n : ℕ)
      → HasBudget d key n
      → Small costs
      → let (total, e) = spend key costs d in (rest : ℕ) × HasBudget e key rest × (total + rest ≡ n)
  unfolding spend
  spend-HasBudget key [] d n b small = (n, b, omega arith)
  spend-HasBudget key (cost ∷ costs) d n b (small, others) = elim (Bool-cases (leb cost n)) [
    | inl enough ↦
        let (rest, held, sum) =
          spend-HasBudget key costs _ (n - cost) (remaining-HasBudget d key n cost b small)
            others in
        rw (allow_atomic_grants d key n cost b small enough)
          (rest, held, omega (arith, sum, leb-le cost n enough))
    | inr dear ↦
        let (rest, held, sum) = spend-HasBudget key costs d n b others in
        rw (allow_atomic_refuses d key n cost b small dear) (rest, held, omega (arith, sum))
  ]

  -- The budget that `SetBudget` writes is the one that `GetBudget` reads, for a key that is not blank
  -- and an amount of at most 2 ^ 53.
  pub get_budget-set_budget :
      (key redis_key : String) (n : ℕ) (d : Db)
      → budget_key key ≡ ok redis_key
      → n ≤ exact_bound
      → let (done, w) = set_budget key (pos n) (quiet d) in
        (done ≡ ok tt) × (get_budget key w ≡ (ok (pos n), w))
  unfolding set_budget get_budget call ◌>>=◌ pure
  get_budget-set_budget key redis_key n d named small =
      rw (named, R.get-set d redis_key (format_int (pos n)), N.parse-format n small) (refl, refl)
