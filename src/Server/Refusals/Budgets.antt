-- ===== src/Server/Refusals/Budgets.antt =====
-- internal/ratelimiter/ratelimiter.go: these operations change nothing when they refuse their arguments.
use geo_spatial_dispatch_ser.Prelude.{
  String, ◌≡◌, refl, sym, Bool, false, Option, none, some, ℤ, Bool-cases, inl, inr,
}
use geo_spatial_dispatch_ser.Result.{Error, redis, Result, ok, err, invalid_field}
use geo_spatial_dispatch_ser.Redis.{Redis}
use geo_spatial_dispatch_ser.Client.{pure, ◌>>=◌}
use geo_spatial_dispatch_ser.Ratelimiter.Numbers.{ScriptNumbers}
use geo_spatial_dispatch_ser.Ratelimiter.{
  known, is_negative, set_budget, get_budget, read_budget, read_amount, allow_atomic, allowed,
  deduct_budget_script, deduct_from, deduct_numbers,
}
use geo_spatial_dispatch_ser.Server.Refusals.{
  Refuses, Clean, Clean-Refuses, raise-Refuses, raise-Clean, pure-Clean, call-Clean, bind-Clean,
  lift-Refuses, if-Refuses, call-bind-Clean, err-inj,
}

module _ ⦃R : Redis⦄ ⦃N : ScriptNumbers⦄ (bad : Error → Bool)
    (soft : (text : String) → bad (redis text) ≡ false) where
  open R use {Db}

  pub set_budget-Refuses : (key : String) (amount : ℤ) → Refuses bad (set_budget key amount)
  unfolding set_budget
  set_budget-Refuses key amount =
      if-Refuses bad (is_negative amount) _ _ (raise-Refuses bad _)
        (λ _. lift-Refuses bad _ _ (λ k. Clean-Refuses bad _ (call-Clean bad _ soft)))

  amount-Clean :
      (value : String) (o : Option ℤ)
      → bad (invalid_field value) ≡ false
      → Clean {D = Db} bad (read_amount value o)
  amount-Clean value none field = raise-Clean bad _ field
  amount-Clean value (some amount) field = pure-Clean bad _

  read_budget-Clean :
      (o : Option String)
      → ((text : String) → bad (invalid_field text) ≡ false)
      → Clean {D = Db} bad (read_budget o)
  read_budget-Clean none field = pure-Clean bad _
  read_budget-Clean (some value) field = amount-Clean value _ (field value)

  pub get_budget-Refuses :
      (key : String)
      → ((text : String) → bad (invalid_field text) ≡ false)
      → Refuses bad (get_budget key)
  unfolding get_budget
  get_budget-Refuses key field = lift-Refuses bad _ _ (λ k.
      Clean-Refuses bad _
        (bind-Clean bad _ _ (call-Clean bad _ soft) (λ o. read_budget-Clean o field)))

  not_numbers :
      {text : String} {e : Error} → ◌≡◌ {A = Result ℤ} (err (redis text)) (err e) → bad e ≡ false
  not_numbers {text} {e} p = let same : redis text ≡ e = err-inj p in rw (sym same) (soft text)

  numbers-good :
      (key : String) (current cost : Option N.Number) (d : Db) (e : Error)
      → (deduct_numbers key current cost d).0 ≡ err e
      → bad e ≡ false
  numbers-good key (some current) (some cost) d e p = elim (Bool-cases (N.le cost current)) [
    | inl enough ↦ absurd (cc (rw enough at p))
    | inr less ↦ absurd (cc (rw less at p))
  ]
  numbers-good key none cost d e p = not_numbers p
  numbers-good key (some current) none d e p = not_numbers p

  script-good :
      (key cost : String) (o : Option String) (d : Db) (e : Error)
      → (deduct_from key cost o d).0 ≡ err e
      → bad e ≡ false
  script-good key cost none d e p = absurd (cc p)
  script-good key cost (some current) d e p = numbers-good key _ _ d e p

  replied-Clean :
      (reply : Result ℤ)
      → ((e : Error) → reply ≡ err e → bad e ≡ false)
      → Clean {D = Db} bad (known reply >>= (λ result. pure (allowed result)))
  unfolding ◌>>=◌
  replied-Clean (ok n) c = pure-Clean bad _
  replied-Clean (err e) c = raise-Clean bad e (c e refl)

  pub allow_atomic-Refuses : (key : String) (cost : ℤ) → Refuses bad (allow_atomic key cost)
  unfolding allow_atomic deduct_budget_script
  allow_atomic-Refuses key cost = if-Refuses bad (is_negative cost) _ _ (raise-Refuses bad _) (λ _.
      lift-Refuses bad _ _ (λ k.
        Clean-Refuses bad _
          (call-bind-Clean bad _ soft _ (λ d. replied-Clean _ (script-good k _ (R.get d k) d)))))
