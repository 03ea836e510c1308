-- ===== src/Server/Limits.antt =====
-- internal/server/ratelimit_handlers.go
use geo_spatial_dispatch_ser.Prelude.{
  ℕ, String, ◌==◌, Bool, Option, none, some, [], ◌∷◌, ℤ, if◌then◌else◌,
}
use geo_spatial_dispatch_ser.Result.{Error, Result, ok, err, message, invalid_amount, invalid_key}
use geo_spatial_dispatch_ser.Redis.{Redis}
use geo_spatial_dispatch_ser.Float.{Float}
use geo_spatial_dispatch_ser.Ratelimiter.Numbers.{ScriptNumbers}
use geo_spatial_dispatch_ser.Ratelimiter.{allow_atomic, set_budget, get_budget}
use geo_spatial_dispatch_ser.Server.Http.{
  Request, Response, fields, rate_limit, budget, Web, RateLimitRequest, Serving, respond, answer,
  only, http_error, encoded,
}

abbrev pub budget_code : Error → ℕ
budget_code invalid_amount = 400
budget_code invalid_key = 400
budget_code e = 500

abbrev pub get_budget_code : Error → ℕ
get_budget_code invalid_key = 400
get_budget_code e = 500

module _ ⦃F : Float⦄ where
  abbrev pub checked : Result (Bool × ℤ) → Response
  checked (ok (allowed, remaining)) = encoded (rate_limit allowed remaining)
  checked (err e) = http_error (budget_code e) (message e)

  abbrev pub budget_set : Result (Unit {0}) → Response
  budget_set (ok done) = encoded (fields (("status", "success") ∷ []))
  budget_set (err e) = http_error (budget_code e) (message e)

  abbrev pub budget_got : Result ℤ → Response
  budget_got (ok amount) = encoded (budget amount)
  budget_got (err e) = http_error (get_budget_code e) (message e)

module _ ⦃R : Redis⦄ ⦃F : Float⦄ ⦃N : ScriptNumbers⦄ where
  open R use {Db}

  abbrev pub check_decoded : Option RateLimitRequest → Serving Db
  check_decoded none = respond (http_error 400 "Invalid request")
  check_decoded (some req) = answer (allow_atomic req.key req.cost) checked

  unfoldable pub handle_rate_limit_check : ⦃W : Web⦄ → Request → Serving Db
  handle_rate_limit_check ⦃W⦄ r = only "POST" r (check_decoded (W.decode_rate_limit r.body))

  abbrev pub set_parsed : String → Option ℤ → Serving Db
  set_parsed key none = respond (http_error 400 "Invalid amount")
  set_parsed key (some amount) = answer (set_budget key amount) budget_set

  -- strconv.ParseInt(amount, 10, 64)
  unfoldable pub handle_set_budget : Request → Serving Db
  handle_set_budget r = only "POST" r (set_parsed (r.query "key") (N.parse_int (r.query "amount")))

  unfoldable pub handle_get_budget : Request → Serving Db
  handle_get_budget r =
      let key = r.query "key" in
      only "GET" r (
        if key == ""
        then respond (http_error 400 "Missing key parameter")
        else answer (get_budget key) budget_got)
