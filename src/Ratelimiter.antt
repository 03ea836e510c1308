-- ===== src/Ratelimiter.antt =====
-- internal/ratelimiter/ratelimiter.go, scripts.go: budgets per key, which a script deducts from.
pub mod Numbers
pub mod Budgets
use geo_spatial_dispatch_ser.Prelude.{
  String, ◌==◌, Bool, true, false, Option, none, some, ℤ, pos, negsuc, zero, suc, concat,
  trim_space, if◌then◌else◌,
}
use geo_spatial_dispatch_ser.Result.{
  Result, ok, err, redis, invalid_amount, invalid_key, invalid_field,
}
use geo_spatial_dispatch_ser.Redis.{Redis}
use geo_spatial_dispatch_ser.Client.{Io, pure, raise, call, ◌>>=◌, ◌>>◌, reading, writing}
use geo_spatial_dispatch_ser.Ratelimiter.Numbers.{ScriptNumbers}

abbrev pub is_negative : ℤ → Bool
is_negative (pos n) = false
is_negative (negsuc n) = true

-- `budgetKey` on the trimmed key.
abbrev pub budget_key_of : String → Result String
budget_key_of key = if key == "" then err invalid_key else ok (concat "ratelimit:budget:" key)

unfoldable pub budget_key : String → Result String
budget_key key = budget_key_of (trim_space key)

-- A step of a method that depends on no state.
abbrev pub known : {D A : Type 0} → Result A → Io D A
known r w = (r, w)

module _ ⦃R : Redis⦄ ⦃N : ScriptNumbers⦄ where
  open R use {Db, get, set}
  open N use {Number, tonumber, le, minus, to_text, to_reply, format_int, parse_int}

  -- The script after `tonumber`; to compare nil is an error of the script.
  abbrev pub deduct_numbers : String → Option Number → Option Number → Db → Result ℤ × Db
  deduct_numbers key (some current) (some cost) d =
      if le cost current
      then (ok (to_reply (minus current cost)), set d key (to_text (minus current cost)))
      else (ok (negsuc 0), d)
  deduct_numbers key current cost d = (err (redis "attempt to compare nil with number"), d)

  -- The script after its GET.
  abbrev pub deduct_from : String → String → Option String → Db → Result ℤ × Db
  deduct_from key cost none d = (ok (negsuc 0), d)
  deduct_from key cost (some current) d = deduct_numbers key (tonumber current) (tonumber cost) d

  unfoldable pub deduct_budget_script : String → String → Db → Result ℤ × Db
  deduct_budget_script key cost d = deduct_from key cost (get d key) d

  unfoldable pub set_budget : String → ℤ → Io Db Unit
  set_budget key amount = if is_negative amount then raise invalid_amount else (do
    redis_key ← known (budget_key key)
    call (writing (λ d. set d redis_key (format_int amount))))

  -- `Int64()` of the text.
  abbrev pub read_amount : String → Option ℤ → Io Db ℤ
  read_amount value none = raise (invalid_field value)
  read_amount value (some amount) = pure amount

  abbrev pub read_budget : Option String → Io Db ℤ
  read_budget none = pure (pos 0)
  read_budget (some value) = read_amount value (parse_int value)

  unfoldable pub get_budget : String → Io Db ℤ
  get_budget key = do
    redis_key ← known (budget_key key)
    value ← call (reading (λ d. get d redis_key))
    read_budget value

  abbrev pub allowed : ℤ → Bool × ℤ
  allowed (negsuc zero) = (false, pos 0)
  allowed result = (true, result)

  unfoldable pub allow_atomic : String → ℤ → Io Db (Bool × ℤ)
  allow_atomic key cost = if is_negative cost then raise invalid_amount else (do
    redis_key ← known (budget_key key)
    reply ← call (deduct_budget_script redis_key (format_int cost))
    result ← known reply
    pure (allowed result))

  unfoldable pub allow : String → ℤ → Io Db Bool
  allow key cost = do (granted, _) ← allow_atomic key cost; pure granted
