-- ===== src/Ratelimiter/Numbers.antt =====
-- internal/ratelimiter/scripts.go: the numbers of the script. Lua computes with float64, and Redis and
-- Go write them as decimal texts; the conversions are a parameter.
pub mod Decimals
use geo_spatial_dispatch_ser.Prelude.{
  ℕ, ◌-◌, ◌≤◌, String, ◌≡◌, Bool, true, false, Option, none, some, ℤ, pos, leb,
}

-- 2 ^ 53: up to here every whole number is a float64.
abbrev pub exact_bound : ℕ
exact_bound = 9007199254740992

pub record ScriptNumbers : Type 1 where
  pub Number : Type 0
  pub tonumber : String → Option Number
  pub le : Number → Number → Bool
  pub minus : Number → Number → Number
  -- As an argument of `redis.call`, and as the reply of a script.
  pub to_text : Number → String
  pub to_reply : Number → ℤ
  -- strconv.FormatInt(x, 10), strconv.ParseInt(s, 10, 64)
  pub format_int : ℤ → String
  pub parse_int : String → Option ℤ
  pub exact : ℕ → Number
  pub parse-format : (n : ℕ) → n ≤ exact_bound → parse_int (format_int (pos n)) ≡ some (pos n)
  pub tonumber-format : (n : ℕ) → n ≤ exact_bound → tonumber (format_int (pos n)) ≡ some (exact n)
  pub le-exact : (m n : ℕ) → m ≤ exact_bound → n ≤ exact_bound → le (exact m) (exact n) ≡ leb m n
  pub minus-exact : (m n : ℕ) → m ≤ exact_bound → n ≤ m → minus (exact m) (exact n) ≡ exact (m - n)
  pub to_text-exact : (n : ℕ) → n ≤ exact_bound → to_text (exact n) ≡ format_int (pos n)
  pub to_reply-exact : (n : ℕ) → n ≤ exact_bound → to_reply (exact n) ≡ pos n
