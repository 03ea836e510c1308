-- ===== src/Float.antt =====
-- Go's float64 with the parts of `math` and `strconv` that the program uses, as a parameter: there
-- are no floating-point numbers in the model's language.
pub mod Degrees
use geo_spatial_dispatch_ser.Prelude.{ℕ, String, ◌≡◌, Bool, true, false, Option, some}

pub record Float : Type 1 where
  pub Float64 : Type 0
  -- the constant n / 10 ^ digits
  pub constant : ℕ → ℕ → Float64
  pub negate : Float64 → Float64
  pub is_nan : Float64 → Bool
  pub is_inf : Float64 → Bool
  pub lt : Float64 → Float64 → Bool
  pub le : Float64 → Float64 → Bool
  pub eq : Float64 → Float64 → Bool
  pub add : Float64 → Float64 → Float64
  pub sub : Float64 → Float64 → Float64
  pub mul : Float64 → Float64 → Float64
  pub div : Float64 → Float64 → Float64
  pub pi : Float64
  pub sin : Float64 → Float64
  pub cos : Float64 → Float64
  pub sqrt : Float64 → Float64
  pub atan2 : Float64 → Float64 → Float64
  -- strconv.FormatFloat(x, 'g', -1, 64) and strconv.ParseFloat(s, 64)
  pub format : Float64 → String
  pub parse : String → Option Float64
  -- The shortest text reads back as the same number.
  pub parse-format : (x : Float64) → is_nan x ≡ false → parse (format x) ≡ some x
