-- ===== src/Float/Degrees.antt =====
-- A small arithmetic that meets the assumptions on float64, for running the model: whole numbers
-- with a sign, written in unary, and a value that is no number.
use geo_spatial_dispatch_ser.Prelude.{
  ℕ, zero, suc, ◌/◌, ◌^◌, ◌+◌, ◌-◌, ◌*◌, String, ◌≡◌, refl, ap, Bool, true, false, ◌&&◌, Option,
  none, some, leb, ltb, ℤ, pos, negsuc, ◌==◌, if◌then◌else◌,
}
use geo_spatial_dispatch_ser.Float.{Float}

pub data Number : Type 0 where
  nan : Number
  whole : ℤ → Number

abbrev pub digits : ℕ → String
digits zero = ""
digits (suc n) = String.◌∷◌ "1" (digits n)

abbrev pub count : String → ℕ
count String.[] = 0
count (String.◌∷◌ c s) = suc (count s)

abbrev pub write : Number → String
write nan = "NaN"
write (whole (pos n)) = String.◌∷◌ "+" (digits n)
write (whole (negsuc n)) = String.◌∷◌ "-" (digits n)

abbrev pub read : String → Option Number
read String.[] = none
read (String.◌∷◌ c s) =
    if String.◌∷◌ c "" == "+"
    then some (whole (pos (count s)))
    else if String.◌∷◌ c "" == "-"
    then some (whole (negsuc (count s)))
    else some nan

abbrev pub less : Bool → Number → Number → Bool
less strict nan y = false
less strict x nan = false
less strict (whole (pos m)) (whole (pos n)) = if strict then ltb m n else leb m n
less strict (whole (pos m)) (whole (negsuc n)) = false
less strict (whole (negsuc m)) (whole (pos n)) = true
less strict (whole (negsuc m)) (whole (negsuc n)) = if strict then ltb n m else leb n m

abbrev pub opposite : Number → Number
opposite nan = nan
opposite (whole (pos zero)) = whole (pos zero)
opposite (whole (pos (suc n))) = whole (negsuc n)
opposite (whole (negsuc n)) = whole (pos (suc n))

abbrev pub is_nan : Number → Bool
is_nan nan = true
is_nan (whole n) = false

-- Only differences along the positive axis are needed to run the model.
abbrev pub minus : Number → Number → Number
minus (whole (pos m)) (whole (pos n)) =
    if leb n m then whole (pos (m - n)) else whole (negsuc (n - m - 1))
minus x y = nan

abbrev pub times : Number → Number → Number
times (whole (pos m)) (whole (pos n)) = whole (pos (m * n))
times x y = nan

abbrev pub plus : Number → Number → Number
plus (whole (pos m)) (whole (pos n)) = whole (pos (m + n))
plus x y = nan

pub count-digits : (n : ℕ) → count (digits n) ≡ n
count-digits zero = refl
count-digits (suc n) = ap suc (count-digits n)

pub read-write : (x : Number) → is_nan x ≡ false → read (write x) ≡ some x
read-write nan h = cc
read-write (whole (pos n)) h = ap (λ k. some (whole (pos k))) (count-digits n)
read-write (whole (negsuc n)) h = ap (λ k. some (whole (negsuc k))) (count-digits n)

instance abbrev pub degrees : Float
degrees = record {
  Float64 = Number;
  constant = λ n d. whole (pos (n / 10 ^ d));
  negate = opposite;
  is_nan = is_nan;
  is_inf = λ x. false;
  lt = less true;
  le = less false;
  eq = λ x y. less false x y && less false y x;
  add = plus;
  sub = minus;
  mul = times;
  div = λ x y. x;
  pi = whole (pos 0);
  sin = λ x. x;
  cos = λ x. x;
  sqrt = λ x. x;
  atan2 = λ x y. x;
  format = write;
  parse = read;
  parse-format = read-write;
}
