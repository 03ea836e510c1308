-- ===== src/Ratelimiter/Numbers/Decimals.antt =====
-- Numbers that meet the assumptions on the script's: whole numbers, written in unary.
use geo_spatial_dispatch_ser.Prelude.{
  ℕ, ◌-◌, String, ◌≡◌, refl, ap, none, some, ℤ, pos, negsuc, leb,
}
use geo_spatial_dispatch_ser.Float.Degrees.{Number, nan, whole, write, read, count-digits}
use geo_spatial_dispatch_ser.Ratelimiter.Numbers.{ScriptNumbers}

abbrev to_whole : Number → ℤ
to_whole nan = pos 0
to_whole (whole z) = z

abbrev natural : String → ℕ
natural s = elim (read s) [ none ↦ 0 | some x ↦ elim (to_whole x) [ pos n ↦ n | negsuc n ↦ 0 ] ]

abbrev nonnegative : ℤ → ℕ
nonnegative (pos n) = n
nonnegative (negsuc n) = 0

pub natural-write : (n : ℕ) → natural (write (whole (pos n))) ≡ n
natural-write n = count-digits n

instance abbrev pub decimals : ScriptNumbers
decimals = record {
  Number = ℕ;
  tonumber = λ s. some (natural s);
  le = leb;
  minus = λ m n. m - n;
  to_text = λ n. write (whole (pos n));
  to_reply = pos;
  format_int = λ z. write (whole z);
  parse_int = λ s. some (pos (natural s));
  exact = λ n. n;
  parse-format = λ n h. ap (λ k. some (pos k)) (natural-write n);
  tonumber-format = λ n h. ap some (natural-write n);
  le-exact = λ m n h k. refl;
  minus-exact = λ m n h k. refl;
  to_text-exact = λ n h. refl;
  to_reply-exact = λ n h. refl;
}
