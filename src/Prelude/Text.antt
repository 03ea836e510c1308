-- ===== src/Prelude/Text.antt =====
-- Go's strings as the program uses them: concatenation, `strings.TrimSpace`, and keys with a prefix.
use Prim.Native.Nat.{ℕ}
use Prim.Native.Char.{Char, code}
use Prim.Native.String.{String, [], ◌∷◌}
use mathlib.Core.Path.{◌≡◌, refl, ap}
use mathlib.Core.Logic.{◌≢◌, ◌⊎◌, inl, inr}
use mathlib.Core.Bool.{Bool, true, false, ◌&&◌, ◌||◌}
use native.Mathlib.Omega.{arith}
use text.Mathlib.Text.{◌==◌}
use text.Mathlib.TextEquality.{eq_iff}
use geo_spatial_dispatch_ser.Prelude.Tests.{Bool-cases, leb, nat_eq, if◌then◌else◌}

-- `s + t`
abbrev pub concat : String → String → String
concat [] t = t
concat (c ∷ s) t = c ∷ concat s t

-- `fmt.Sprintf("%s:%s", prefix, id)`
abbrev pub join_key : String → String → String
join_key prefix id = concat (concat prefix ":") id

-- `unicode.IsSpace`
unfoldable pub is_space : Char → Bool
is_space ch =
    let c = code ch in
    leb 9 c && leb c 13
    || nat_eq c 32
    || nat_eq c 133
    || nat_eq c 160
    || nat_eq c 5760
    || leb 8192 c && leb c 8202
    || nat_eq c 8232
    || nat_eq c 8233
    || nat_eq c 8239
    || nat_eq c 8287
    || nat_eq c 12288

trim_left : String → String
trim_left [] = []
trim_left (c ∷ s) = let rest = trim_left s in if is_space c then rest else c ∷ s

trim_right : String → String
trim_right [] = []
trim_right (c ∷ s) = let rest = trim_right s in if is_space c && rest == "" then "" else c ∷ rest

-- `strings.TrimSpace`
unfoldable pub trim_space : String → String
unfolding trim_left trim_right is_space
trim_space s = trim_left (trim_right s)

-- `strings.TrimSpace(s) == ""`
abbrev pub is_blank : String → Bool
is_blank s = trim_space s == ""

-- `strings.TrimPrefix`: the text as it is, if it lacks the prefix.
strip : String → String → String → String
strip [] s whole = s
strip (c ∷ p) [] whole = whole
strip (c ∷ p) (d ∷ s) whole =
    let rest = strip p s whole in if nat_eq (code c) (code d) then rest else whole

unfoldable pub trim_prefix : String → String → String
unfolding strip
trim_prefix s prefix = strip prefix s s

-- The two texts differ at a position that both have.
abbrev pub differ : String → String → Bool
differ [] t = false
differ (c ∷ s) [] = false
differ (c ∷ s) (d ∷ t) = if nat_eq (code c) (code d) then differ s t else true

code_head : String → ℕ
code_head [] = 0
code_head (c ∷ s) = code c

tail_of : String → String
tail_of [] = []
tail_of (c ∷ s) = s

-- Texts with prefixes that differ are different.
pub concat-ne : (p q : String) → differ p q ≡ true → (a b : String) → concat p a ≢ concat q b
unfolding code_head tail_of
concat-ne [] q h a b e = cc
concat-ne (c ∷ p) [] h a b e = cc
concat-ne (c ∷ p) (d ∷ q) h a b e =
    concat-ne p q (ground (arith, ap code_head e)) a b (ap tail_of e)

-- A prefix can be cancelled.
pub concat-injective : (p a b : String) → concat p a ≡ concat p b → a ≡ b
unfolding tail_of
concat-injective [] a b e = e
concat-injective (c ∷ p) a b e = concat-injective p a b (ap tail_of e)

-- Keys of families whose prefixes differ are different.
pub join_key-ne :
    (p q : String)
    → differ (concat p ":") (concat q ":") ≡ true
    → (a b : String) → join_key p a ≢ join_key q b
join_key-ne p q h a b = concat-ne (concat p ":") (concat q ":") h a b

pub join_key-injective : (p a b : String) → join_key p a ≡ join_key p b → a ≡ b
join_key-injective p a b e = concat-injective (concat p ":") a b e

trims : trim_space " ride 7 " ≡ "ride 7"
unfolding trim_space
trims = refl

apart : differ "dispatch:assignment:" "dispatch:rider-active:" ≡ true
apart = refl

pub Text-cases : (s t : String) → (s ≡ t) ⊎ (s ≢ t)
Text-cases s t = elim (Bool-cases (s == t)) [
  | inl same ↦ inl ((eq_iff s t).0 same)
  | inr other ↦ inr (λ e. cc (other, (eq_iff s t).1 e))
]
