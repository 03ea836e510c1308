-- ===== src/Client/Keeps.antt =====
-- Properties of the database that a program part keeps whatever other clients do between its
-- calls, as long as they keep them too, and wherever a call fails.
use geo_spatial_dispatch_ser.Prelude.{Bool, true, false, List, [], ◌∷◌, if◌then◌else◌}
use geo_spatial_dispatch_ser.Result.{Error, Result, ok, err}
use geo_spatial_dispatch_ser.Client.{
  Fault, served, refused, lost, Turn, World, Io, pure, raise, attempt, call, ◌>>=◌,
}

abbrev pub Respect : {D : Type 0} → (D → Type 0) → List (Turn D) → Type 0
Respect P [] = Unit
Respect {D} P (t ∷ ts) = ((d : D) → P d → P (t.others d)) × Respect P ts

pub record IsSafe {D : Type 0} (P : D → Type 0) (w : World D) : Type 0 where
  pub holds : P w.db
  pub respected : Respect P w.turns

pub record Keeps {D A : Type 0} (P : D → Type 0) (m : Io D A) : Type 0 where
  pub at : (w : World D) → IsSafe P w → IsSafe P (m w).1

module _ {D A : Type 0} {P : D → Type 0} where
  pub Keeps-pure : (a : A) → Keeps P (pure a)
  unfolding pure
  Keeps-pure a = record { at = λ w h. h }

  pub Keeps-raise : (e : Error) → Keeps P (raise {A = A} e)
  unfolding raise
  Keeps-raise e = record { at = λ w h. h }

  pub Keeps-attempt : (m : Io D A) → Keeps P m → Keeps P (attempt m)
  unfolding attempt
  Keeps-attempt m k = record { at = λ w h. k.at w h }

  served-keeps :
      (f : D → A × D) (t : Fault) (d : D)
      → ((e : D) → P e → P (f e).1)
      → P d
      → (ts : List (Turn D)) → Respect P ts
      → IsSafe P (call f (record { db = d; turns = record { others = λ x. x; fault = t } ∷ ts })).1
  unfolding call
  served-keeps f served d k h ts r = record { holds = k d h; respected = r }
  served-keeps f (refused e) d k h ts r = record { holds = h; respected = r }
  served-keeps f (lost e) d k h ts r = record { holds = k d h; respected = r }

  call-keeps :
      (f : D → A × D)
      → ((e : D) → P e → P (f e).1)
      → (d : D) (ts : List (Turn D)) → P d
      → Respect P ts
      → IsSafe P (call f (record { db = d; turns = ts })).1
  unfolding call
  call-keeps f k d [] h r = record { holds = k d h; respected = tt }
  call-keeps f k d (t ∷ ts) h r = served-keeps f t.fault (t.others d) k (r.0 d h) ts r.1

  -- A round trip keeps what the command keeps.
  pub Keeps-call : (f : D → A × D) → ((d : D) → P d → P (f d).1) → Keeps P (call f)
  Keeps-call f k = record { at = λ w h. call-keeps f k w.db w.turns h.holds h.respected }

  pub Keeps-if : (b : Bool) (m n : Io D A) → Keeps P m → Keeps P n → Keeps P (if b then m else n)
  Keeps-if true m n km kn = km
  Keeps-if false m n km kn = kn

module _ {D A B : Type 0} {P : D → Type 0} where
  Keeps-result :
      (r : Result A) (f : A → Io D B) (w : World D)
      → ((a : A) → Keeps P (f a))
      → IsSafe P w
      → IsSafe P (◌>>=◌ (λ v. (r, v)) f w).1
  unfolding ◌>>=◌
  Keeps-result (ok a) f w k h = (k a).at w h
  Keeps-result (err e) f w k h = h

  pub Keeps-bind :
      (m : Io D A) (f : A → Io D B) → Keeps P m → ((a : A) → Keeps P (f a)) → Keeps P (m >>= f)
  unfolding ◌>>=◌
  Keeps-bind m f km kf = record {
    at = λ w h. let (r, w') = m w in Keeps-result r f w' kf (km.at w h);
  }

pub ruleset keeps_rules = (Keeps-pure, Keeps-raise, Keeps-attempt, Keeps-if, Keeps-bind)
