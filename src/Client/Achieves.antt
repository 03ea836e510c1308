-- ===== src/Client/Achieves.antt =====
-- Program parts that succeed when they run while nobody else does anything, and what then holds of the
-- database and the answer.
use geo_spatial_dispatch_ser.Prelude.{◌≡◌, refl, Bool, true, false, if◌then◌else◌}
use geo_spatial_dispatch_ser.Result.{ok}
use geo_spatial_dispatch_ser.Client.{Io, quiet, pure, call, ◌>>=◌}

pub record Achieves {D A : Type 0} (P : D → A → Type 0) (m : Io D A) (d : D) : Type 0 where
  pub answer : A
  pub after : D
  pub outcome : m (quiet d) ≡ (ok answer, quiet after)
  pub holds : P after answer

module _ {D A : Type 0} {P : D → A → Type 0} {d : D} where
  pub Achieves-pure : (a : A) → P d a → Achieves P (pure a) d
  unfolding pure
  Achieves-pure a h = record { answer = a; after = d; outcome = refl; holds = h }

  pub Achieves-call : (f : D → A × D) → P (f d).1 (f d).0 → Achieves P (call f) d
  unfolding call
  Achieves-call f h = record { answer = (f d).0; after = (f d).1; outcome = refl; holds = h }

  pub Achieves-if :
      (b : Bool) (m n : Io D A)
      → (b ≡ true → Achieves P m d)
      → (b ≡ false → Achieves P n d)
      → Achieves P (if b then m else n) d
  Achieves-if true m n hm hn = hm refl
  Achieves-if false m n hm hn = hn refl

module _ {D A B : Type 0} (Q : D → A → Type 0) {P : D → B → Type 0} where
  -- `Q` is what holds between the two parts.
  pub Achieves-bind :
      {d : D} (m : Io D A) (f : A → Io D B)
      → Achieves Q m d
      → ((a : A) (e : D) → Q e a → Achieves P (f a) e)
      → Achieves P (m >>= f) d
  unfolding ◌>>=◌
  Achieves-bind {d} m f h k =
      let next = k h.answer h.after h.holds in
      record {
        answer = next.answer;
        after = next.after;
        outcome = rw h.outcome next.outcome;
        holds = next.holds;
      }
