-- ===== src/Client/Reads.antt =====
-- Program parts that only read: run while nobody else does anything, they leave the database alone.
use geo_spatial_dispatch_ser.Prelude.{◌≡◌, refl}
use geo_spatial_dispatch_ser.Result.{Error, Result, ok, err}
use geo_spatial_dispatch_ser.Client.{World, Io, quiet, pure, raise, call, reading, ◌>>=◌}

abbrev pub Reads : {D A : Type 0} → Io D A → Type 0
Reads {D} m = (d : D) → (m (quiet d)).1 ≡ quiet d

module _ {D A : Type 0} where
  pub Reads-pure : (a : A) → Reads (pure {D = D} a)
  unfolding pure
  Reads-pure a d = refl

  pub Reads-call : (f : D → A) → Reads (call (reading f))
  unfolding call
  Reads-call f d = refl

pub Reads-raise : {D : Type 0} (A : Type 0) (e : Error) → Reads (raise {D = D} {A = A} e)
unfolding raise
Reads-raise A e d = refl

module _ {D A B : Type 0} where
  Reads-on :
      (r : Result A) (w : World D) (f : A → Io D B) (d : D)
      → w ≡ quiet d
      → ((a : A) → Reads (f a))
      → (◌>>=◌ (λ v. (r, w)) f (quiet d)).1 ≡ quiet d
  unfolding ◌>>=◌
  Reads-on (ok a) w f d e h = rw e (h a d)
  Reads-on (err x) w f d e h = e

  pub Reads-bind :
      (m : Io D A) (f : A → Io D B) → Reads m → ((a : A) → Reads (f a)) → Reads (m >>= f)
  unfolding ◌>>=◌
  Reads-bind m f km kf d = Reads-on (m (quiet d)).0 (m (quiet d)).1 f d (km d) kf
