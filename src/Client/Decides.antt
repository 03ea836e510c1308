-- ===== src/Client/Decides.antt =====
-- Program parts that do all or nothing: run while nobody else does anything, they either answer with
-- a postcondition on the database and the answer, or fail and leave the database alone.
use geo_spatial_dispatch_ser.Prelude.{
  ◌≡◌, refl, ap, Bool, true, false, ◌⊎◌, inl, inr, if◌then◌else◌,
}
use geo_spatial_dispatch_ser.Result.{Error, Result, ok, err}
use geo_spatial_dispatch_ser.Client.{World, Io, quiet, raise, ◌>>=◌}
use geo_spatial_dispatch_ser.Client.Reads.{Reads}

abbrev pub DecidedAs : {D A : Type 0} → (D → A → Type 0) → D → Result A × World D → Type 0
DecidedAs {A = A} P d r =
    ((b : A) × (r.0 ≡ ok b) × P r.1.db b) ⊎ ((e : Error) × (r ≡ (err e, quiet d)))

pub record Decides {D A : Type 0} (P : D → A → Type 0) (m : Io D A) (d : D) : Type 0 where
  pub outcome : DecidedAs P d (m (quiet d))

decided :
    {D A : Type 0} (P : D → A → Type 0) (d : D) (r : Result A) (w : World D)
    → ((b : A) → r ≡ ok b → P w.db b)
    → ((e : Error) → r ≡ err e → w ≡ quiet d)
    → DecidedAs P d (r, w)
decided P d (ok b) w good bad = inl (b, refl, good b refl)
decided P d (err e) w good bad = inr (e, ap (λ v. (err e, v)) (bad e refl))

module _ {D A : Type 0} {P : D → A → Type 0} {d : D} where
  pub Decides-raise : (e : Error) → Decides P (raise e) d
  unfolding raise
  Decides-raise e = record { outcome = inr (e, refl) }

  pub Decides-if :
      (b : Bool) (m n : Io D A)
      → (b ≡ true → Decides P m d)
      → (b ≡ false → Decides P n d)
      → Decides P (if b then m else n) d
  Decides-if true m n hm hn = hm refl
  Decides-if false m n hm hn = hn refl

  -- From what is known of an outcome, in its two cases.
  pub Decides-from :
      (m : Io D A)
      → ((b : A) → (m (quiet d)).0 ≡ ok b → P (m (quiet d)).1.db b)
      → ((e : Error) → (m (quiet d)).0 ≡ err e → (m (quiet d)).1 ≡ quiet d)
      → Decides P m d
  Decides-from m good bad = record {
    outcome = decided P d (m (quiet d)).0 (m (quiet d)).1 good bad;
  }

module _ {D A B : Type 0} {P : D → B → Type 0} {d : D} where
  Decides-on :
      (r : Result A) (w : World D) (f : A → Io D B)
      → w ≡ quiet d
      → ((a : A) → r ≡ ok a → Decides P (f a) d)
      → DecidedAs P d (◌>>=◌ (λ v. (r, w)) f (quiet d))
  unfolding ◌>>=◌
  Decides-on (ok a) w f e h = rw e (h a refl).outcome
  Decides-on (err x) w f e h = inr (x, ap (λ v. (err x, v)) e)

  pub Decides-bind :
      (m : Io D A) (f : A → Io D B)
      → Reads m
      → ((a : A) → (m (quiet d)).0 ≡ ok a → Decides P (f a) d)
      → Decides P (m >>= f) d
  unfolding ◌>>=◌
  Decides-bind m f reads h = record {
    outcome = Decides-on (m (quiet d)).0 (m (quiet d)).1 f (reads d) h;
  }
