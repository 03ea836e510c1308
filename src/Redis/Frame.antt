-- ===== src/Redis/Frame.antt =====
-- What a Redis command leaves alone: two databases read the same at a key.
use geo_spatial_dispatch_ser.Prelude.{
  ℕ, ◌<◌, String, ◌≡◌, refl, ◌∙◌, ◌≢◌, Bool, true, false, none, List, if◌then◌else◌,
}
use geo_spatial_dispatch_ser.Redis.{Redis}

module _ ⦃R : Redis⦄ where
  open R use {Db, get, hget, exists, set_ex, set_nx, del, expire, hset}

  pub record SameAt (j : String) (d e : Db) : Type 0 where
    pub gets : get e j ≡ get d j
    pub hgets : (f : String) → hget e j f ≡ hget d j f
    pub present : exists e j ≡ exists d j

  pub SameAt-refl : (j : String) (d : Db) → SameAt j d d
  SameAt-refl j d = record { gets = refl; hgets = λ f. refl; present = refl }

  pub SameAt-trans : {j : String} {a b c : Db} → SameAt j a b → SameAt j b c → SameAt j a c
  SameAt-trans p q = record {
    gets = q.gets ∙ p.gets;
    hgets = λ f. q.hgets f ∙ p.hgets f;
    present = q.present ∙ p.present;
  }

  pub SameAt-if :
      (b : Bool) {j : String} {a c d : Db}
      → SameAt j a c
      → SameAt j a d
      → SameAt j a (if b then c else d)
  SameAt-if true p q = p
  SameAt-if false p q = q

  module _ (d : Db) (k : String) (j : String) (ne : k ≢ j) where
    pub set_ex-SameAt : (v : String) (n : ℕ) → SameAt j d (set_ex d k v n)
    set_ex-SameAt v n = record {
      gets = R.get-set_ex_ne d k v n j ne;
      hgets = λ f. R.hget-set_ex_ne d k v n j f ne;
      present = R.exists-set_ex_ne d k v n j ne;
    }

    pub del-SameAt : SameAt j d (del d k)
    del-SameAt = record {
      gets = R.get-del_ne d k j ne;
      hgets = λ f. R.hget-del_ne d k j f ne;
      present = R.exists-del_ne d k j ne;
    }

    pub hset-SameAt : (fs : List (String × String)) → SameAt j d (hset d k fs)
    hset-SameAt fs = record {
      gets = R.get-hset_ne d k fs j ne;
      hgets = λ f. R.hget-hset_ne d k fs j f ne;
      present = R.exists-hset_ne d k fs j ne;
    }

    pub set_nx-SameAt : (v : String) (n : ℕ) → SameAt j d (set_nx d k v n).1
    set_nx-SameAt v n = branch (exists d k) (set_nx d k v n) (R.set_nx_lem d k v n)
      where
        branch :
            (b : Bool) (r : Bool × Db)
            → r ≡ (if b then (false, d) else (true, set_ex d k v n))
            → SameAt j d r.1
        branch true r e = rw e (SameAt-refl j d)
        branch false r e = rw e (set_ex-SameAt v n)

  -- EXPIRE with a positive time to live changes nothing that is read.
  pub expire-SameAt : (d : Db) (k : String) (n : ℕ) (j : String) → 0 < n → SameAt j d (expire d k n)
  expire-SameAt d k n j h = record {
    gets = R.get-expire d k n j h;
    hgets = λ f. R.hget-expire d k n j f h;
    present = R.exists-expire d k n j h;
  }

  pub get-del : (d : Db) (k : String) → get (del d k) k ≡ none
  get-del d k = R.get-exists (del d k) k (R.exists-del d k)

  -- A script that branches to a reply and a database.
  pub SameAt-reply :
      {A : Type 0} (b : Bool) {j : String} {d : Db} (x y : A × Db)
      → SameAt j d x.1
      → SameAt j d y.1
      → SameAt j d (if◌then◌else◌ {A = A × Db} b x y).1
  SameAt-reply true x y p q = p
  SameAt-reply false x y p q = q

  -- A property that is kept by whatever changes one key only.
  abbrev pub Ignores : (Db → Type 0) → String → Type 0
  Ignores P k = (d e : Db) → ((j : String) → k ≢ j → SameAt j d e) → P d → P e
