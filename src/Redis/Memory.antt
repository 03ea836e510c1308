-- ===== src/Redis/Memory.antt =====
-- A server in memory that meets the assumptions on Redis: a key holds a text or a hash, and a time
-- to live is only compared with 0.
use geo_spatial_dispatch_ser.Prelude.{
  ℕ, suc, zero, ◌<◌, String, ◌≡◌, refl, ◌≢◌, Bool, true, false, Option, none, some, List, [], ◌∷◌,
  ◌++◌, ◌==◌, eq_iff, eq_refl, ap, ◌∙◌, arith, if◌then◌else◌,
}
use mathlib.Core.List.{append-nil}
use geo_spatial_dispatch_ser.Redis.{Redis, lookup, or_else}

pub data Value : Type 0 where
  text : String → Value
  hash : List (String × String) → Value

abbrev pub Store : Type 0
Store = String → Option Value

abbrev pub as_text : Option Value → Option String
as_text (some (text s)) = some s
as_text _ = none

abbrev pub as_hash : Option Value → List (String × String)
as_hash (some (hash h)) = h
as_hash _ = []

abbrev pub is_some {ℓ} : {A : Type ℓ} → Option A → Bool
is_some none = false
is_some (some a) = true

abbrev pub put : Store → String → Option Value → Store
put d k v j = if k == j then v else d j

abbrev pub expired : ℕ → Option Value → Option Value
expired zero v = none
expired (suc n) v = v

pub lookup-append :
    (f : String) (xs ys : List (String × String))
    → lookup f (xs ++ ys) ≡ or_else (lookup f xs) (lookup f ys)
lookup-append f [] ys = refl
lookup-append f ((j, v) ∷ xs) ys = ground (arith, lookup-append f xs ys)

pub put_self : (d : Store) (k : String) (v : Option Value) → put d k v k ≡ v
put_self d k v = rw (eq_refl k)

pub put-ne : (d : Store) (k : String) (v : Option Value) (j : String) → k ≢ j → put d k v j ≡ d j
put-ne d k v j ne = ground (arith, eq_iff k j)

pub expired-live : (n : ℕ) (v : Option Value) → 0 < n → expired n v ≡ v
expired-live n v h = ground arith

pub put-expired :
    (d : Store) (k : String) (n : ℕ) (j : String) → 0 < n → put d k (expired n (d k)) j ≡ d j
put-expired d k n j h = ground (arith, eq_iff k j, expired-live n (d k) h, ap d)

pub put-live :
    (d : Store) (k v : String) (n : ℕ)
    → 0 < n
    → put d k (expired n (some (text v))) k ≡ some (text v)
put-live d k v n h = put_self d k _ ∙ expired-live n _ h

pub as_hash-missing : (v : Option Value) → is_some v ≡ false → as_hash v ≡ []
as_hash-missing v h = ground arith

pub as_text-missing : (v : Option Value) → is_some v ≡ false → as_text v ≡ none
as_text-missing v h = ground arith

pub hash-new :
    (d : Store) (k : String) (fs : List (String × String)) (f : String)
    → is_some (d k) ≡ false
    → lookup f (as_hash (put d k (some (hash (fs ++ as_hash (d k)))) k)) ≡ lookup f fs
hash-new d k fs f h =
    rw (put_self d k (some (hash (fs ++ as_hash (d k)))), as_hash-missing (d k) h, append-nil)

pub hash-old :
    (d : Store) (k : String) (fs : List (String × String)) (f : String)
    → lookup f (as_hash (put d k (some (hash (fs ++ as_hash (d k)))) k))
      ≡ or_else (lookup f fs) (lookup f (as_hash (d k)))
hash-old d k fs f =
    rw (put_self d k (some (hash (fs ++ as_hash (d k)))), lookup-append f fs (as_hash (d k)))

instance abbrev pub memory : Redis
memory = record {
  Db = Store;
  get = λ d k. as_text (d k);
  hget = λ d k f. lookup f (as_hash (d k));
  hgetall = λ d k. as_hash (d k);
  exists = λ d k. is_some (d k);
  scan = λ d cursor pattern n. ([], 0);
  set_ex = λ d k v n. put d k (expired n (some (text v)));
  set_nx =
      λ d k v n. if is_some (d k) then (false, d) else (true, put d k (expired n (some (text v))));
  set = λ d k v. put d k (some (text v));
  del = λ d k. put d k none;
  expire = λ d k n. put d k (expired n (d k));
  hset = λ d k fs. put d k (some (hash (fs ++ as_hash (d k))));
  get-exists = λ d k h. as_text-missing (d k) h;
  hget-exists = λ d k f h. ap (lookup f) (as_hash-missing (d k) h);
  lookup-hgetall = λ d k f. refl;
  get-set_ex = λ d k v n h. ap as_text (put-live d k v n h);
  get-set_ex_ne = λ d k v n j ne. ap as_text (put-ne d k (expired n (some (text v))) j ne);
  hget-set_ex_ne = λ d k v n j f ne.
      ap (λ o. lookup f (as_hash o)) (put-ne d k (expired n (some (text v))) j ne);
  exists-set_ex = λ d k v n h. ap is_some (put-live d k v n h);
  exists-set_ex_ne = λ d k v n j ne. ap is_some (put-ne d k (expired n (some (text v))) j ne);
  get-set = λ d k v. ap as_text (put_self d k (some (text v)));
  get-set_ne = λ d k v j ne. ap as_text (put-ne d k (some (text v)) j ne);
  set_nx_lem = λ d k v n. refl;
  exists-del = λ d k. ap is_some (put_self d k none);
  get-del_ne = λ d k j ne. ap as_text (put-ne d k none j ne);
  hget-del_ne = λ d k j f ne. ap (λ o. lookup f (as_hash o)) (put-ne d k none j ne);
  exists-del_ne = λ d k j ne. ap is_some (put-ne d k none j ne);
  get-expire = λ d k n j h. ap as_text (put-expired d k n j h);
  hget-expire = λ d k n j f h. ap (λ o. lookup f (as_hash o)) (put-expired d k n j h);
  exists-expire = λ d k n j h. ap is_some (put-expired d k n j h);
  hget-hset_new = hash-new;
  hget-hset = λ d k fs f g v h. hash-old d k fs f;
  get-hset_ne = λ d k fs j ne. ap as_text (put-ne d k (some (hash (fs ++ as_hash (d k)))) j ne);
  hget-hset_ne = λ d k fs j f ne.
      ap (λ o. lookup f (as_hash o)) (put-ne d k (some (hash (fs ++ as_hash (d k)))) j ne);
  exists-hset_ne = λ d k fs j ne. ap is_some (put-ne d k (some (hash (fs ++ as_hash (d k)))) j ne);
}
