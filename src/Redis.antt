-- ===== src/Redis.antt =====
-- The Redis server, which the program calls and does not implement: its commands on strings and
-- hashes as a parameter, with the documented behaviour that the program relies on.
pub mod Memory
pub mod Frame
use geo_spatial_dispatch_ser.Prelude.{
  ℕ, ◌<◌, String, ◌≡◌, ◌≢◌, Bool, true, false, Option, none, some, List, [], ◌∷◌, ◌==◌,
  if◌then◌else◌,
}

-- The value of the first entry with a given name.
abbrev pub lookup {ℓ} : {V : Type ℓ} → String → List (String × V) → Option V
lookup k [] = none
lookup k ((j, v) ∷ l) = if j == k then some v else lookup k l

abbrev pub or_else {ℓ} : {V : Type ℓ} → Option V → Option V → Option V
or_else none q = q
or_else (some v) q = some v

-- A database, its readers, and its writers. Times to live are in nanoseconds, as Go's
-- `time.Duration`, and expiry is a change by others. Nothing is said of a command on a key of the
-- wrong type or of a time to live of 0.
pub record Redis : Type 1 where
  pub Db : Type 0
  -- GET, HGET, HGETALL, EXISTS
  pub get : Db → String → Option String
  pub hget : Db → String → String → Option String
  pub hgetall : Db → String → List (String × String)
  pub exists : Db → String → Bool
  -- SCAN cursor MATCH pattern COUNT n: keys, and the next cursor.
  pub scan : Db → ℕ → String → ℕ → List String × ℕ
  -- SET key value EX ttl, SET key value EX ttl NX, DEL key, EXPIRE key ttl, HSET key field value ...
  -- EXPIRE and DEL also tell whether the key was there, which is `exists` before the command.
  pub set_ex : Db → String → String → ℕ → Db
  pub set_nx : Db → String → String → ℕ → Bool × Db
  -- SET key value
  pub set : Db → String → String → Db
  pub del : Db → String → Db
  pub expire : Db → String → ℕ → Db
  pub hset : Db → String → List (String × String) → Db
  pub get-exists : (d : Db) (k : String) → exists d k ≡ false → get d k ≡ none
  pub hget-exists : (d : Db) (k f : String) → exists d k ≡ false → hget d k f ≡ none
  pub lookup-hgetall : (d : Db) (k f : String) → lookup f (hgetall d k) ≡ hget d k f
  pub get-set_ex : (d : Db) (k v : String) (n : ℕ) → 0 < n → get (set_ex d k v n) k ≡ some v
  pub get-set_ex_ne :
      (d : Db) (k v : String) (n : ℕ) (j : String) → k ≢ j → get (set_ex d k v n) j ≡ get d j
  pub hget-set_ex_ne :
      (d : Db) (k v : String) (n : ℕ) (j f : String)
      → k ≢ j
      → hget (set_ex d k v n) j f ≡ hget d j f
  pub exists-set_ex : (d : Db) (k v : String) (n : ℕ) → 0 < n → exists (set_ex d k v n) k ≡ true
  pub exists-set_ex_ne :
      (d : Db) (k v : String) (n : ℕ) (j : String) → k ≢ j → exists (set_ex d k v n) j ≡ exists d j
  pub get-set : (d : Db) (k v : String) → get (set d k v) k ≡ some v
  pub get-set_ne : (d : Db) (k v : String) (j : String) → k ≢ j → get (set d k v) j ≡ get d j
  pub set_nx_lem :
      (d : Db) (k v : String) (n : ℕ)
      → set_nx d k v n ≡ (if exists d k then (false, d) else (true, set_ex d k v n))
  pub exists-del : (d : Db) (k : String) → exists (del d k) k ≡ false
  pub get-del_ne : (d : Db) (k j : String) → k ≢ j → get (del d k) j ≡ get d j
  pub hget-del_ne : (d : Db) (k j f : String) → k ≢ j → hget (del d k) j f ≡ hget d j f
  pub exists-del_ne : (d : Db) (k j : String) → k ≢ j → exists (del d k) j ≡ exists d j
  pub get-expire :
      (d : Db) (k : String) (n : ℕ) (j : String) → 0 < n → get (expire d k n) j ≡ get d j
  pub hget-expire :
      (d : Db) (k : String) (n : ℕ) (j f : String) → 0 < n → hget (expire d k n) j f ≡ hget d j f
  pub exists-expire :
      (d : Db) (k : String) (n : ℕ) (j : String) → 0 < n → exists (expire d k n) j ≡ exists d j
  -- HSET on a key that is missing, and on one that holds a hash.
  pub hget-hset_new :
      (d : Db) (k : String) (fs : List (String × String)) (f : String)
      → exists d k ≡ false
      → hget (hset d k fs) k f ≡ lookup f fs
  pub hget-hset :
      (d : Db) (k : String) (fs : List (String × String)) (f g v : String)
      → hget d k g ≡ some v
      → hget (hset d k fs) k f ≡ or_else (lookup f fs) (hget d k f)
  pub get-hset_ne :
      (d : Db) (k : String) (fs : List (String × String)) (j : String)
      → k ≢ j
      → get (hset d k fs) j ≡ get d j
  pub hget-hset_ne :
      (d : Db) (k : String) (fs : List (String × String)) (j f : String)
      → k ≢ j
      → hget (hset d k fs) j f ≡ hget d j f
  pub exists-hset_ne :
      (d : Db) (k : String) (fs : List (String × String)) (j : String)
      → k ≢ j
      → exists (hset d k fs) j ≡ exists d j
