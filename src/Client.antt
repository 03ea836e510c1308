-- ===== src/Client.antt =====
-- The program's calls of a shared server. Every call is one round trip that is served atomically,
-- as Redis serves a command or a Lua script; before it, other clients may have changed the
-- database, keys may have expired, and the call may fail before or after the server has served it.
pub mod Keeps
pub mod Reads
pub mod Decides
pub mod Achieves
use geo_spatial_dispatch_ser.Prelude.{String, ◌≡◌, refl, Bool, List, [], ◌∷◌, if◌then◌else◌}
use geo_spatial_dispatch_ser.Result.{Error, redis, Result, ok, err}

pub data Fault : Type 0 where
  served : Fault
  refused lost : String → Fault

-- What happens between the previous call and this one, and how this call ends.
pub record Turn (D : Type 0) : Type 0 where
  pub others : D → D
  pub fault : Fault

-- The database, and the turns to come. When they have run out nothing else happens.
pub record World (D : Type 0) : Type 0 where
  pub db : D
  pub turns : List (Turn D)

abbrev pub quiet : {D : Type 0} → D → World D
quiet d = record { db = d; turns = [] }

abbrev pub Io : Type 0 → Type 0 → Type 0
Io D A = World D → Result A × World D

module _ {D A : Type 0} where
  unfoldable pub pure : A → Io D A
  pure a w = (ok a, w)

  unfoldable pub raise : Error → Io D A
  raise e w = (err e, w)

  -- `m` with its error as a value, for code that looks at `err`.
  unfoldable pub attempt : Io D A → Io D (Result A)
  attempt m w = let (r, w') = m w in (ok r, w')

  abbrev serve : Fault → (D → A × D) → D → Result A × D
  serve served f d = let (a, d') = f d in (ok a, d')
  serve (refused e) f d = (err (redis e), d)
  serve (lost e) f d = let (a, d') = f d in (err (redis e), d')

  abbrev round : List (Turn D) → (D → A × D) → D → Result A × World D
  round [] f d = let (a, d') = f d in (ok a, record { db = d'; turns = [] })
  round (t ∷ ts) f d =
      let (r, d') = serve t.fault f (t.others d) in (r, record { db = d'; turns = ts })

  -- One round trip.
  unfoldable pub call : (D → A × D) → Io D A
  call f w = round w.turns f w.db

module _ {D A B : Type 0} where
  abbrev continue : Result A → (A → Io D B) → Io D B
  continue (ok a) f w = f a w
  continue (err e) f w = (err e, w)

  infixl 10 ◌>>=◌ ◌>>◌
  -- opening this opens `pure`, `raise` and `attempt` too
  unfoldable pub ◌>>=◌ : Io D A → (A → Io D B) → Io D B
  unfolding pure raise attempt
  ◌>>=◌ m f w = let (r, w') = m w in continue r f w'

  abbrev pub ◌>>◌ : Io D A → Io D B → Io D B
  m >> n = m >>= λ _. n

-- A command that only reads, and one that only writes.
abbrev pub reading : {D A : Type 0} → (D → A) → D → A × D
reading f d = (f d, d)

abbrev pub writing : {D : Type 0} → (D → D) → D → Unit {0} × D
writing f d = (tt, f d)
