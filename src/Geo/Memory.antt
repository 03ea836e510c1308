-- ===== src/Geo/Memory.antt =====
-- A GEO index in memory that meets the assumptions on Redis's, for running the model: the sorted set
-- is a hash of written coordinates, and the distance is that of the longitudes.
use geo_spatial_dispatch_ser.Prelude.{
  String, ◌≡◌, ◌≢◌, ap, ◌∙◌, arith, false, ◌||◌, ◌⊎◌, inl, inr, true, map, refl, pos, negsuc, Bool,
  Bool-cases, if-holds, eq_iff, concat-ne, Option, none, some, List, [], ◌∷◌, ◌==◌, eq_refl, concat,
  trim_prefix, if◌then◌else◌, not,
}
use geo_spatial_dispatch_ser.Redis.{lookup}
use geo_spatial_dispatch_ser.Redis.Memory.{
  memory, Store, Value, hash, put, put_self, put-ne, as_text, as_hash, is_some,
}
use geo_spatial_dispatch_ser.Float.Degrees.{degrees, Number, nan, whole, read, write, minus, less}
use geo_spatial_dispatch_ser.Geo.{GeoIndex, GeoLocation, is_indexable, NoneCloser, Ascending}

abbrev number : Option Number → Number
number none = nan
number (some x) = x

abbrev axis : Option String → Number
axis none = nan
axis (some v) = number (read v)

abbrev point : Option String → Option String → Option (Number × Number)
point none y = none
point (some x) y = some (number (read x), axis y)

abbrev position : List (String × String) → String → Option (Number × Number)
position h m = point (lookup (concat "x:" m) h) (lookup (concat "y:" m) h)

abbrev remove : String → List (String × String) → List (String × String)
remove m [] = []
remove m ((f, v) ∷ h) = let rest = remove m h in if f == m then rest else (f, v) ∷ rest

abbrev insert_near : GeoLocation Number → List (GeoLocation Number) → List (GeoLocation Number)
insert_near l [] = l ∷ []
insert_near l (k ∷ ks) =
    let rest = insert_near l ks in if less false l.dist k.dist then l ∷ k ∷ ks else k ∷ rest

-- The distance of a field's coordinate, and whether the field is no longitude within the radius.
abbrev offset : Number → String → Number
offset lon v = let x = number (read v) in if less false lon x then minus x lon else minus lon x

abbrev is_left_out : Number → Number → String → String → Bool
is_left_out lon radius f v = f == trim_prefix f "x:" || not (less false (offset lon v) radius)

abbrev member : Number → String → String → GeoLocation Number
member lon f v = record {
  name = trim_prefix f "x:";
  longitude = number (read v);
  latitude = nan;
  dist = offset lon v;
}

-- The members, read off the fields "x:", within the radius, by distance.
abbrev members : Number → Number → List (String × String) → List (GeoLocation Number)
members lon radius [] = []
members lon radius ((f, v) ∷ fields) =
    let rest = members lon radius fields in
    if is_left_out lon radius f v then rest else insert_near (member lon f v) rest

abbrev pub added : Store → String → String → Number → Number → Value
added d k m lon lat = hash ((concat "x:" m, write lon) ∷ (concat "y:" m, write lat) ∷ as_hash (d k))

-- The numbers as they are read back.
abbrev pub kept : Number → Number → Number × Number
kept lon lat = (number (read (write lon)), number (read (write lat)))

lookup-first : (f v : String) (h : List (String × String)) → lookup f ((f, v) ∷ h) ≡ some v
lookup-first f v h = rw (eq_refl f)

lookup-second :
    (f g v w : String) (h : List (String × String))
    → f ≢ g
    → lookup g ((f, v) ∷ (g, w) ∷ h) ≡ some w
lookup-second f g v w h ne = elim (Bool-cases (f == g)) [
  | inl same ↦ absurd (ne ((eq_iff f g).0 same))
  | inr apart ↦ rw (apart, eq_refl g) refl
]

found_at :
    (h : List (String × String)) (m x y : String)
    → lookup (concat "x:" m) h ≡ some x
    → lookup (concat "y:" m) h ≡ some y
    → position h m ≡ some (number (read x), number (read y))
found_at h m x y ex ey =
    ap (λ o. point o (lookup (concat "y:" m) h)) ex ∙ ap (λ o. point (some x) o) ey

pub position-added :
    (d : Store) (k m : String) (lon lat : Number)
    → position (as_hash (put d k (some (added d k m lon lat)) k)) m ≡ some (kept lon lat)
position-added d k m lon lat = rw (put_self d k (some (added d k m lon lat))) (
    found_at ((concat "x:" m, write lon) ∷ (concat "y:" m, write lat) ∷ as_hash (d k)) m (write lon)
      (write lat)
      (lookup-first (concat "x:" m) (write lon) ((concat "y:" m, write lat) ∷ as_hash (d k)))
      (lookup-second (concat "x:" m) (concat "y:" m) (write lon) (write lat) (as_hash (d k))
        (concat-ne "x:" "y:" refl m m)))

less-through :
    (x y z : Number) → less true x y ≡ true → less false y z ≡ true → less true x z ≡ true
less-through nan y z h k = h
less-through (whole (pos l)) (whole (pos m)) (whole (pos n)) h k = ground arith
less-through (whole (pos l)) (whole (pos m)) (whole (negsuc n)) h k = k
less-through (whole (pos l)) (whole (negsuc m)) z h k = cc
less-through (whole (pos l)) nan z h k = cc
less-through (whole (pos l)) (whole (pos m)) nan h k = cc
less-through (whole (negsuc l)) nan z h k = cc
less-through (whole (negsuc l)) (whole (pos m)) (whole (pos n)) h k = refl
less-through (whole (negsuc l)) (whole (pos m)) (whole (negsuc n)) h k = cc
less-through (whole (negsuc l)) (whole (pos m)) nan h k = cc
less-through (whole (negsuc l)) (whole (negsuc m)) (whole (pos n)) h k = refl
less-through (whole (negsuc l)) (whole (negsuc m)) (whole (negsuc n)) h k = ground arith
less-through (whole (negsuc l)) (whole (negsuc m)) nan h k = cc

-- A number is at most another or the other is smaller, never both.
not-less : (x y : Number) → less false x y ≡ true → less true y x ≡ false
not-less nan y h = cc
not-less (whole (pos m)) nan h = cc
not-less (whole (negsuc m)) nan h = cc
not-less (whole (pos m)) (whole (pos n)) h = ground arith
not-less (whole (pos m)) (whole (negsuc n)) h = cc
not-less (whole (negsuc m)) (whole (pos n)) h = refl
not-less (whole (negsuc m)) (whole (negsuc n)) h = ground arith

not-strictly : (x y : Number) → less false x y ≡ false → less true x y ≡ false
not-strictly nan y h = refl
not-strictly (whole (pos m)) nan h = refl
not-strictly (whole (negsuc m)) nan h = refl
not-strictly (whole (pos m)) (whole (pos n)) h = ground arith
not-strictly (whole (pos m)) (whole (negsuc n)) h = refl
not-strictly (whole (negsuc m)) (whole (pos n)) h = cc
not-strictly (whole (negsuc m)) (whole (negsuc n)) h = ground arith

abbrev distances : List (GeoLocation Number) → List Number
distances = map (λ g. g.dist)

closer-through :
    (x y : Number) (zs : List Number) → less false x y ≡ true → NoneCloser y zs → NoneCloser x zs
closer-through x y [] h c = tt
closer-through x y (z ∷ zs) h (c, cs) = (
  elim (Bool-cases (less true z x)) [
    | inl closer ↦ absurd (cc (less-through z x y closer h, c))
    | inr farther ↦ farther
  ],
  closer-through x y zs h cs,
)

closer-insert :
    (x : Number) (l : GeoLocation Number) (ks : List (GeoLocation Number))
    → less true l.dist x ≡ false
    → NoneCloser x (distances ks)
    → NoneCloser x (distances (insert_near l ks))
closer-insert x l [] h c = (h, tt)
closer-insert x l (k ∷ ks) h (c, cs) =
    if-holds (λ ls. NoneCloser x (distances ls)) (less false l.dist k.dist) (l ∷ k ∷ ks)
      (k ∷ insert_near l ks) (λ _. (h, (c, cs))) (λ _. (c, closer-insert x l ks h cs))

insert-Ascending :
    (l : GeoLocation Number) (ks : List (GeoLocation Number))
    → Ascending (distances ks)
    → Ascending (distances (insert_near l ks))
insert-Ascending l [] a = (tt, tt)
insert-Ascending l (k ∷ ks) (c, cs) =
    if-holds (λ ls. Ascending (distances ls)) (less false l.dist k.dist) (l ∷ k ∷ ks)
      (k ∷ insert_near l ks)
      (λ h. ((not-less l.dist k.dist h, closer-through l.dist k.dist (distances ks) h c), (c, cs)))
      (λ h. (closer-insert k.dist l ks (not-strictly l.dist k.dist h) c, insert-Ascending l ks cs))

pub members-Ascending :
    (lon radius : Number) (fields : List (String × String))
    → Ascending (distances (members lon radius fields))
members-Ascending lon radius [] = tt
members-Ascending lon radius ((f, v) ∷ fields) =
    let rest = members-Ascending lon radius fields in
    if-holds (λ ls. Ascending (distances ls)) (is_left_out lon radius f v)
      (members lon radius fields) (insert_near (member lon f v) (members lon radius fields))
      (λ _. rest) (λ _. insert-Ascending (member lon f v) (members lon radius fields) rest)

abbrev invalid_position : String
invalid_position = "ERR invalid longitude,latitude pair"

abbrev geoadd_memory : Store → String → String → Number → Number → (String ⊎ Unit {0}) × Store
geoadd_memory d k m lon lat =
    if is_indexable lon lat
    then (inr tt, put d k (some (added d k m lon lat)))
    else (inl invalid_position, d)

pub geoadd-position :
    (d : Store) (k m : String) (lon lat : Number)
    → is_indexable lon lat ≡ true
    → position (as_hash ((geoadd_memory d k m lon lat).1 k)) m ≡ some (kept lon lat)
geoadd-position d k m lon lat h =
    if-holds
      (λ (r : (String ⊎ Unit {0}) × Store). position (as_hash (r.1 k)) m ≡ some (kept lon lat))
      (is_indexable lon lat) _ _ (λ _. position-added d k m lon lat) (λ bad. absurd (cc (h, bad)))

-- A key that an addition does not name.
pub added-ne :
    {A : Type 0} (f : Option Value → A) (d : Store) (k m : String) (lon lat : Number) (j : String)
    → k ≢ j
    → f ((geoadd_memory d k m lon lat).1 j) ≡ f (d j)
added-ne f d k m lon lat j ne =
    if-holds (λ (r : (String ⊎ Unit {0}) × Store). f (r.1 j) ≡ f (d j)) (is_indexable lon lat) _ _
      (λ _. ap f (put-ne d k (some (added d k m lon lat)) j ne)) (λ _. refl)

pub found_members :
    (b : Bool) (ls found : List (GeoLocation Number))
    → ◌≡◌ {A = String ⊎ List (GeoLocation Number)}
        (if b then inr ls else inl invalid_position)
        (inr found)
    → Ascending (distances ls)
    → Ascending (distances found)
found_members true ls found e a = let same : found ≡ ls = cc in rw same a
found_members false ls found e a = absurd (cc e)

instance abbrev pub geo_memory : GeoIndex memory degrees
geo_memory = record {
  geoadd = geoadd_memory;
  cell = kept;
  geopos = λ d k m. position (as_hash (d k)) m;
  zrem = λ d k m. (
    is_some (position (as_hash (d k)) m),
    put d k (some (hash (remove (concat "x:" m) (as_hash (d k))))),
  );
  georadius = λ d k lon lat q.
      if is_indexable lon lat
      then inr (members lon q.radius (as_hash (d k)))
      else inl invalid_position;
  geodist = λ d k m n. elim (position (as_hash (d k)) m) [
    | none ↦ none
    | some p ↦ elim (position (as_hash (d k)) n) [ none ↦ none | some q ↦ some (minus p.0 q.0) ]
  ];
  geoadd-valid = λ d k m lon lat h. rw h refl;
  geoadd-invalid = λ d k m lon lat h. (invalid_position, rw h refl);
  geopos-geoadd = geoadd-position;
  georadius-ascends = λ d k lon lat q found asc e.
      found_members (is_indexable lon lat) (members lon q.radius (as_hash (d k))) found e
        (members-Ascending lon q.radius (as_hash (d k)));
  get-geoadd_ne = λ d k m lon lat j ne. added-ne as_text d k m lon lat j ne;
  hget-geoadd_ne = λ d k m lon lat j f ne. added-ne (λ o. lookup f (as_hash o)) d k m lon lat j ne;
  exists-geoadd_ne = λ d k m lon lat j ne. added-ne is_some d k m lon lat j ne;
}
