-- ===== src/Driver.antt =====
-- internal/driver/driver.go: the status of a driver, a key with a time to live whose absence means
-- that the driver is offline.
pub mod Frames
pub mod Laws
pub mod Statuses
pub mod Scans
use geo_spatial_dispatch_ser.Prelude.{
  ℕ, zero, suc, ◌+◌, ◌*◌, String, Bool, true, false, not, ◌&&◌, ◌||◌, Option, none, some, List, [],
  ◌∷◌, ◌++◌, map, ◌==◌, nat_eq, concat, is_blank, trim_prefix, ℤ, pos, negsuc, second,
  whole_seconds, if◌then◌else◌,
}
use geo_spatial_dispatch_ser.Result.{
  Result, ok, err, driver_not_found, invalid_status, status_conflict, driver_offline,
}
use geo_spatial_dispatch_ser.Redis.{Redis, lookup}
use geo_spatial_dispatch_ser.Client.{Io, pure, raise, call, ◌>>=◌, ◌>>◌, reading, writing}

-- Go's `type DriverStatus string`
abbrev pub DriverStatus : Type 0
DriverStatus = String

abbrev pub status_available : DriverStatus
status_available = "available"

abbrev pub status_busy : DriverStatus
status_busy = "busy"

abbrev pub status_offline : DriverStatus
status_offline = "offline"

pub record DriverService : Type 0 where
  pub key_prefix : String
  pub default_ttl : ℕ

unfoldable pub new_driver_service : String → ℕ → DriverService
new_driver_service key_prefix ttl = record {
  key_prefix = if key_prefix == "" then "driver" else key_prefix;
  default_ttl = if nat_eq ttl 0 then 30 * second else ttl;
}

abbrev pub status_key : DriverService → String → String
status_key ds driver_id = concat (concat ds.key_prefix ":status:") driver_id

-- `statuses[id]`: Go's zero value is the empty text.
abbrev pub status_of : List (String × DriverStatus) → String → DriverStatus
status_of statuses driver_id = elim (lookup driver_id statuses) [ none ↦ "" | some s ↦ s ]

-- No key means offline.
abbrev pub or_offline : Option String → DriverStatus
or_offline none = status_offline
or_offline (some status) = status

module _ ⦃R : Redis⦄ where
  open R use {Db, get, exists, set_ex, del, expire, scan}

  -- The script after its GET.
  abbrev pub busy_from : String → ℕ → Option String → Db → ℤ × Db
  busy_from key ttl none d = (negsuc 0, d)
  busy_from key ttl (some current) d =
      if current == status_available then (pos 1, set_ex d key status_busy ttl) else (pos 0, d)

  unfoldable pub set_busy_script : String → ℕ → Db → ℤ × Db
  set_busy_script key ttl d = busy_from key ttl (get d key) d

  unfoldable pub set_status : DriverService → String → DriverStatus → Io Db Unit
  set_status ds driver_id status =
      if is_blank driver_id
      then raise driver_not_found
      else if not (status == status_available || status == status_busy || status == status_offline)
      then raise invalid_status
      else if status == status_offline
      then call (writing (λ d. del d (status_key ds driver_id)))
      else call (writing (λ d. set_ex d (status_key ds driver_id) status ds.default_ttl))

  unfoldable pub get_status : DriverService → String → Io Db DriverStatus
  get_status ds driver_id = if is_blank driver_id then raise driver_not_found else (do
    status ← call (reading (λ d. get d (status_key ds driver_id)))
    pure (or_offline status))

  unfoldable pub heartbeat : DriverService → String → Io Db Unit
  heartbeat ds driver_id = if is_blank driver_id then raise driver_not_found else (do
    refreshed ←
        call (λ d. let key = status_key ds driver_id in (exists d key, expire d key ds.default_ttl))
    if refreshed then pure tt else raise driver_offline)

  unfoldable pub is_available : DriverService → String → Io Db Bool
  is_available ds driver_id = do status ← get_status ds driver_id; pure (status == status_available)

  abbrev pub made_busy : ℤ → Io Db Unit
  made_busy (pos (suc zero)) = pure tt
  made_busy (pos zero) = raise status_conflict
  made_busy (negsuc zero) = raise driver_offline
  made_busy _ = raise status_conflict

  unfoldable pub set_busy : DriverService → String → Io Db Unit
  set_busy ds driver_id = do
    result ← call (set_busy_script (status_key ds driver_id) (whole_seconds ds.default_ttl))
    made_busy result

  unfoldable pub set_available : DriverService → String → Io Db Unit
  set_available ds driver_id = set_status ds driver_id status_available

  -- MGET: a missing key gives nil.
  abbrev pub mget : Db → List String → List (Option String)
  mget d keys = map (get d) keys

  -- The loop over the values of MGET: the last entry for an id is the one that counts, so it is
  -- put in front.
  abbrev pub note_statuses :
      List String
      → List (Option String)
      → List (String × DriverStatus)
      → List (String × DriverStatus)
  note_statuses (id ∷ ids) (some value ∷ values) statuses =
      note_statuses ids values ((id, value) ∷ statuses)
  note_statuses (id ∷ ids) (none ∷ values) statuses = note_statuses ids values statuses
  note_statuses _ _ statuses = statuses

  unfoldable pub get_statuses : DriverService → List String → Io Db (List (String × DriverStatus))
  get_statuses ds [] = pure []
  get_statuses ds (id ∷ ids) = do
    let driver_ids = id ∷ ids
    values ← call (reading (λ d. mget d (map (status_key ds) driver_ids)))
    pure (note_statuses driver_ids values (map (λ i. (i, status_offline)) driver_ids))

  -- The visits for one page of SCAN, in order; `S` is what the visitor has gathered.
  abbrev pub visit_page :
      {S : Type 0}
      → (S → String → DriverStatus → S)
      → String
      → List String
      → List (Option String)
      → S
      → S
  visit_page visit prefix (key ∷ keys) (some value ∷ values) s =
      visit_page visit prefix keys values (visit s (trim_prefix key prefix) value)
  visit_page visit prefix (key ∷ keys) (none ∷ values) s = visit_page visit prefix keys values s
  visit_page visit prefix _ _ s = s

  abbrev pub page_values : List String → Io Db (List (Option String))
  page_values [] = pure []
  page_values (key ∷ keys) = call (reading (λ d. mget d (key ∷ keys)))

  -- `none`: the fuel ran out before the cursor came back to 0.
  unfoldable pub scan_statuses :
      {S : Type 0} → DriverService → (S → String → DriverStatus → S) → ℕ → ℕ → S → Io Db (Option S)
  scan_statuses ds visit zero cursor s = pure none
  scan_statuses ds visit (suc fuel) cursor s = do
    (keys, next_cursor) ← call (reading (λ d. scan d cursor (concat ds.key_prefix ":status:*") 100))
    values ← page_values keys
    let s' = visit_page visit (concat ds.key_prefix ":status:") keys values s
    let rest = scan_statuses ds visit fuel next_cursor s'
    if nat_eq next_cursor 0 then pure (some s') else rest

  unfoldable pub get_available_drivers : DriverService → ℕ → Io Db (Option (List String))
  get_available_drivers ds fuel =
      scan_statuses ds (λ ids id status. if status == status_available then ids ++ id ∷ [] else ids)
        fuel 0 []

  unfoldable pub get_driver_stats : DriverService → ℕ → Io Db (Option (ℕ × ℕ))
  get_driver_stats ds fuel =
      scan_statuses ds
        (λ counts id status.
          (counts.0 + 1, if status == status_available then counts.1 + 1 else counts.1))
        fuel 0 (0, 0)
