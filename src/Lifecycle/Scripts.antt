-- ===== src/Lifecycle/Scripts.antt =====
-- internal/dispatch/lifecycle.go: the Lua scripts, each run by the server as one atomic step. The
-- parameters are KEYS and ARGV in their order; the replies are those that the scripts return.
use geo_spatial_dispatch_ser.Prelude.{
  ℕ, String, Bool, false, not, ◌||◌, Option, none, some, List, [], ◌∷◌, ◌==◌, join_key, ℤ, pos,
  negsuc, flag, if◌then◌else◌,
}
use geo_spatial_dispatch_ser.Redis.{Redis}

-- `x == text` where nil is equal to no text
abbrev pub is_text : Option String → String → Bool
is_text none t = false
is_text (some s) t = s == t

-- `x and x ~= text`
abbrev pub is_other : Option String → String → Bool
is_other none t = false
is_other (some s) t = not (s == t)

abbrev pub is_active : Option String → Bool
is_active s = is_text s "en_route" || is_text s "arrived"

module _ ⦃R : Redis⦄ where
  open R use {Db, get, hget, exists, set_ex, del, expire, hset}

  -- The status of the assignment that the active key names, if there is one.
  abbrev pub active_status : String → Option String → Db → Option String
  active_status prefix none d = none
  active_status prefix (some request) d = hget d (join_key prefix request) "status"

  abbrev pub assignment_fields : String → String → String → String → String → List (String × String)
  assignment_fields request rider driver lon lat =
      ("request_id", request)
      ∷ ("rider_id", rider)
      ∷ ("driver_id", driver)
      ∷ ("pickup_longitude", lon)
      ∷ ("pickup_latitude", lat)
      ∷ ("status", "en_route")
      ∷ []

  unfoldable pub create_writes : (k1 k2 k3 request rider driver lon lat : String) → ℕ → Db → Db
  create_writes k1 k2 k3 request rider driver lon lat ttl d =
      let d1 = hset d k1 (assignment_fields request rider driver lon lat) in
      let d2 = expire d1 k1 ttl in let d3 = set_ex d2 k2 request ttl in set_ex d3 k3 request ttl

  unfoldable pub create_assignment_script :
      (k1 k2 k3 prefix request rider driver lon lat : String) → ℕ → Db → ℤ × Db
  create_assignment_script k1 k2 k3 prefix request rider driver lon lat ttl d =
      if is_active (active_status prefix (get d k2) d)
      then (pos 0, d)
      else if exists d k1
      then (negsuc 0, d)
      else if is_other (get d k3) request
      then (negsuc 1, d)
      else (pos 1, create_writes k1 k2 k3 request rider driver lon lat ttl d)

  unfoldable pub cancel_writes : (k1 k2 k3 k4 k5 request : String) → ℕ → ℕ → Db → Db
  cancel_writes k1 k2 k3 k4 k5 request status_ttl assignment_ttl d =
      let lock_owner = get d k3 in
      let d1 = if is_text (get d k2) "busy" then set_ex d k2 "available" status_ttl else d in
      let d2 = hset d1 k1 (("status", "cancelled") ∷ []) in
      let d3 = expire d2 k1 assignment_ttl in
      let d4 = if is_text lock_owner request then del d3 k3 else d3 in
      let d5 = if is_text (get d4 k4) request then del d4 k4 else d4 in del d5 k5

  unfoldable pub cancel_assignment_script :
      (k1 k2 k3 k4 k5 request driver rider : String) → ℕ → ℕ → Db → ℤ × Db
  cancel_assignment_script k1 k2 k3 k4 k5 request driver rider status_ttl assignment_ttl d =
      if not (exists d k1)
      then (negsuc 0, d)
      else if not (is_text (hget d k1 "status") "en_route")
      then (pos 0, d)
      else if not (is_text (hget d k1 "driver_id") driver)
          || not (is_text (hget d k1 "rider_id") rider)
      then (negsuc 1, d)
      else if not (is_text (get d k5) request)
      then (negsuc 2, d)
      else if is_other (get d k3) request
      then (negsuc 3, d)
      else (pos 1, cancel_writes k1 k2 k3 k4 k5 request status_ttl assignment_ttl d)

  unfoldable pub arrive_writes : (k1 k2 k3 k4 : String) → ℕ → ℕ → Db → Db
  arrive_writes k1 k2 k3 k4 assignment_ttl status_ttl d =
      let d1 = hset d k1 (("status", "arrived") ∷ []) in
      let d2 = expire d1 k1 assignment_ttl in
      let d3 = expire d2 k2 assignment_ttl in
      let d4 = expire d3 k3 assignment_ttl in expire d4 k4 status_ttl

  unfoldable pub arrive_assignment_script : (k1 k2 k3 k4 request : String) → ℕ → ℕ → Db → ℤ × Db
  arrive_assignment_script k1 k2 k3 k4 request assignment_ttl status_ttl d =
      if not (exists d k1)
      then (negsuc 0, d)
      else if not (is_text (hget d k1 "status") "en_route")
      then (pos 0, d)
      else if not (is_text (get d k2) request)
          || not (is_text (get d k3) request)
          || not (is_text (get d k4) "busy")
      then (negsuc 1, d)
      else (pos 1, arrive_writes k1 k2 k3 k4 assignment_ttl status_ttl d)

  -- The script after its first GET.
  abbrev pub refresh_owned : (k2 prefix driver : String) → ℕ → Option String → Db → ℤ × Db
  refresh_owned k2 prefix driver ttl none d = (pos 0, d)
  refresh_owned k2 prefix driver ttl (some request) d =
      if not (is_text (hget d (join_key prefix request) "driver_id") driver)
      then (pos 0, d)
      else if not (is_active (hget d (join_key prefix request) "status"))
      then (pos 0, d)
      else (pos 1, set_ex d k2 "busy" ttl)

  unfoldable pub refresh_active_driver_script : (k1 k2 prefix driver : String) → ℕ → Db → ℤ × Db
  refresh_active_driver_script k1 k2 prefix driver ttl d =
      refresh_owned k2 prefix driver ttl (get d k1) d

  -- DEL of a key that holds a given text, as `clearActive` and `clearReset` do.
  abbrev pub del_if : String → String → Db → Db
  del_if k request d = if is_text (get d k) request then del d k else d

  unfoldable pub clear_active_assignment_script : (k1 request : String) → Db → ℤ × Db
  clear_active_assignment_script k1 request d =
      if is_text (get d k1) request then (flag (exists d k1), del d k1) else (pos 0, d)

  unfoldable pub clear_reset_assignment_script : (k1 k2 request : String) → Db → ℤ × Db
  clear_reset_assignment_script k1 k2 request d = (pos 1, del_if k2 request (del_if k1 request d))
