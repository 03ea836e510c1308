-- ===== src/Tests/Services.antt =====
-- The theorems on locks, statuses and the wiring, at concrete databases.
use mathlib.Core.List.{Memᴰ}
use geo_spatial_dispatch_ser.Prelude.{
  String, List, nat_eq, if◌then◌else◌, ◌≡◌, refl, some, [], ◌∷◌, true, false, arith, inr, eq_iff,
  trim_space, is_space, is_blank,
}
use geo_spatial_dispatch_ser.Result.{ok, err, lock_not_held, status_conflict}
use geo_spatial_dispatch_ser.Redis.{Redis}
use geo_spatial_dispatch_ser.Redis.Memory.{memory}
use geo_spatial_dispatch_ser.Float.Degrees.{degrees}
use geo_spatial_dispatch_ser.Client.{quiet}
use geo_spatial_dispatch_ser.Lock
use geo_spatial_dispatch_ser.Lock.{lock_key, LockManager}
use geo_spatial_dispatch_ser.Lock.Laws.{holder_excludes, lock_unlock}
use geo_spatial_dispatch_ser.Driver.{
  DriverService, status_key, status_of, set_busy, set_status, get_status, heartbeat, get_statuses,
  get_driver_stats,
}
use geo_spatial_dispatch_ser.Driver.Laws.{
  set_busy_once, get_status-set_status, heartbeat_revives_none,
}
use geo_spatial_dispatch_ser.Driver.Statuses.{get_statuses-get_status}
use geo_spatial_dispatch_ser.Driver.Scans.{Pages, last, more, get_driver_stats-counts}
use geo_spatial_dispatch_ser.Tests.Setup.{riding, fleet, half_busy}

abbrev locks : LockManager
locks = record { key_prefix = "dispatch:lock"; lock_ttl = 10000000000 }

abbrev drivers : DriverService
drivers = record { key_prefix = "driver"; default_ttl = 30000000000 }

holder_excludes_example :
    let d = riding "en_route" in
    (Lock.try_lock locks "d1" "r2" (quiet d) ≡ (ok false, quiet d))
    × (Lock.unlock locks "d1" "r2" (quiet d) ≡ (err lock_not_held, quiet d))
    × (Lock.extend_lock locks "d1" "r2" (quiet d) ≡ (err lock_not_held, quiet d))
holder_excludes_example =
    holder_excludes locks "d1" "r1" (riding "en_route") "r2" refl (λ e. cc ((eq_iff "r1" "r2").1 e))

lock_unlock_example :
    let (locked, w) = Lock.try_lock locks "d1" "r1" (quiet fleet) in
    (locked ≡ ok true)
    × (memory.get w.db (lock_key locks "d1") ≡ some "r1")
    × ((Lock.is_locked locks "d1" w).0 ≡ ok true)
    × (let (released, v) = Lock.unlock locks "d1" "r1" w in
        (released ≡ ok tt) × ((Lock.is_locked locks "d1" v).0 ≡ ok false))
lock_unlock_example = lock_unlock locks "d1" "r1" fleet (omega arith) refl

set_busy_once_example :
    let (first, w) = set_busy drivers "d1" (quiet fleet) in
    (first ≡ ok tt)
    × (memory.get w.db (status_key drivers "d1") ≡ some "busy")
    × (set_busy drivers "d1" w ≡ (err status_conflict, w))
set_busy_once_example = set_busy_once drivers "d1" fleet (omega arith) refl

named : is_blank "d1" ≡ false
unfolding trim_space is_space
named = refl

get_status-set_status_example :
    let (done, w) = set_status drivers "d1" "offline" (quiet fleet) in
    (done ≡ ok tt) × (get_status drivers "d1" w ≡ (ok "offline", w))
get_status-set_status_example =
    get_status-set_status drivers "d1" "offline" fleet (omega arith) named (inr (inr refl))

named_other : is_blank "d3" ≡ false
unfolding trim_space is_space
named_other = refl

heartbeat_revives_none_example :
    (get_status drivers "d3" (heartbeat drivers "d3" (quiet fleet)).1).0
    ≡ (get_status drivers "d3" (quiet fleet)).0
heartbeat_revives_none_example =
    heartbeat_revives_none drivers "d3" "d3" fleet (omega arith) named_other

get_statuses-get_status_example :
    let (statuses, w) = get_statuses drivers ("d3" ∷ "d1" ∷ []) (quiet fleet) in
    (w ≡ quiet fleet)
    × (elim statuses [ ok l ↦ ok (status_of l "d1") | err e ↦ err e ]
        ≡ (get_status drivers "d1" (quiet fleet)).0)
get_statuses-get_status_example =
    get_statuses-get_status drivers fleet "d1" ("d3" ∷ "d1" ∷ []) (Memᴰ.tail (Memᴰ.head refl)) named

-- A server that answers SCAN with two pages.
abbrev two_pages : Redis
two_pages = record memory {
  scan = λ d cursor pattern n.
      if nat_eq cursor 0
      then ("driver:status:d1" ∷ "driver:status:d3" ∷ [], 7)
      else ("driver:status:d2" ∷ [], 0);
}

abbrev keys_of_two_pages : List (List String)
keys_of_two_pages = ("driver:status:d1" ∷ "driver:status:d3" ∷ []) ∷ ("driver:status:d2" ∷ []) ∷ []

both-Pages : Pages ⦃R = two_pages⦄ drivers half_busy 0 keys_of_two_pages
both-Pages = more 0 _ 7 _ refl refl (last 7 _ refl)

get_driver_stats-counts_example :
    get_driver_stats ⦃R = two_pages⦄ drivers 5 (quiet half_busy)
    ≡ (ok (some (2, 1)), quiet half_busy)
get_driver_stats-counts_example =
    get_driver_stats-counts ⦃R = two_pages⦄ drivers half_busy 5 keys_of_two_pages both-Pages
      (omega arith)
