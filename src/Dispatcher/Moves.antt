-- ===== src/Dispatcher/Moves.antt =====
-- internal/dispatch/lifecycle.go: what each script does to the status of an assignment.
use mathlib.Core.Path.{subst}
use geo_spatial_dispatch_ser.Prelude.{
  String, ◌≡◌, ◌≢◌, refl, Option, none, some, whole_seconds, inl, inr, Text-cases,
}
use geo_spatial_dispatch_ser.Redis.{Redis}
use geo_spatial_dispatch_ser.Redis.Frame.{SameAt, set_ex-SameAt, del-SameAt}
use geo_spatial_dispatch_ser.Float.{Float}
use geo_spatial_dispatch_ser.Lock.{lock_key}
use geo_spatial_dispatch_ser.Lifecycle.Types.{
  LifecycleManager, Assignment, assignment_key, active_driver_key, active_rider_key,
  driver_status_key,
}
use geo_spatial_dispatch_ser.Lifecycle.Keys
use geo_spatial_dispatch_ser.Lifecycle.Guards.{
  create-cases, cancel-cases, arrive-cases, refresh-cases,
}
use geo_spatial_dispatch_ser.Lifecycle.Creating.{hget-created, ride-created_ne}
use geo_spatial_dispatch_ser.Lifecycle.Cancelling.{hget-cancelled}
use geo_spatial_dispatch_ser.Lifecycle.Untouched.{ride-cancelled_ne}
use geo_spatial_dispatch_ser.Lifecycle.Arriving.{hget-arrived, arrived-SameAt}
use geo_spatial_dispatch_ser.Lifecycle.Manager.{
  create_command, cancel_command, arrive_command, refresh_command,
}

-- One step in the life of an assignment: its status before and after, nil where there is none. It
-- vanishes only where `Expires` holds.
pub data Move (Expires : Type 0) (a b : Option String) : Type 0 where
  stays : b ≡ a → Move Expires a b
  starts : a ≡ none → b ≡ some "en_route" → Move Expires a b
  arrives : a ≡ some "en_route" → b ≡ some "arrived" → Move Expires a b
  is_cancelled : a ≡ some "en_route" → b ≡ some "cancelled" → Move Expires a b
  vanishes : Expires → b ≡ none → Move Expires a b

module _ ⦃R : Redis⦄ ⦃F : Float⦄ (m : LifecycleManager) (c : Keys.IsConfigured m) (r : String)
    (d : R.Db) (E : Type 0) where
  open R use {Db, hget}
  open F use {format}

  abbrev Moves : Db → Type 0
  Moves e = Move E (hget d (assignment_key m r) "status") (hget e (assignment_key m r) "status")

  pub same-Moves : {e : Db} → SameAt (assignment_key m r) d e → Moves e
  same-Moves same = stays (same.hgets "status")

  -- A script on the assignment of `request`, which may be this one.
  own_or_other :
      (request : String) (e : Db)
      → Move E
          (hget d (assignment_key m request) "status")
          (hget e (assignment_key m request) "status")
      → (request ≢ r → SameAt (assignment_key m r) d e)
      → Moves e
  own_or_other request e own other = elim (Text-cases request r) [
    | inl same ↦
        subst
          (λ q.
            Move E (hget d (assignment_key m q) "status") (hget e (assignment_key m q) "status"))
          same own
    | inr ne ↦ same-Moves (other ne)
  ]

  pub create-Moves : (a : Assignment) → Moves (create_command m a d).1
  create-Moves a =
      elim (create-cases (assignment_key m a.request_id) (active_rider_key m a.rider_id)
        (active_driver_key m a.driver_id) m.assignment_prefix a.request_id a.rider_id a.driver_id
        (format a.pickup_longitude) (format a.pickup_latitude) (whole_seconds m.assignment_ttl) d) [
          | inl (g, _, e) ↦ rw e (
              own_or_other a.request_id _
                (starts (R.hget-exists d (assignment_key m a.request_id) "status" g.1) (
                  hget-created m c a.request_id a.rider_id a.driver_id (format a.pickup_longitude)
                    (format a.pickup_latitude) (whole_seconds m.assignment_ttl) c.assignment_live d
                    "status" g.1))
                (ride-created_ne m c a.request_id a.rider_id a.driver_id (format a.pickup_longitude)
                  (format a.pickup_latitude) (whole_seconds m.assignment_ttl) c.assignment_live d
                  r))
          | inr (_, e) ↦ rw e (stays refl)
        ]

  pub cancel-Moves : (request : String) (a : Assignment) → Moves (cancel_command m request a d).1
  cancel-Moves request a =
      elim (cancel-cases (assignment_key m request) (driver_status_key m a.driver_id)
        (lock_key m.lock_manager a.driver_id) (active_rider_key m a.rider_id)
        (active_driver_key m a.driver_id) request a.driver_id a.rider_id
        (whole_seconds m.driver_status_ttl) (whole_seconds m.assignment_ttl) d) [
          | inl (g, _, e) ↦ rw e (
              own_or_other request _
                (is_cancelled g.1 (
                  hget-cancelled m c request a.driver_id a.rider_id
                    (whole_seconds m.driver_status_ttl) (whole_seconds m.assignment_ttl)
                    c.assignment_live d "status" g.1))
                (ride-cancelled_ne m c request a.driver_id a.rider_id
                  (whole_seconds m.driver_status_ttl) (whole_seconds m.assignment_ttl)
                  c.assignment_live d r))
          | inr (_, e) ↦ rw e (stays refl)
        ]

  pub arrive-Moves : (a : Assignment) → Moves (arrive_command m a d).1
  arrive-Moves a =
      elim (arrive-cases (assignment_key m a.request_id) (active_rider_key m a.rider_id)
        (active_driver_key m a.driver_id) (driver_status_key m a.driver_id) a.request_id
        (whole_seconds m.assignment_ttl) (whole_seconds m.driver_status_ttl) d) [
          | inl (g, _, e) ↦ rw e (
              own_or_other a.request_id _
                (arrives g.1 (
                  hget-arrived m a.request_id a.driver_id a.rider_id
                    (whole_seconds m.assignment_ttl) (whole_seconds m.driver_status_ttl)
                    c.assignment_live c.status_live d "status" g.1))
                (λ ne.
                  arrived-SameAt m a.request_id a.driver_id a.rider_id
                    (whole_seconds m.assignment_ttl) (whole_seconds m.driver_status_ttl)
                    c.assignment_live c.status_live d (assignment_key m r)
                    (Keys.assignment_ne_self m a.request_id r ne)))
          | inr (_, e) ↦ rw e (stays refl)
        ]

  pub refresh-Moves : (driver : String) → Moves (refresh_command m driver d).1
  refresh-Moves driver =
      elim (refresh-cases (active_driver_key m driver) (driver_status_key m driver)
        m.assignment_prefix driver (whole_seconds m.driver_status_ttl) d) [
          | inl (_, _, e) ↦ rw e (
              same-Moves (
                set_ex-SameAt d (driver_status_key m driver) (assignment_key m r)
                  (Keys.status_ne_assignment m c driver r) "busy"
                  (whole_seconds m.driver_status_ttl)))
          | inr (_, e) ↦ rw e (stays refl)
        ]

  pub expires-Moves :
      (request : String) → (request ≡ r → E) → Moves (R.del d (assignment_key m request))
  expires-Moves request expires = elim (Text-cases request r) [
    | inl same ↦ vanishes (expires same) (
        subst (λ q. hget (R.del d (assignment_key m request)) (assignment_key m q) "status" ≡ none)
          same
          (R.hget-exists _ (assignment_key m request) "status"
            (R.exists-del d (assignment_key m request))))
    | inr ne ↦ same-Moves (
        del-SameAt d (assignment_key m request) (assignment_key m r)
          (Keys.assignment_ne_self m request r ne))
  ]
