-- ===== src/Lifecycle/Commands.antt =====
-- internal/dispatch/lifecycle.go: each method's script, with the keys that the method gives it, keeps
-- the rides exclusive.
use geo_spatial_dispatch_ser.Prelude.{String, ◌≡◌, sym, ◌∙◌, ap, ◌≢◌, inl, inr, some, whole_seconds}
use geo_spatial_dispatch_ser.Redis.{Redis}
use geo_spatial_dispatch_ser.Redis.Frame.{SameAt, set_ex-SameAt}
use geo_spatial_dispatch_ser.Float.{Float}
use geo_spatial_dispatch_ser.Lock.{lock_key}
use geo_spatial_dispatch_ser.Lifecycle.Types.{
  LifecycleManager, Assignment, assignment_key, active_rider_key, driver_status_key,
  active_driver_key,
}
use geo_spatial_dispatch_ser.Lifecycle.Keys.{
  IsConfigured, assignment_ne_driver, assignment_ne_rider, assignment_ne_self,
}
use geo_spatial_dispatch_ser.Lifecycle.Exclusive.{Exclusive, Exclusive-SameRides, SameRides-status}
use geo_spatial_dispatch_ser.Lifecycle.Guards.{
  create-cases, cancel-cases, arrive-cases, refresh-cases,
}
use geo_spatial_dispatch_ser.Lifecycle.Arriving.{after_arrive, hget-arrived, arrived-SameAt}
use geo_spatial_dispatch_ser.Lifecycle.Safety.{
  after_create-Exclusive, after_cancel-Exclusive, arrived-ne_en_route,
}
use geo_spatial_dispatch_ser.Lifecycle.Manager.{
  create_command, cancel_command, arrive_command, refresh_command,
}

module _ ⦃R : Redis⦄ ⦃F : Float⦄ (m : LifecycleManager) (c : IsConfigured m) where
  open R use {Db, get, hget, exists}
  open F use {format}

  pub create_command-Exclusive :
      (a : Assignment) (d : Db) → Exclusive m d → Exclusive m (create_command m a d).1
  create_command-Exclusive a d h =
      elim (create-cases (assignment_key m a.request_id) (active_rider_key m a.rider_id)
        (active_driver_key m a.driver_id) m.assignment_prefix a.request_id a.rider_id a.driver_id
        (format a.pickup_longitude) (format a.pickup_latitude) (whole_seconds m.assignment_ttl) d) [
          | inl (g, _, e) ↦ rw e (
              after_create-Exclusive m c d h a.request_id a.rider_id a.driver_id
                (format a.pickup_longitude) (format a.pickup_latitude)
                (whole_seconds m.assignment_ttl) c.assignment_live g)
          | inr (_, e) ↦ rw e h
        ]

  pub cancel_command-Exclusive :
      (request : String) (a : Assignment) (d : Db)
      → Exclusive m d
      → Exclusive m (cancel_command m request a d).1
  cancel_command-Exclusive request a d h =
      elim (cancel-cases (assignment_key m request) (driver_status_key m a.driver_id)
        (lock_key m.lock_manager a.driver_id) (active_rider_key m a.rider_id)
        (active_driver_key m a.driver_id) request a.driver_id a.rider_id
        (whole_seconds m.driver_status_ttl) (whole_seconds m.assignment_ttl) d) [
          | inl (g, _, e) ↦ rw e (
              after_cancel-Exclusive m c d h request a.driver_id a.rider_id
                (whole_seconds m.driver_status_ttl) (whole_seconds m.assignment_ttl)
                c.assignment_live g.1 g.4)
          | inr (_, e) ↦ rw e h
        ]

  module _ (request driver rider : String) (d : Db) (h : Exclusive m d)
      (en_route : hget d (assignment_key m request) "status" ≡ some "en_route") where
    abbrev ended : Db
    ended =
        after_arrive m request driver rider (whole_seconds m.assignment_ttl)
          (whole_seconds m.driver_status_ttl) d

    same : (j : String) → assignment_key m request ≢ j → SameAt j d ended
    same =
        arrived-SameAt m request driver rider (whole_seconds m.assignment_ttl)
          (whole_seconds m.driver_status_ttl) c.assignment_live c.status_live d

    other_ride :
        (r : String)
        → hget ended (assignment_key m r) "status" ≡ some "en_route"
        → SameAt (assignment_key m r) d ended
    other_ride r s = same (assignment_key m r) (
        assignment_ne_self m request r (λ p. arrived-ne_en_route (
          sym (
            hget-arrived m request driver rider (whole_seconds m.assignment_ttl)
              (whole_seconds m.driver_status_ttl) c.assignment_live c.status_live d "status"
              en_route)
          ∙ ap (λ q. hget ended (assignment_key m q) "status") p
          ∙ s)))

    after_arrive-Exclusive : Exclusive m ended
    after_arrive-Exclusive = record {
      owned = λ r x s v.
          let old = other_ride r s in
          (same (active_driver_key m x) (assignment_ne_driver m c request x)).gets
          ∙ h.owned r x (sym (old.hgets "status") ∙ s) (sym (old.hgets "driver_id") ∙ v);
      riding = λ r x s v.
          let old = other_ride r s in
          (same (active_rider_key m x) (assignment_ne_rider m c request x)).gets
          ∙ h.riding r x (sym (old.hgets "status") ∙ s) (sym (old.hgets "rider_id") ∙ v);
    }

  pub arrive_command-Exclusive :
      (a : Assignment) (d : Db) → Exclusive m d → Exclusive m (arrive_command m a d).1
  arrive_command-Exclusive a d h =
      elim (arrive-cases (assignment_key m a.request_id) (active_rider_key m a.rider_id)
        (active_driver_key m a.driver_id) (driver_status_key m a.driver_id) a.request_id
        (whole_seconds m.assignment_ttl) (whole_seconds m.driver_status_ttl) d) [
          | inl (g, _, e) ↦
              rw e (after_arrive-Exclusive a.request_id a.driver_id a.rider_id d h g.1)
          | inr (_, e) ↦ rw e h
        ]

  pub refresh_command-Exclusive :
      (driver : String) (d : Db) → Exclusive m d → Exclusive m (refresh_command m driver d).1
  refresh_command-Exclusive driver d h =
      elim (refresh-cases (active_driver_key m driver) (driver_status_key m driver)
        m.assignment_prefix driver (whole_seconds m.driver_status_ttl) d) [
          | inl (_, _, e) ↦ rw e (
              Exclusive-SameRides m
                (SameRides-status m c driver d _ (λ j ne.
                  set_ex-SameAt d (driver_status_key m driver) j ne "busy"
                    (whole_seconds m.driver_status_ttl)))
                h)
          | inr (_, e) ↦ rw e h
        ]
