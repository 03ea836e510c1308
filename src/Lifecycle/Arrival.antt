-- ===== src/Lifecycle/Arrival.antt =====
-- internal/dispatch/lifecycle.go: `arrive`, from its replies to what it leaves behind.
use geo_spatial_dispatch_ser.Prelude.{
  String, ◌≡◌, ◌≢◌, ◌∙◌, refl, ap, some, ℤ, pos, negsuc, zero, suc, whole_seconds, inl, inr,
}
use geo_spatial_dispatch_ser.Result.{Error, ok, err}
use geo_spatial_dispatch_ser.Redis.{Redis}
use geo_spatial_dispatch_ser.Redis.Frame.{SameAt}
use geo_spatial_dispatch_ser.Float.{Float}
use geo_spatial_dispatch_ser.Client.{World, quiet, call, ◌>>=◌, pure, raise}
use geo_spatial_dispatch_ser.Lifecycle.Types.{
  LifecycleManager, Assignment, assignment_key, active_rider_key, active_driver_key,
  driver_status_key, arrived,
}
use geo_spatial_dispatch_ser.Lifecycle.Keys
use geo_spatial_dispatch_ser.Lifecycle.Guards.{arrive-cases, Arrives}
use geo_spatial_dispatch_ser.Lifecycle.Arriving.{after_arrive, hget-arrived, arrived-SameAt}
use geo_spatial_dispatch_ser.Lifecycle.Manager.{arrive, arrive_command, has_arrived}

module _ ⦃R : Redis⦄ ⦃F : Float⦄ where
  open R use {Db, get, hget}

  module _ (a : Assignment) where
    has_arrived_world : (reply : ℤ) (w : World Db) → (has_arrived a reply w).1 ≡ w
    unfolding pure raise
    has_arrived_world (pos zero) w = refl
    has_arrived_world (pos (suc zero)) w = refl
    has_arrived_world (pos (suc (suc n))) w = refl
    has_arrived_world (negsuc zero) w = refl
    has_arrived_world (negsuc (suc zero)) w = refl
    has_arrived_world (negsuc (suc (suc n))) w = refl

    has_arrived_one :
        (b : Assignment) (reply : ℤ) (w : World Db)
        → (has_arrived a reply w).0 ≡ ok b
        → (reply ≡ pos 1) × (b ≡ record a { status = arrived })
    unfolding pure raise
    has_arrived_one b (pos zero) w h = cc
    has_arrived_one b (pos (suc zero)) w h = (refl, cc)
    has_arrived_one b (pos (suc (suc n))) w h = cc
    has_arrived_one b (negsuc zero) w h = cc
    has_arrived_one b (negsuc (suc zero)) w h = cc
    has_arrived_one b (negsuc (suc (suc n))) w h = cc

  -- What an arrival that answers `b` has done to the database: the ride goes on in its driver's and
  -- its rider's names until it is reset or expires.
  pub record Arrival (m : LifecycleManager) (d e : Db) (b : Assignment) : Type 0 where
    pub answer : b.status ≡ "arrived"
    pub was_en_route : hget d (assignment_key m b.request_id) "status" ≡ some "en_route"
    pub is_arrived : hget e (assignment_key m b.request_id) "status" ≡ some "arrived"
    pub rider_held : get e (active_rider_key m b.rider_id) ≡ some b.request_id
    pub driver_held : get e (active_driver_key m b.driver_id) ≡ some b.request_id
    pub driver_busy : get e (driver_status_key m b.driver_id) ≡ some "busy"
    pub others : (j : String) → assignment_key m b.request_id ≢ j → SameAt j d e

  module _ (m : LifecycleManager) (c : Keys.IsConfigured m) (a : Assignment) (d : Db) where
    guarded :
        Arrives
          (assignment_key m a.request_id)
          (active_rider_key m a.rider_id)
          (active_driver_key m a.driver_id)
          (driver_status_key m a.driver_id)
          a.request_id
          (whole_seconds m.assignment_ttl)
          (whole_seconds m.driver_status_ttl)
          d
        → Arrival m d
            (after_arrive m a.request_id a.driver_id a.rider_id
              (whole_seconds m.assignment_ttl)
              (whole_seconds m.driver_status_ttl)
              d)
            (record a { status = arrived })
    guarded (_, running, rider, driver, busy) =
        let same =
          arrived-SameAt m a.request_id a.driver_id a.rider_id (whole_seconds m.assignment_ttl)
            (whole_seconds m.driver_status_ttl) c.assignment_live c.status_live d in
        record {
          answer = refl;
          was_en_route = running;
          is_arrived =
              hget-arrived m a.request_id a.driver_id a.rider_id (whole_seconds m.assignment_ttl)
                (whole_seconds m.driver_status_ttl) c.assignment_live c.status_live d "status"
                running;
          rider_held =
              (same (active_rider_key m a.rider_id) (Keys.assignment_ne_rider m c _ _)).gets
              ∙ rider;
          driver_held =
              (same (active_driver_key m a.driver_id) (Keys.assignment_ne_driver m c _ _)).gets
              ∙ driver;
          driver_busy =
              (same (driver_status_key m a.driver_id) (Keys.assignment_ne_status m c _ _)).gets
              ∙ busy;
          others = same;
        }

    abbrev after : World Db
    after = quiet (arrive_command m a d).1

    arrive_world : (arrive m a (quiet d)).1 ≡ after
    unfolding arrive call ◌>>=◌
    arrive_world = has_arrived_world a _ _

    pub arrive_one :
        (b : Assignment)
        → (arrive m a (quiet d)).0 ≡ ok b
        → ((arrive_command m a d).0 ≡ pos 1) × (b ≡ record a { status = arrived })
    unfolding arrive call ◌>>=◌
    arrive_one b h = has_arrived_one a b _ _ h

    pub arrive-Arrival :
        (b : Assignment)
        → (arrive m a (quiet d)).0 ≡ ok b
        → Arrival m d (arrive m a (quiet d)).1.db b
    arrive-Arrival b h =
        let (reply, answer) = arrive_one b h in
        rw (arrive_world, answer)
          (elim (arrive-cases (assignment_key m a.request_id) (active_rider_key m a.rider_id)
            (active_driver_key m a.driver_id) (driver_status_key m a.driver_id) a.request_id
            (whole_seconds m.assignment_ttl) (whole_seconds m.driver_status_ttl) d) [
              | inl (g, _, e) ↦ rw e (guarded g)
              | inr (no_reply, _) ↦ absurd (no_reply reply)
            ])

    unlike_reply : (x : Error) → (arrive m a (quiet d)).0 ≡ err x → (arrive_command m a d).0 ≢ pos 1
    unfolding arrive call ◌>>=◌ pure
    unlike_reply x h e = cc (h, e)

    pub arrive_refused :
        (x : Error) → (arrive m a (quiet d)).0 ≡ err x → (arrive m a (quiet d)).1 ≡ quiet d
    arrive_refused x h =
        elim (arrive-cases (assignment_key m a.request_id) (active_rider_key m a.rider_id)
          (active_driver_key m a.driver_id) (driver_status_key m a.driver_id) a.request_id
          (whole_seconds m.assignment_ttl) (whole_seconds m.driver_status_ttl) d) [
            | inl (_, reply, _) ↦ absurd (unlike_reply x h reply)
            | inr (_, same) ↦ arrive_world ∙ ap quiet same
          ]
