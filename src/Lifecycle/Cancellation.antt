-- ===== src/Lifecycle/Cancellation.antt =====
-- internal/dispatch/lifecycle.go: `cancel`, from the record that it reads to what it leaves behind.
use geo_spatial_dispatch_ser.Prelude.{
  String, ◌≡◌, ◌≢◌, ◌∙◌, refl, sym, ap, none, some, pos, whole_seconds, inl, inr, false, true, ◌==◌,
  Bool-cases,
}
use geo_spatial_dispatch_ser.Result.{Error, Result, ok, err, assignment_state_conflict}
use geo_spatial_dispatch_ser.Redis.{Redis}
use geo_spatial_dispatch_ser.Redis.Frame.{SameAt}
use geo_spatial_dispatch_ser.Float.{Float}
use geo_spatial_dispatch_ser.Client.{quiet, call, ◌>>=◌, pure, raise}
use geo_spatial_dispatch_ser.Lock.{lock_key}
use geo_spatial_dispatch_ser.Lifecycle.Types.{
  LifecycleManager, Assignment, assignment_key, active_rider_key, active_driver_key,
  driver_status_key, cancelled, en_route,
}
use geo_spatial_dispatch_ser.Lifecycle.Keys
use geo_spatial_dispatch_ser.Lifecycle.Records.{get_assignment-Reads}
use geo_spatial_dispatch_ser.Lifecycle.Guards.{cancel-cases, Cancels}
use geo_spatial_dispatch_ser.Lifecycle.Cancelling.{
  after_cancel, hget-cancelled, owner-cancelled, rider-cancelled_gone, lock-cancelled_free,
  status-cancelled,
}
use geo_spatial_dispatch_ser.Lifecycle.Untouched.{ride-cancelled_ne}
use geo_spatial_dispatch_ser.Lifecycle.Manager.{
  get_assignment, cancel, cancel_command, was_cancelled,
}
use geo_spatial_dispatch_ser.Lifecycle.Replies.{was_cancelled_world, was_cancelled_one}

module _ ⦃R : Redis⦄ ⦃F : Float⦄ where
  open R use {Db, get, hget, hgetall}
  open F use {Float64}

  -- What a cancellation that answers `b` has done to the database.
  pub record Cancellation (m : LifecycleManager) (request : String) (d e : Db) (b : Assignment)
      : Type 0 where
    pub answer : b.status ≡ "cancelled"
    pub was_en_route : hget d (assignment_key m request) "status" ≡ some "en_route"
    pub of_driver : hget d (assignment_key m request) "driver_id" ≡ some b.driver_id
    pub of_rider : hget d (assignment_key m request) "rider_id" ≡ some b.rider_id
    pub was_owned : get d (active_driver_key m b.driver_id) ≡ some request
    pub is_cancelled : hget e (assignment_key m request) "status" ≡ some "cancelled"
    pub owner_freed : get e (active_driver_key m b.driver_id) ≡ none
    pub rider_freed : get e (active_rider_key m b.rider_id) ≢ some request
    pub lock_freed : get e (lock_key m.lock_manager b.driver_id) ≡ none
    pub driver_freed :
        get d (driver_status_key m b.driver_id) ≡ some "busy"
        → get e (driver_status_key m b.driver_id) ≡ some "available"
    pub others : (r : String) → request ≢ r → SameAt (assignment_key m r) d e

  module _ (m : LifecycleManager) (c : Keys.IsConfigured m) (request : String) (d : Db) where
    guarded :
        (a : Assignment)
        → Cancels
            (assignment_key m request)
            (driver_status_key m a.driver_id)
            (lock_key m.lock_manager a.driver_id)
            (active_rider_key m a.rider_id)
            (active_driver_key m a.driver_id)
            request
            a.driver_id
            a.rider_id
            (whole_seconds m.driver_status_ttl)
            (whole_seconds m.assignment_ttl)
            d
        → Cancellation m request d
            (after_cancel m request a.driver_id a.rider_id
              (whole_seconds m.driver_status_ttl)
              (whole_seconds m.assignment_ttl)
              d)
            (record a { status = cancelled })
    guarded a (_, running, driver, rider, owned, lock) =
        let n = whole_seconds m.driver_status_ttl in
        let t = whole_seconds m.assignment_ttl in
        record {
          answer = refl;
          was_en_route = running;
          of_driver = driver;
          of_rider = rider;
          was_owned = owned;
          is_cancelled =
              hget-cancelled m c request a.driver_id a.rider_id n t c.assignment_live d "status"
                running;
          owner_freed = owner-cancelled m c request a.driver_id a.rider_id n t c.assignment_live d;
          rider_freed =
              rider-cancelled_gone m c request a.driver_id a.rider_id n t c.assignment_live d;
          lock_freed =
              lock-cancelled_free m c request a.driver_id a.rider_id n t c.assignment_live d lock;
          driver_freed = λ busy.
              status-cancelled m c request a.driver_id a.rider_id n t c.assignment_live d
                c.status_live
              ∙ rw busy refl;
          others = ride-cancelled_ne m c request a.driver_id a.rider_id n t c.assignment_live d;
        }

    -- The database after the script, for the assignment that was read.
    cancellation :
        (a : Assignment)
        → (cancel_command m request a d).0 ≡ pos 1
        → Cancellation m request d
            (cancel_command m request a d).1
            (record a { status = cancelled })
    cancellation a reply =
        elim (cancel-cases (assignment_key m request) (driver_status_key m a.driver_id)
          (lock_key m.lock_manager a.driver_id) (active_rider_key m a.rider_id)
          (active_driver_key m a.driver_id) request a.driver_id a.rider_id
          (whole_seconds m.driver_status_ttl) (whole_seconds m.assignment_ttl) d) [
            | inl (g, _, e) ↦ rw e (guarded a g)
            | inr (no_reply, _) ↦ absurd (no_reply reply)
          ]

    module _ (a : Assignment) (read : get_assignment m request (quiet d) ≡ (ok a, quiet d)) where
      cancel_settled :
          (a.status == en_route) ≡ false
          → cancel m request (quiet d) ≡ (err assignment_state_conflict, quiet d)
      unfolding cancel ◌>>=◌ raise
      cancel_settled h = rw (read, h) refl

      cancel_running :
          (a.status == en_route) ≡ true
          → cancel m request (quiet d)
            ≡ was_cancelled a
                (cancel_command m request a d).0
                (quiet (cancel_command m request a d).1)
      unfolding cancel call ◌>>=◌
      cancel_running h = rw (read, h) refl

    cancel_unread :
        (e : Error)
        → get_assignment m request (quiet d) ≡ (err e, quiet d)
        → cancel m request (quiet d) ≡ (err e, quiet d)
    unfolding cancel ◌>>=◌
    cancel_unread e read = rw read refl

    cancel_ok :
        (a b : Assignment)
        → (was_cancelled a
            (cancel_command m request a d).0
            (quiet (cancel_command m request a d).1)).0
          ≡ ok b
        → Cancellation m request d (cancel_command m request a d).1 b
    cancel_ok a b h =
        let (reply, answer) = was_cancelled_one a b _ _ h in rw answer (cancellation a reply)

    -- `cancel` after its `get`.
    cancel_read :
        (o : Result Assignment) (b : Assignment)
        → get_assignment m request (quiet d) ≡ (o, quiet d)
        → (cancel m request (quiet d)).0 ≡ ok b
        → Cancellation m request d (cancel m request (quiet d)).1.db b
    cancel_read (err e) b read h = absurd (cc (h, ap (λ p. p.0) (cancel_unread e read)))
    cancel_read (ok a) b read h = elim (Bool-cases (a.status == en_route)) [
      | inl running ↦
          rw
            (
              cancel_running a read running,
              was_cancelled_world a b (cancel_command m request a d).0
                  (quiet (cancel_command m request a d).1),
            )
            (cancel_ok a b (ap (λ p. p.0) (sym (cancel_running a read running)) ∙ h))
      | inr settled ↦ absurd (cc (h, ap (λ p. p.0) (cancel_settled a read settled)))
    ]

    reply_failed :
        (a : Assignment) (e : Error)
        → (was_cancelled a
            (cancel_command m request a d).0
            (quiet (cancel_command m request a d).1)).0
          ≡ err e
        → (cancel_command m request a d).1 ≡ d
    unfolding pure
    reply_failed a e h =
        elim (cancel-cases (assignment_key m request) (driver_status_key m a.driver_id)
          (lock_key m.lock_manager a.driver_id) (active_rider_key m a.rider_id)
          (active_driver_key m a.driver_id) request a.driver_id a.rider_id
          (whole_seconds m.driver_status_ttl) (whole_seconds m.assignment_ttl) d) [
            | inl (_, reply, _) ↦ absurd (cc (h, reply))
            | inr (_, same) ↦ same
          ]

    failed_read :
        (o : Result Assignment) (e : Error)
        → get_assignment m request (quiet d) ≡ (o, quiet d)
        → (cancel m request (quiet d)).0 ≡ err e
        → (cancel m request (quiet d)).1 ≡ quiet d
    failed_read (err x) e read h = ap (λ p. p.1) (cancel_unread x read)
    failed_read (ok a) e read h = elim (Bool-cases (a.status == en_route)) [
      | inl running ↦
          rw
            (
              cancel_running a read running,
              was_cancelled_world a a (cancel_command m request a d).0
                  (quiet (cancel_command m request a d).1),
            )
            (ap quiet (reply_failed a e (ap (λ p. p.0) (sym (cancel_running a read running)) ∙ h)))
      | inr settled ↦ ap (λ p. p.1) (cancel_settled a read settled)
    ]

    pub cancel-Cancellation :
        (b : Assignment)
        → (cancel m request (quiet d)).0 ≡ ok b
        → Cancellation m request d (cancel m request (quiet d)).1.db b
    cancel-Cancellation b h =
        cancel_read (get_assignment m request (quiet d)).0 b
          (ap (λ w. ((get_assignment m request (quiet d)).0, w)) (get_assignment-Reads m request d))
          h

    pub cancel_failed :
        (e : Error)
        → (cancel m request (quiet d)).0 ≡ err e
        → (cancel m request (quiet d)).1 ≡ quiet d
    cancel_failed e h =
        failed_read (get_assignment m request (quiet d)).0 e
          (ap (λ w. ((get_assignment m request (quiet d)).0, w)) (get_assignment-Reads m request d))
          h
