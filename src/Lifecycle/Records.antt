-- ===== src/Lifecycle/Records.antt =====
-- internal/dispatch/lifecycle.go: `create` against `get`, which reads the record of an assignment.
use geo_spatial_dispatch_ser.Prelude.{
  String, ◌≡◌, ◌≢◌, ◌∙◌, refl, ap, Option, none, some, List, [], ◌∷◌, ℤ, pos, negsuc, zero, suc,
  whole_seconds, inl, inr, false,
}
use geo_spatial_dispatch_ser.Result.{Result, ok}
use geo_spatial_dispatch_ser.Redis.{Redis, lookup}
use geo_spatial_dispatch_ser.Float.{Float}
use geo_spatial_dispatch_ser.Client.{World, quiet, call, ◌>>=◌, pure, raise}
use geo_spatial_dispatch_ser.Client.Reads.{Reads, Reads-pure, Reads-raise, Reads-call, Reads-bind}
use geo_spatial_dispatch_ser.Lifecycle.Types.{
  LifecycleManager, Assignment, assignment_key, active_rider_key, active_driver_key, en_route,
}
use geo_spatial_dispatch_ser.Lifecycle.Keys
use geo_spatial_dispatch_ser.Lifecycle.Guards.{create-cases}
use geo_spatial_dispatch_ser.Lifecycle.Creating.{
  hget-created, owner-created, rider-created, after_create,
}
use geo_spatial_dispatch_ser.Lifecycle.Manager.{
  field, parsed, read_assignment, found, get_assignment, create, created, create_command,
}

abbrev or_empty : Option String → String
or_empty o = elim o [ none ↦ "" | some v ↦ v ]

module _ ⦃R : Redis⦄ ⦃F : Float⦄ where
  open R use {Db, get, hget, hgetall}
  open F use {Float64, format, parse, is_nan}

  -- The record of an assignment in the database.
  pub record IsRecorded (m : LifecycleManager) (d : Db) (a : Assignment) : Type 0 where
    pub request_id : hget d (assignment_key m a.request_id) "request_id" ≡ some a.request_id
    pub rider_id : hget d (assignment_key m a.request_id) "rider_id" ≡ some a.rider_id
    pub driver_id : hget d (assignment_key m a.request_id) "driver_id" ≡ some a.driver_id
    pub longitude :
        hget d (assignment_key m a.request_id) "pickup_longitude" ≡ some (format a.pickup_longitude)
    pub latitude :
        hget d (assignment_key m a.request_id) "pickup_latitude" ≡ some (format a.pickup_latitude)
    pub status : hget d (assignment_key m a.request_id) "status" ≡ some a.status

  found-some :
      (values : List (String × String)) (f v : String)
      → lookup f values ≡ some v
      → found values ≡ read_assignment values
  found-some [] f v h = cc
  found-some (x ∷ values) f v h = refl

  field-hget : (d : Db) (k f v : String) → hget d k f ≡ some v → field f (hgetall d k) ≡ v
  field-hget d k f v h = ap or_empty (R.lookup-hgetall d k f ∙ h)

  pub get_assignment-recorded :
      (m : LifecycleManager) (d : Db) (a : Assignment)
      → IsRecorded m d a
      → is_nan a.pickup_longitude ≡ false
      → is_nan a.pickup_latitude ≡ false
      → get_assignment m a.request_id (quiet d) ≡ (ok a, quiet d)
  unfolding get_assignment call ◌>>=◌ pure
  get_assignment-recorded m d a h lon lat =
      let k = assignment_key m a.request_id in
      let values = hgetall d k in
      rw
        (
          found-some values "status" a.status (R.lookup-hgetall d k "status" ∙ h.status),
          field-hget d k "pickup_longitude" _ h.longitude,
          field-hget d k "pickup_latitude" _ h.latitude,
          F.parse-format a.pickup_longitude lon,
          F.parse-format a.pickup_latitude lat,
          field-hget d k "request_id" _ h.request_id,
          field-hget d k "rider_id" _ h.rider_id,
          field-hget d k "driver_id" _ h.driver_id,
          field-hget d k "status" _ h.status,
        )
        refl

  parsed-Reads : (label : String) (x : Option Float64) → Reads (parsed label x)
  parsed-Reads label none = Reads-raise _ _
  parsed-Reads label (some x) = Reads-pure x

  found-Reads : (values : List (String × String)) → Reads (found values)
  found-Reads [] = Reads-raise _ _
  found-Reads (v ∷ values) =
      Reads-bind _ _ (parsed-Reads _ _)
        (λ lon. Reads-bind _ _ (parsed-Reads _ _) (λ lat. Reads-pure _))

  pub get_assignment-Reads :
      (m : LifecycleManager) (request : String) → Reads (get_assignment m request)
  unfolding get_assignment
  get_assignment-Reads m request = Reads-bind _ _ (Reads-call _) found-Reads

  -- The result of `create` is nil exactly for the reply 1.
  created_one : (reply : ℤ) (w : World Db) → (created reply w).0 ≡ ok tt → reply ≡ pos 1
  unfolding pure raise
  created_one (pos zero) w h = cc
  created_one (pos (suc zero)) w h = refl
  created_one (pos (suc (suc n))) w h = cc
  created_one (negsuc zero) w h = cc
  created_one (negsuc (suc zero)) w h = cc
  created_one (negsuc (suc (suc n))) w h = cc

  created_world : (reply : ℤ) (w : World Db) → (created reply w).1 ≡ w
  unfolding pure raise
  created_world (pos zero) w = refl
  created_world (pos (suc zero)) w = refl
  created_world (pos (suc (suc n))) w = refl
  created_world (negsuc zero) w = refl
  created_world (negsuc (suc zero)) w = refl
  created_world (negsuc (suc (suc n))) w = refl

  module _ (m : LifecycleManager) (c : Keys.IsConfigured m) (a : Assignment) (d : Db) where
    abbrev outcome : Result (Unit {0})
    outcome = (create m a (quiet d)).0

    abbrev after : World Db
    after = (create m a (quiet d)).1

    created_reply : outcome ≡ ok tt → (create_command m a d).0 ≡ pos 1
    unfolding create call ◌>>=◌
    created_reply h = created_one _ _ h

    unlike_reply : outcome ≢ ok tt → (create_command m a d).0 ≢ pos 1
    unfolding create call ◌>>=◌ pure
    unlike_reply h e = h (ap (λ z. (created z (quiet (create_command m a d).1)).0) e)

    after_db : after ≡ quiet (create_command m a d).1
    unfolding create call ◌>>=◌
    after_db = created_world _ _

    -- The database that `create` leaves, by its outcome.
    abbrev pub Written : Db → Type 0
    Written e =
        IsRecorded m e (record a { status = en_route })
        × (get e (active_rider_key m a.rider_id) ≡ some a.request_id)
        × (get e (active_driver_key m a.driver_id) ≡ some a.request_id)

    pub written :
        R.exists d (assignment_key m a.request_id) ≡ false
        → Written (
            after_create m a.request_id a.rider_id a.driver_id
              (format a.pickup_longitude)
              (format a.pickup_latitude)
              (whole_seconds m.assignment_ttl)
              d)
    written new =
        let field_of = λ (f : String).
          hget-created m c a.request_id a.rider_id a.driver_id (format a.pickup_longitude)
            (format a.pickup_latitude) (whole_seconds m.assignment_ttl) c.assignment_live d f new in
        (
          record {
            request_id = field_of "request_id";
            rider_id = field_of "rider_id";
            driver_id = field_of "driver_id";
            longitude = field_of "pickup_longitude";
            latitude = field_of "pickup_latitude";
            status = field_of "status";
          },
          rider-created m c a.request_id a.rider_id a.driver_id (format a.pickup_longitude)
              (format a.pickup_latitude) (whole_seconds m.assignment_ttl) c.assignment_live d,
          owner-created m c a.request_id a.rider_id a.driver_id (format a.pickup_longitude)
              (format a.pickup_latitude) (whole_seconds m.assignment_ttl) c.assignment_live d,
        )

    create-writes : outcome ≡ ok tt → Written (create_command m a d).1
    create-writes h =
        elim (create-cases (assignment_key m a.request_id) (active_rider_key m a.rider_id)
          (active_driver_key m a.driver_id) m.assignment_prefix a.request_id a.rider_id a.driver_id
          (format a.pickup_longitude) (format a.pickup_latitude) (whole_seconds m.assignment_ttl)
          d) [
            | inl (g, _, e) ↦ rw e (written g.1)
            | inr (no_reply, _) ↦ absurd (no_reply (created_reply h))
          ]

    -- An assignment that `create` has recorded is the one that `get` then reads, en_route, and the
    -- rider's and the driver's active keys name it. The pickup coordinates are not NaN.
    pub get_assignment-create :
        is_nan a.pickup_longitude ≡ false
        → is_nan a.pickup_latitude ≡ false
        → outcome ≡ ok tt
        → (get_assignment m a.request_id after ≡ (ok (record a { status = en_route }), after))
          × (get after.db (active_rider_key m a.rider_id) ≡ some a.request_id)
          × (get after.db (active_driver_key m a.driver_id) ≡ some a.request_id)
    get_assignment-create lon lat h =
        let (recorded, rider, driver) = create-writes h in
        rw after_db (
          get_assignment-recorded m _ (record a { status = en_route }) recorded lon lat,
          rider,
          driver,
        )

    -- A `create` that fails leaves the database as it was, if no other client interferes and no call is
    -- refused or lost.
    pub create_failed : outcome ≢ ok tt → after ≡ quiet d
    create_failed h =
        elim (create-cases (assignment_key m a.request_id) (active_rider_key m a.rider_id)
          (active_driver_key m a.driver_id) m.assignment_prefix a.request_id a.rider_id a.driver_id
          (format a.pickup_longitude) (format a.pickup_latitude) (whole_seconds m.assignment_ttl)
          d) [
            | inl (_, reply, _) ↦ absurd (unlike_reply h reply)
            | inr (_, e) ↦ after_db ∙ ap quiet e
          ]
