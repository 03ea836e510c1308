-- ===== src/Lifecycle/Safety.antt =====
-- internal/dispatch/lifecycle.go: every script keeps the rides exclusive, whatever the database and
-- whatever it is given.
use geo_spatial_dispatch_ser.Prelude.{
  ℕ, ◌<◌, String, ◌≡◌, sym, ◌∙◌, ap, ◌≢◌, inl, inr, true, false, Option, none, some, arith,
  join_key, Text-cases, some-inj, refl, eq_iff,
}
use mathlib.Core.Path.{subst}
use geo_spatial_dispatch_ser.Redis.{Redis, lookup}
use geo_spatial_dispatch_ser.Redis.Frame.{SameAt}
use geo_spatial_dispatch_ser.Float.{Float}
use geo_spatial_dispatch_ser.Lifecycle.Types.{
  LifecycleManager, assignment_key, active_rider_key, active_driver_key,
}
use geo_spatial_dispatch_ser.Lifecycle.Keys.{IsConfigured}
use geo_spatial_dispatch_ser.Lifecycle.Scripts.{
  is_other, is_active, active_status, assignment_fields,
}
use geo_spatial_dispatch_ser.Lifecycle.Exclusive.{Exclusive}
use geo_spatial_dispatch_ser.Lifecycle.Guards.{Creates}
use geo_spatial_dispatch_ser.Lifecycle.Creating.{
  after_create, hget-created, owner-created, rider-created, ride-created_ne, owner-created_ne,
  rider-created_ne,
}
use geo_spatial_dispatch_ser.Lifecycle.Cancelling.{
  after_cancel, hget-cancelled, rider-cancelled_other,
}
use geo_spatial_dispatch_ser.Lifecycle.Untouched.{
  ride-cancelled_ne, owner-cancelled_ne, rider-cancelled_ne,
}

pub not_other : {o : Option String} {r q : String} → is_other o q ≡ false → o ≡ some r → r ≡ q
not_other {o} {r} {q} h e = ground (arith, eq_iff r q)

pub named_active :
    ⦃R : Redis⦄ (prefix : String) (o : Option String) (d : R.Db) (r : String)
    → o ≡ some r
    → R.hget d (join_key prefix r) "status" ≡ some "en_route"
    → is_active (active_status prefix o d) ≡ true
named_active prefix none d r e s = cc
named_active ⦃R⦄ prefix (some q) d r e s = rw (some-inj e) (rw s refl)

-- The statuses as HSET leaves them.
pub cancelled-ne_en_route : ◌≢◌ {A = Option String} (some "cancelled") (some "en_route")
cancelled-ne_en_route e = ground (arith, eq_iff "cancelled" "en_route", some-inj e)

pub arrived-ne_en_route : ◌≢◌ {A = Option String} (some "arrived") (some "en_route")
arrived-ne_en_route e = ground (arith, eq_iff "arrived" "en_route", some-inj e)

module _ ⦃R : Redis⦄ ⦃F : Float⦄ (m : LifecycleManager) (c : IsConfigured m) (d : R.Db)
    (h : Exclusive m d) where
  open R use {Db, get, hget, exists}

  module _ (request rider driver lon lat : String) (ttl : ℕ) (live : 0 < ttl)
      (g : Creates
        (assignment_key m request)
        (active_rider_key m rider)
        (active_driver_key m driver)
        m.assignment_prefix
        request
        rider
        driver
        lon
        lat
        ttl
        d) where
    abbrev created : Db
    created = after_create m request rider driver lon lat ttl d

    new_field :
        (f : String)
        → hget created (assignment_key m request) f
          ≡ lookup f (assignment_fields request rider driver lon lat)
    new_field f = hget-created m c request rider driver lon lat ttl live d f g.1

    old_rider :
        (r x : String)
        → hget d (assignment_key m r) "status" ≡ some "en_route"
        → get d (active_rider_key m x) ≡ some r
        → rider ≢ x
    old_rider r x s e p = cc (
      g.0,
      named_active m.assignment_prefix (get d (active_rider_key m rider)) d r
          (ap (λ y. get d (active_rider_key m y)) p ∙ e) s,
    )

    -- The driver of a ride under way is not the one that `create` was let through with.
    old_driver : (r x : String) → request ≢ r → get d (active_driver_key m x) ≡ some r → driver ≢ x
    old_driver r x ne e p = ne (sym (not_other g.2 (ap (λ y. get d (active_driver_key m y)) p ∙ e)))

    new_owned :
        (x : String)
        → hget created (assignment_key m request) "driver_id" ≡ some x
        → get created (active_driver_key m x) ≡ some request
    new_owned x v =
        subst (λ y. get created (active_driver_key m y) ≡ some request)
          (some-inj (sym (new_field "driver_id") ∙ v))
          (owner-created m c request rider driver lon lat ttl live d)

    new_riding :
        (x : String)
        → hget created (assignment_key m request) "rider_id" ≡ some x
        → get created (active_rider_key m x) ≡ some request
    new_riding x v =
        subst (λ y. get created (active_rider_key m y) ≡ some request)
          (some-inj (sym (new_field "rider_id") ∙ v))
          (rider-created m c request rider driver lon lat ttl live d)

    old_field : (r : String) → request ≢ r → SameAt (assignment_key m r) d created
    old_field = ride-created_ne m c request rider driver lon lat ttl live d

    create-owned :
        (r x : String)
        → hget created (assignment_key m r) "status" ≡ some "en_route"
        → hget created (assignment_key m r) "driver_id" ≡ some x
        → get created (active_driver_key m x) ≡ some r
    create-owned r x s v = elim (Text-cases request r) [
      | inl same ↦
          subst
            (λ q.
              hget created (assignment_key m q) "driver_id" ≡ some x
              → get created (active_driver_key m x) ≡ some q)
            same (new_owned x) v
      | inr other ↦
          let old = old_field r other in
          let mine = h.owned r x (sym (old.hgets "status") ∙ s) (sym (old.hgets "driver_id") ∙ v) in
          (owner-created_ne m c request rider driver lon lat ttl live d x
            (old_driver r x other mine)).gets
          ∙ mine
    ]

    create-riding :
        (r x : String)
        → hget created (assignment_key m r) "status" ≡ some "en_route"
        → hget created (assignment_key m r) "rider_id" ≡ some x
        → get created (active_rider_key m x) ≡ some r
    create-riding r x s v = elim (Text-cases request r) [
      | inl same ↦
          subst
            (λ q.
              hget created (assignment_key m q) "rider_id" ≡ some x
              → get created (active_rider_key m x) ≡ some q)
            same (new_riding x) v
      | inr other ↦
          let old = old_field r other in
          let en_route = sym (old.hgets "status") ∙ s in
          let mine = h.riding r x en_route (sym (old.hgets "rider_id") ∙ v) in
          (rider-created_ne m c request rider driver lon lat ttl live d x
            (old_rider r x en_route mine)).gets
          ∙ mine
    ]

    pub after_create-Exclusive : Exclusive m created
    after_create-Exclusive = record { owned = create-owned; riding = create-riding }

  module _ (request driver rider : String) (status_ttl ttl : ℕ) (live : 0 < ttl)
      (en_route : hget d (assignment_key m request) "status" ≡ some "en_route")
      (owner : get d (active_driver_key m driver) ≡ some request) where
    abbrev ended : Db
    ended = after_cancel m request driver rider status_ttl ttl d

    -- The cancelled ride is not under way any more, so a ride that is under way is another.
    other_ride :
        (r : String) → hget ended (assignment_key m r) "status" ≡ some "en_route" → request ≢ r
    other_ride r s same = cancelled-ne_en_route (
        sym (hget-cancelled m c request driver rider status_ttl ttl live d "status" en_route)
        ∙ ap (λ q. hget ended (assignment_key m q) "status") same
        ∙ s)

    untouched : (r : String) → request ≢ r → SameAt (assignment_key m r) d ended
    untouched = ride-cancelled_ne m c request driver rider status_ttl ttl live d

    cancel-owned :
        (r x : String)
        → hget ended (assignment_key m r) "status" ≡ some "en_route"
        → hget ended (assignment_key m r) "driver_id" ≡ some x
        → get ended (active_driver_key m x) ≡ some r
    cancel-owned r x s v =
        let other = other_ride r s in
        let old = untouched r other in
        let mine = h.owned r x (sym (old.hgets "status") ∙ s) (sym (old.hgets "driver_id") ∙ v) in
        (owner-cancelled_ne m c request driver rider status_ttl ttl live d x (λ p.
          other (some-inj (sym owner ∙ ap (λ y. get d (active_driver_key m y)) p ∙ mine)))).gets
        ∙ mine

    cancel-riding :
        (r x : String)
        → hget ended (assignment_key m r) "status" ≡ some "en_route"
        → hget ended (assignment_key m r) "rider_id" ≡ some x
        → get ended (active_rider_key m x) ≡ some r
    cancel-riding r x s v =
        let other = other_ride r s in
        let old = untouched r other in
        let mine = h.riding r x (sym (old.hgets "status") ∙ s) (sym (old.hgets "rider_id") ∙ v) in
        elim (Text-cases rider x) [
          | inl same ↦
              subst
                (λ y.
                  get d (active_rider_key m y) ≡ some r → get ended (active_rider_key m y) ≡ some r)
                same
                (rider-cancelled_other m c request driver rider status_ttl ttl live d r
                  (λ p. other (sym p)))
                mine
          | inr apart ↦
              (rider-cancelled_ne m c request driver rider status_ttl ttl live d x apart).gets
              ∙ mine
        ]

    pub after_cancel-Exclusive : Exclusive m ended
    after_cancel-Exclusive = record { owned = cancel-owned; riding = cancel-riding }
