-- ===== src/Lifecycle/Expiry.antt =====
-- internal/dispatch/lifecycle.go: keys that expire keep the rides exclusive, an active key as long as
-- the assignment that it names is not en route.
use geo_spatial_dispatch_ser.Prelude.{
  String, ◌≡◌, ◌≢◌, sym, ◌∙◌, ap, refl, false, true, Option, none, some, some-inj, join_key,
}
use geo_spatial_dispatch_ser.Redis.{Redis}
use geo_spatial_dispatch_ser.Redis.Frame.{SameAt, del-SameAt}
use geo_spatial_dispatch_ser.Float.{Float}
use geo_spatial_dispatch_ser.Lifecycle.Types.{
  LifecycleManager, assignment_key, active_driver_key, active_rider_key,
}
use geo_spatial_dispatch_ser.Lifecycle.Keys
use geo_spatial_dispatch_ser.Lifecycle.Scripts.{is_text, active_status}
use geo_spatial_dispatch_ser.Lifecycle.Exclusive.{Exclusive}

named_en_route :
    ⦃R : Redis⦄ (prefix : String) (o : Option String) (d : R.Db) (r : String)
    → o ≡ some r
    → R.hget d (join_key prefix r) "status" ≡ some "en_route"
    → is_text (active_status prefix o d) "en_route" ≡ true
named_en_route prefix none d r e s = cc
named_en_route prefix (some q) d r e s = rw (some-inj e) (rw s refl)

module _ ⦃R : Redis⦄ ⦃F : Float⦄ (m : LifecycleManager) (c : Keys.IsConfigured m) (d : R.Db)
    (h : Exclusive m d) where
  open R use {Db, get, hget, exists, del}

  module _ (request : String) where
    abbrev gone : Db
    gone = del d (assignment_key m request)

    other_ride :
        (r : String) → hget gone (assignment_key m r) "status" ≡ some "en_route" → request ≢ r
    other_ride r s same = cc (
      R.hget-exists gone (assignment_key m request) "status"
          (R.exists-del d (assignment_key m request)),
      ap (λ q. hget gone (assignment_key m q) "status") same ∙ s,
    )

    old : (r : String) → request ≢ r → SameAt (assignment_key m r) d gone
    old r ne =
        del-SameAt d (assignment_key m request) (assignment_key m r)
          (Keys.assignment_ne_self m request r ne)

    pub assignment_expires-Exclusive : Exclusive m gone
    assignment_expires-Exclusive = record {
      owned = λ r x s v.
          let same = old r (other_ride r s) in
          R.get-del_ne d (assignment_key m request) (active_driver_key m x)
            (Keys.assignment_ne_driver m c request x)
          ∙ h.owned r x (sym (same.hgets "status") ∙ s) (sym (same.hgets "driver_id") ∙ v);
      riding = λ r x s v.
          let same = old r (other_ride r s) in
          R.get-del_ne d (assignment_key m request) (active_rider_key m x)
            (Keys.assignment_ne_rider m c request x)
          ∙ h.riding r x (sym (same.hgets "status") ∙ s) (sym (same.hgets "rider_id") ∙ v);
    }

  -- A ride that is en route is named by its keys, so they do not go.
  named_ne :
      (key r : String)
      → is_text (active_status m.assignment_prefix (get d key) d) "en_route" ≡ false
      → hget d (assignment_key m r) "status" ≡ some "en_route"
      → get d key ≢ some r
  named_ne key r idle s e = cc (idle, named_en_route m.assignment_prefix (get d key) d r e s)

  module _ (driver : String)
      (idle : is_text
          (active_status m.assignment_prefix (get d (active_driver_key m driver)) d)
          "en_route"
        ≡ false) where
    apart :
        (j : String)
        → active_driver_key m driver ≢ j
        → SameAt j d (del d (active_driver_key m driver))
    apart j = del-SameAt d (active_driver_key m driver) j

    ride : (r : String) → SameAt (assignment_key m r) d (del d (active_driver_key m driver))
    ride r = apart (assignment_key m r) (Keys.driver_ne_assignment m c driver r)

    pub owner_expires-Exclusive : Exclusive m (del d (active_driver_key m driver))
    owner_expires-Exclusive = record {
      owned = λ r x s v.
          let en_route = sym ((ride r).hgets "status") ∙ s in
          let mine = h.owned r x en_route (sym ((ride r).hgets "driver_id") ∙ v) in
          (apart (active_driver_key m x) (
            Keys.driver_ne_self m driver x (λ p.
              named_ne (active_driver_key m driver) r idle en_route
                (ap (λ y. get d (active_driver_key m y)) p ∙ mine)))).gets
          ∙ mine;
      riding = λ r x s v.
          (apart (active_rider_key m x) (Keys.driver_ne_rider m c driver x)).gets
          ∙ h.riding r x (sym ((ride r).hgets "status") ∙ s) (sym ((ride r).hgets "rider_id") ∙ v);
    }

  module _ (rider : String)
      (idle : is_text
          (active_status m.assignment_prefix (get d (active_rider_key m rider)) d)
          "en_route"
        ≡ false) where
    rider_apart :
        (j : String) → active_rider_key m rider ≢ j → SameAt j d (del d (active_rider_key m rider))
    rider_apart j = del-SameAt d (active_rider_key m rider) j

    rider_ride : (r : String) → SameAt (assignment_key m r) d (del d (active_rider_key m rider))
    rider_ride r = rider_apart (assignment_key m r) (Keys.rider_ne_assignment m c rider r)

    pub rider_expires-Exclusive : Exclusive m (del d (active_rider_key m rider))
    rider_expires-Exclusive = record {
      owned = λ r x s v.
          (rider_apart (active_driver_key m x) (Keys.rider_ne_driver m c rider x)).gets
          ∙ h.owned r x (sym ((rider_ride r).hgets "status") ∙ s)
              (sym ((rider_ride r).hgets "driver_id") ∙ v);
      riding = λ r x s v.
          let en_route = sym ((rider_ride r).hgets "status") ∙ s in
          let mine = h.riding r x en_route (sym ((rider_ride r).hgets "rider_id") ∙ v) in
          (rider_apart (active_rider_key m x) (
            Keys.rider_ne_self m rider x (λ p.
              named_ne (active_rider_key m rider) r idle en_route
                (ap (λ y. get d (active_rider_key m y)) p ∙ mine)))).gets
          ∙ mine;
    }
