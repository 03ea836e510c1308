-- ===== src/Lifecycle/Cancelling.antt =====
-- internal/dispatch/lifecycle.go: what `cancel` leaves at the keys of the ride, its guards passed.
use geo_spatial_dispatch_ser.Prelude.{
  ℕ, ◌<◌, String, ◌≡◌, ◌∙◌, ap, sym, refl, ◌≢◌, Bool, true, false, Bool-cases, not, ◌==◌, inl, inr,
  Option, none, some, [], ◌∷◌, arith, if◌then◌else◌,
}
use geo_spatial_dispatch_ser.Redis.{Redis, lookup, or_else}
use geo_spatial_dispatch_ser.Redis.Frame.{
  SameAt, SameAt-refl, SameAt-trans, SameAt-if, set_ex-SameAt, del-SameAt, hset-SameAt,
  expire-SameAt, get-del,
}
use geo_spatial_dispatch_ser.Float.{Float}
use geo_spatial_dispatch_ser.Lock.{lock_key}
use geo_spatial_dispatch_ser.Lifecycle.Types.{
  LifecycleManager, assignment_key, active_rider_key, driver_status_key, active_driver_key,
}
use geo_spatial_dispatch_ser.Lifecycle.Keys
use geo_spatial_dispatch_ser.Lifecycle.Scripts.{is_text, is_other, cancel_writes}
use geo_spatial_dispatch_ser.Lifecycle.Frames.{del_if-SameAt}
use geo_spatial_dispatch_ser.Lifecycle.Guards.{is_text_self, is_text-eq}

module _ ⦃R : Redis⦄ ⦃F : Float⦄ (m : LifecycleManager) (request driver rider : String)
    (status_ttl ttl : ℕ) where
  abbrev pub after_cancel : R.Db → R.Db
  after_cancel =
      cancel_writes (assignment_key m request) (driver_status_key m driver)
        (lock_key m.lock_manager driver) (active_rider_key m rider) (active_driver_key m driver)
        request status_ttl ttl

-- A conditional DEL takes the key away if it holds the text, and otherwise changes nothing.
module _ ⦃R : Redis⦄ (k request : String) (d : R.Db) where
  abbrev dropped : R.Db
  dropped = if is_text (R.get d k) request then R.del d k else d

  pub dropped_own : R.get d k ≡ some request → R.get dropped k ≡ none
  dropped_own e = rw (e, is_text_self request) (get-del d k)

  pub dropped_other : (q : String) → q ≢ request → R.get d k ≡ some q → R.get dropped k ≡ some q
  dropped_other q ne e = ground (arith, is_text-eq (R.get d k) request)

  pub dropped_gone : R.get dropped k ≢ some request
  dropped_gone = elim (Bool-cases (is_text (R.get d k) request)) [
    | inl own ↦ rw own (λ e. cc (get-del d k, e))
    | inr other ↦ rw other (λ e. cc (other, e, is_text_self request))
  ]

module _ ⦃R : Redis⦄ ⦃F : Float⦄ (m : LifecycleManager) (c : Keys.IsConfigured m)
    (request driver rider : String) (status_ttl ttl : ℕ) (live : 0 < ttl) (d : R.Db) where
  open R use {get, hget, exists, set_ex, hset, expire, del}

  abbrev after : R.Db
  after = after_cancel m request driver rider status_ttl ttl d

  -- The stages of the script.
  abbrev freed : R.Db
  freed =
      if is_text (get d (driver_status_key m driver)) "busy"
      then set_ex d (driver_status_key m driver) "available" status_ttl
      else d

  abbrev marked : R.Db
  marked =
      expire (hset freed (assignment_key m request) (("status", "cancelled") ∷ []))
        (assignment_key m request) ttl

  abbrev unlocked : R.Db
  unlocked =
      if is_text (get d (lock_key m.lock_manager driver)) request
      then del marked (lock_key m.lock_manager driver)
      else marked

  freed-SameAt : (j : String) → driver_status_key m driver ≢ j → SameAt j d freed
  freed-SameAt j ne =
      SameAt-if _ (set_ex-SameAt d (driver_status_key m driver) j ne "available" status_ttl)
        (SameAt-refl j d)

  marked-SameAt :
      (j : String)
      → driver_status_key m driver ≢ j
      → assignment_key m request ≢ j
      → SameAt j d marked
  marked-SameAt j ns na = SameAt-trans (freed-SameAt j ns) (
      SameAt-trans
        (hset-SameAt freed (assignment_key m request) j na (("status", "cancelled") ∷ []))
        (expire-SameAt _ (assignment_key m request) ttl j live))

  unlocked-SameAt : (j : String) → lock_key m.lock_manager driver ≢ j → SameAt j marked unlocked
  unlocked-SameAt j nl =
      SameAt-if _ (del-SameAt marked (lock_key m.lock_manager driver) j nl) (SameAt-refl j marked)

  -- The stages after the lock's.
  ended-SameAt :
      (j : String)
      → active_rider_key m rider ≢ j
      → active_driver_key m driver ≢ j
      → SameAt j unlocked after
  unfolding cancel_writes
  ended-SameAt j nr nd =
      SameAt-trans (del_if-SameAt (active_rider_key m rider) request unlocked j nr)
        (del-SameAt _ (active_driver_key m driver) j nd)

  pub hget-cancelled :
      (f : String)
      → hget d (assignment_key m request) "status" ≡ some "en_route"
      → hget after (assignment_key m request) f
        ≡ or_else (lookup f (("status", "cancelled") ∷ [])) (hget d (assignment_key m request) f)
  hget-cancelled f en_route =
      (ended-SameAt (assignment_key m request) (Keys.rider_ne_assignment m c rider request)
          (Keys.driver_ne_assignment m c driver request)).hgets
        f
      ∙ (unlocked-SameAt (assignment_key m request)
            (Keys.lock_ne_assignment m c driver request)).hgets
          f
      ∙ R.hget-expire _ (assignment_key m request) ttl (assignment_key m request) f live
      ∙ R.hget-hset freed (assignment_key m request) (("status", "cancelled") ∷ []) f "status"
          "en_route" (same.hgets "status" ∙ en_route)
      ∙ ap (or_else (lookup f (("status", "cancelled") ∷ []))) (same.hgets f)
    where
      same : SameAt (assignment_key m request) d freed
      same = freed-SameAt (assignment_key m request) (Keys.status_ne_assignment m c driver request)

  pub owner-cancelled : get after (active_driver_key m driver) ≡ none
  unfolding cancel_writes
  owner-cancelled = get-del _ (active_driver_key m driver)

  rider_before : SameAt (active_rider_key m rider) d unlocked
  rider_before =
      SameAt-trans
        (marked-SameAt (active_rider_key m rider) (Keys.status_ne_rider m c driver rider)
          (Keys.assignment_ne_rider m c request rider))
        (unlocked-SameAt (active_rider_key m rider) (Keys.lock_ne_rider m c driver rider))

  rider_last :
      get after (active_rider_key m rider)
      ≡ get (dropped (active_rider_key m rider) request unlocked) (active_rider_key m rider)
  unfolding cancel_writes
  rider_last =
      R.get-del_ne _ (active_driver_key m driver) (active_rider_key m rider)
        (Keys.driver_ne_rider m c driver rider)

  -- The rider's active key goes if it names the ride, and stays if it names another.
  pub rider-cancelled :
      get d (active_rider_key m rider) ≡ some request → get after (active_rider_key m rider) ≡ none
  rider-cancelled e =
      rider_last ∙ dropped_own (active_rider_key m rider) request unlocked (rider_before.gets ∙ e)

  pub rider-cancelled_other :
      (q : String)
      → q ≢ request
      → get d (active_rider_key m rider) ≡ some q
      → get after (active_rider_key m rider) ≡ some q
  rider-cancelled_other q ne e =
      rider_last
      ∙ dropped_other (active_rider_key m rider) request unlocked q ne (rider_before.gets ∙ e)

  pub rider-cancelled_gone : get after (active_rider_key m rider) ≢ some request
  rider-cancelled_gone e =
      dropped_gone (active_rider_key m rider) request unlocked (sym rider_last ∙ e)

  -- The lock is free afterwards, whether the request held it or nobody did.
  pub lock-cancelled_free :
      is_other (get d (lock_key m.lock_manager driver)) request ≡ false
      → get after (lock_key m.lock_manager driver) ≡ none
  lock-cancelled_free h =
      (ended-SameAt (lock_key m.lock_manager driver) (Keys.rider_ne_lock m c rider driver)
        (Keys.driver_ne_lock m c driver driver)).gets
      ∙ branch (get d (lock_key m.lock_manager driver)) h
          (marked-SameAt (lock_key m.lock_manager driver) (Keys.status_ne_lock m c driver driver)
            (Keys.assignment_ne_lock m c request driver)).gets
    where
      branch :
          (o : Option String)
          → is_other o request ≡ false
          → get marked (lock_key m.lock_manager driver) ≡ o
          → get
              (if is_text o request then del marked (lock_key m.lock_manager driver) else marked)
              (lock_key m.lock_manager driver)
            ≡ none
      branch none h e = e
      branch (some q) h e = elim (Bool-cases (q == request)) [
        | inl own ↦ rw own (get-del marked (lock_key m.lock_manager driver))
        | inr other ↦ absurd (cc (h, ap not other))
      ]

  pub lock-cancelled :
      get d (lock_key m.lock_manager driver) ≡ some request
      → get after (lock_key m.lock_manager driver) ≡ none
  lock-cancelled e =
      (ended-SameAt (lock_key m.lock_manager driver) (Keys.rider_ne_lock m c rider driver)
        (Keys.driver_ne_lock m c driver driver)).gets
      ∙ rw (e, is_text_self request) (get-del marked (lock_key m.lock_manager driver))

  status_stages : SameAt (driver_status_key m driver) freed after
  status_stages =
      SameAt-trans
        (hset-SameAt freed (assignment_key m request) (driver_status_key m driver)
          (Keys.assignment_ne_status m c request driver) (("status", "cancelled") ∷ []))
        (SameAt-trans
          (expire-SameAt _ (assignment_key m request) ttl (driver_status_key m driver) live)
          (SameAt-trans
            (unlocked-SameAt (driver_status_key m driver) (Keys.lock_ne_status m c driver driver))
            (ended-SameAt (driver_status_key m driver) (Keys.rider_ne_status m c rider driver)
              (Keys.driver_ne_status m c driver driver))))

  -- A busy driver becomes available; any other status stays.
  pub status-cancelled :
      0 < status_ttl
      → get after (driver_status_key m driver) ≡ (
          if is_text (get d (driver_status_key m driver)) "busy"
          then some "available"
          else get d (driver_status_key m driver))
  status-cancelled s =
      status_stages.gets ∙ branch (is_text (get d (driver_status_key m driver)) "busy")
    where
      branch :
          (b : Bool)
          → get
              (if b then set_ex d (driver_status_key m driver) "available" status_ttl else d)
              (driver_status_key m driver)
            ≡ (if b then some "available" else get d (driver_status_key m driver))
      branch true = R.get-set_ex d (driver_status_key m driver) "available" status_ttl s
      branch false = refl
