-- ===== src/Lifecycle/Guards.antt =====
-- What holds of the database when a lifecycle script writes: the guards that it has passed.
use geo_spatial_dispatch_ser.Prelude.{
  ℕ, String, ◌≡◌, ◌⊎◌, inr, true, false, Option, none, some, ℤ, pos, refl, arith, eq_iff, eq_refl,
  ap, join_key,
}
use geo_spatial_dispatch_ser.Redis.{Redis}
use geo_spatial_dispatch_ser.Lifecycle.Scripts.{
  is_text, is_other, is_active, active_status, create_writes, create_assignment_script,
  cancel_writes, cancel_assignment_script, arrive_writes, arrive_assignment_script,
  refresh_active_driver_script, refresh_owned,
}

pub is_text-eq : (o : Option String) (s : String) → is_text o s ≡ true → o ≡ some s
is_text-eq none s h = cc
is_text-eq (some t) s h = ap some ((eq_iff t s).0 h)

pub is_text_self : (s : String) → is_text (some s) s ≡ true
is_text_self s = eq_refl s

module _ ⦃R : Redis⦄ where
  open R use {Db, get, hget, exists, set_ex, del, expire, hset}

  module _ (k1 k2 k3 prefix request rider driver lon lat : String) (ttl : ℕ) (d : Db) where
    abbrev pub Creates : Type 0
    Creates =
        (is_active (active_status prefix (get d k2) d) ≡ false)
        × (exists d k1 ≡ false)
        × (is_other (get d k3) request ≡ false)

    -- The script passes its guards and writes, or it changes nothing and does not answer 1.
    pub create-cases :
        let (reply, d') =
          create_assignment_script k1 k2 k3 prefix request rider driver lon lat ttl d in
        (Creates
          × (reply ≡ pos 1)
          × (d' ≡ create_writes k1 k2 k3 request rider driver lon lat ttl d))
        ⊎ (¬ (reply ≡ pos 1) × (d' ≡ d))
    unfolding create_assignment_script
    create-cases = ground arith

    -- The guards are exactly what the script asks for.
    pub create-passes :
        Creates
        → create_assignment_script k1 k2 k3 prefix request rider driver lon lat ttl d
          ≡ (pos 1, create_writes k1 k2 k3 request rider driver lon lat ttl d)
    unfolding create_assignment_script
    create-passes (idle, new, unowned) = rw (idle, new, unowned) refl

  module _ (k1 k2 k3 k4 k5 request driver rider : String) (status_ttl assignment_ttl : ℕ)
      (d : Db) where
    abbrev pub Cancels : Type 0
    Cancels =
        (exists d k1 ≡ true)
        × (hget d k1 "status" ≡ some "en_route")
        × (hget d k1 "driver_id" ≡ some driver)
        × (hget d k1 "rider_id" ≡ some rider)
        × (get d k5 ≡ some request)
        × (is_other (get d k3) request ≡ false)

    pub cancel-cases :
        let (reply, d') =
          cancel_assignment_script k1 k2 k3 k4 k5 request driver rider status_ttl assignment_ttl
            d in
        (Cancels
          × (reply ≡ pos 1)
          × (d' ≡ cancel_writes k1 k2 k3 k4 k5 request status_ttl assignment_ttl d))
        ⊎ (¬ (reply ≡ pos 1) × (d' ≡ d))
    unfolding cancel_assignment_script
    cancel-cases = ground (
      arith,
      is_text-eq (hget d k1 "status") "en_route",
      is_text-eq (hget d k1 "driver_id") driver,
      is_text-eq (hget d k1 "rider_id") rider,
      is_text-eq (get d k5) request,
    )

    pub cancel-passes :
        Cancels
        → cancel_assignment_script k1 k2 k3 k4 k5 request driver rider status_ttl assignment_ttl d
          ≡ (pos 1, cancel_writes k1 k2 k3 k4 k5 request status_ttl assignment_ttl d)
    unfolding cancel_assignment_script
    cancel-passes (there, running, of_driver, of_rider, owned, lock) =
        rw
          (
            there,
            running,
            of_driver,
            of_rider,
            owned,
            lock,
            is_text_self driver,
            is_text_self rider,
            is_text_self request,
          )
          refl

  module _ (k1 k2 k3 k4 request : String) (assignment_ttl status_ttl : ℕ) (d : Db) where
    abbrev pub Arrives : Type 0
    Arrives =
        (exists d k1 ≡ true)
        × (hget d k1 "status" ≡ some "en_route")
        × (get d k2 ≡ some request)
        × (get d k3 ≡ some request)
        × (get d k4 ≡ some "busy")

    pub arrive-cases :
        let (reply, d') =
          arrive_assignment_script k1 k2 k3 k4 request assignment_ttl status_ttl d in
        (Arrives × (reply ≡ pos 1) × (d' ≡ arrive_writes k1 k2 k3 k4 assignment_ttl status_ttl d))
        ⊎ (¬ (reply ≡ pos 1) × (d' ≡ d))
    unfolding arrive_assignment_script
    arrive-cases = ground (
      arith,
      is_text-eq (hget d k1 "status") "en_route",
      is_text-eq (get d k2) request,
      is_text-eq (get d k3) request,
      is_text-eq (get d k4) "busy",
    )

    pub arrive-passes :
        Arrives
        → arrive_assignment_script k1 k2 k3 k4 request assignment_ttl status_ttl d
          ≡ (pos 1, arrive_writes k1 k2 k3 k4 assignment_ttl status_ttl d)
    unfolding arrive_assignment_script
    arrive-passes (there, running, riding, owned, busy) =
        rw (there, running, riding, owned, busy, is_text_self request) refl

  module _ (k1 k2 prefix driver : String) (ttl : ℕ) (d : Db) where
    -- The driver's active key names an assignment of this driver that is active.
    abbrev pub Refreshes : Option String → Type 0
    Refreshes o =
        (r : String) × (o ≡ some r)
        × (hget d (join_key prefix r) "driver_id" ≡ some driver)
        × (is_active (hget d (join_key prefix r) "status") ≡ true)

    abbrev pub Refreshed : Option String → ℤ × Db → Type 0
    Refreshed o (reply, d') =
        (Refreshes o × (reply ≡ pos 1) × (d' ≡ set_ex d k2 "busy" ttl))
        ⊎ (¬ (reply ≡ pos 1) × (d' ≡ d))

    refresh_owned-cases : (o : Option String) → Refreshed o (refresh_owned k2 prefix driver ttl o d)
    refresh_owned-cases none = inr ((λ e. cc), refl)
    refresh_owned-cases (some r) =
        ground (arith, is_text-eq (hget d (join_key prefix r) "driver_id") driver)

    pub refresh-cases :
        Refreshed (get d k1) (refresh_active_driver_script k1 k2 prefix driver ttl d)
    unfolding refresh_active_driver_script
    refresh-cases = refresh_owned-cases (get d k1)
