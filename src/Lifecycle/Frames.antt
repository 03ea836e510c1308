-- ===== src/Lifecycle/Frames.antt =====
-- What the lifecycle scripts leave alone: every key that they do not name.
use geo_spatial_dispatch_ser.Prelude.{ℕ, ◌<◌, String, ◌≢◌, [], ◌∷◌}
use geo_spatial_dispatch_ser.Redis.{Redis}
use geo_spatial_dispatch_ser.Redis.Frame.{
  SameAt, SameAt-refl, SameAt-trans, SameAt-if, set_ex-SameAt, del-SameAt, hset-SameAt,
  expire-SameAt,
}
use geo_spatial_dispatch_ser.Lifecycle.Scripts.{
  is_text, assignment_fields, create_writes, cancel_writes, arrive_writes, del_if,
}

module _ ⦃R : Redis⦄ where
  open R use {Db, get, hget, exists, set_ex, del, expire, hset}

  pub create_writes-SameAt :
      (k1 k2 k3 request rider driver lon lat : String) (ttl : ℕ) (d : Db) (j : String)
      → 0 < ttl
      → k1 ≢ j
      → k2 ≢ j
      → k3 ≢ j
      → SameAt j d (create_writes k1 k2 k3 request rider driver lon lat ttl d)
  unfolding create_writes
  create_writes-SameAt k1 k2 k3 request rider driver lon lat ttl d j live n1 n2 n3 =
      SameAt-trans (hset-SameAt d k1 j n1 (assignment_fields request rider driver lon lat)) (
        SameAt-trans (expire-SameAt _ k1 ttl j live) (
          SameAt-trans (set_ex-SameAt _ k2 j n2 request ttl) (set_ex-SameAt _ k3 j n3 request ttl)))

  pub cancel_writes-SameAt :
      (k1 k2 k3 k4 k5 request : String) (status_ttl assignment_ttl : ℕ) (d : Db) (j : String)
      → 0 < assignment_ttl
      → k1 ≢ j
      → k2 ≢ j
      → k3 ≢ j
      → k4 ≢ j
      → k5 ≢ j
      → SameAt j d (cancel_writes k1 k2 k3 k4 k5 request status_ttl assignment_ttl d)
  unfolding cancel_writes
  cancel_writes-SameAt k1 k2 k3 k4 k5 request status_ttl assignment_ttl d j live n1 n2 n3 n4 n5 =
      SameAt-trans
        (SameAt-if (is_text (get d k2) "busy") (set_ex-SameAt d k2 j n2 "available" status_ttl)
          (SameAt-refl j d))
        (SameAt-trans (hset-SameAt _ k1 j n1 (("status", "cancelled") ∷ [])) (
          SameAt-trans (expire-SameAt _ k1 assignment_ttl j live) (
            SameAt-trans (SameAt-if _ (del-SameAt _ k3 j n3) (SameAt-refl j _)) (
              SameAt-trans (SameAt-if _ (del-SameAt _ k4 j n4) (SameAt-refl j _))
                (del-SameAt _ k5 j n5)))))

  pub arrive_writes-SameAt :
      (k1 k2 k3 k4 : String) (assignment_ttl status_ttl : ℕ) (d : Db) (j : String)
      → 0 < assignment_ttl
      → 0 < status_ttl
      → k1 ≢ j
      → SameAt j d (arrive_writes k1 k2 k3 k4 assignment_ttl status_ttl d)
  unfolding arrive_writes
  arrive_writes-SameAt k1 k2 k3 k4 assignment_ttl status_ttl d j live1 live2 n1 =
      SameAt-trans (hset-SameAt d k1 j n1 (("status", "arrived") ∷ [])) (
        SameAt-trans (expire-SameAt _ k1 assignment_ttl j live1) (
          SameAt-trans (expire-SameAt _ k2 assignment_ttl j live1) (
            SameAt-trans (expire-SameAt _ k3 assignment_ttl j live1)
              (expire-SameAt _ k4 status_ttl j live2))))

  pub del_if-SameAt :
      (k request : String) (d : Db) (j : String) → k ≢ j → SameAt j d (del_if k request d)
  del_if-SameAt k request d j ne = SameAt-if _ (del-SameAt d k j ne) (SameAt-refl j d)
