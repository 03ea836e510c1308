-- ===== src/Lifecycle/Replies.antt =====
-- internal/dispatch/lifecycle.go: what `cancel` makes of the replies of its script.
use geo_spatial_dispatch_ser.Prelude.{◌≡◌, refl, ℤ, pos, negsuc, zero, suc}
use geo_spatial_dispatch_ser.Result.{ok}
use geo_spatial_dispatch_ser.Redis.{Redis}
use geo_spatial_dispatch_ser.Float.{Float}
use geo_spatial_dispatch_ser.Client.{World, pure, raise}
use geo_spatial_dispatch_ser.Lifecycle.Types.{Assignment, cancelled}
use geo_spatial_dispatch_ser.Lifecycle.Manager.{was_cancelled}

module _ ⦃R : Redis⦄ ⦃F : Float⦄ where
  open R use {Db}

  module _ (a b : Assignment) where
    pub was_cancelled_world : (reply : ℤ) (w : World Db) → (was_cancelled a reply w).1 ≡ w
    unfolding pure raise
    was_cancelled_world (pos zero) w = refl
    was_cancelled_world (pos (suc zero)) w = refl
    was_cancelled_world (pos (suc (suc n))) w = refl
    was_cancelled_world (negsuc zero) w = refl
    was_cancelled_world (negsuc (suc zero)) w = refl
    was_cancelled_world (negsuc (suc (suc zero))) w = refl
    was_cancelled_world (negsuc (suc (suc (suc zero)))) w = refl
    was_cancelled_world (negsuc (suc (suc (suc (suc n))))) w = refl

    pub was_cancelled_one :
        (reply : ℤ) (w : World Db)
        → (was_cancelled a reply w).0 ≡ ok b
        → (reply ≡ pos 1) × (b ≡ record a { status = cancelled })
    unfolding pure raise
    was_cancelled_one (pos zero) w h = cc
    was_cancelled_one (pos (suc zero)) w h = (refl, cc)
    was_cancelled_one (pos (suc (suc n))) w h = cc
    was_cancelled_one (negsuc zero) w h = cc
    was_cancelled_one (negsuc (suc zero)) w h = cc
    was_cancelled_one (negsuc (suc (suc zero))) w h = cc
    was_cancelled_one (negsuc (suc (suc (suc zero)))) w h = cc
    was_cancelled_one (negsuc (suc (suc (suc (suc n))))) w h = cc
