-- ===== src/Realtime/Replacing.antt =====
-- A new connection under the id of an old one.
use geo_spatial_dispatch_ser.Prelude.{◌≡◌, ◌≢◌, refl, sym, ◌∙◌, false, arith, Bool-cases, inl, inr}
use geo_spatial_dispatch_ser.Float.{Float}
use geo_spatial_dispatch_ser.Realtime.Clients.{is_driver}
use geo_spatial_dispatch_ser.Realtime.Registry.{Ref, find}
use geo_spatial_dispatch_ser.Realtime.Systems.{System, is_current}
use geo_spatial_dispatch_ser.Realtime.Hub.{register_client, unregister_client}
use geo_spatial_dispatch_ser.Realtime.Bounds.{register_client-Tame}
use geo_spatial_dispatch_ser.Realtime.Kept.{
  registry_of, IsConnected, IsClosed, close_old-done, register_client-IsConnected,
}

module _ ⦃F : Float⦄ {D : Type 0} where
  -- Unregistering a client that is not the current one of its id and type.
  pub unregister_stale :
      (r : Ref) (s : System D)
      → is_current r (find (s.clients r).id (registry_of (s.clients r) s)) ≡ false
      → unregister_client r s ≡ s
  unfolding unregister_client
  unregister_stale r s e = elim (Bool-cases (is_driver (s.clients r))) [
    | inl kind ↦ let stale = rw kind at e in rw (kind, stale) refl
    | inr kind ↦ let stale = rw kind at e in rw (kind, stale) refl
  ]

  replaced-IsClosed :
      (q r : Ref) (s : System D)
      → (s.clients q).id ≡ (s.clients r).id
      → (s.clients q).kind ≡ (s.clients r).kind
      → IsConnected r s
      → IsClosed r (register_client q s)
  unfolding register_client is_driver
  replaced-IsClosed q r s id kind e =
      let there = rw (sym id, sym kind) at e in
      elim (Bool-cases (is_driver (s.clients q))) [
        | inl kq ↦ rw kq (close_old-done _ r s.clients (rw kq at there))
        | inr kq ↦ rw kq (close_old-done _ r s.clients (rw kq at there))
      ]

  -- Where another client of the same id and type is in the hub, registering a client closes the other,
  -- puts the new one in its place, and a later unregistering of the other changes nothing.
  pub register_client-replaces :
      (q r : Ref) (s : System D)
      → q ≢ r
      → (s.clients q).id ≡ (s.clients r).id
      → (s.clients q).kind ≡ (s.clients r).kind
      → IsConnected r s
      → let t = register_client q s in IsClosed r t × IsConnected q t × (unregister_client r t ≡ t)
  unfolding is_current is_driver
  register_client-replaces q r s ne id kind e =
      let t = register_client q s in
      let at_q = register_client-Tame q s q in
      let at_r = register_client-Tame q s r in
      let new = register_client-IsConnected q s in
      (
        replaced-IsClosed q r s id kind e,
        new,
        unregister_stale r t
            (stale t (at_q.id ∙ id ∙ sym at_r.id) (at_q.kind ∙ kind ∙ sym at_r.kind) new),
      )
    where
      stale :
          (t : System D)
          → (t.clients q).id ≡ (t.clients r).id
          → (t.clients q).kind ≡ (t.clients r).kind
          → IsConnected q t
          → is_current r (find (t.clients r).id (registry_of (t.clients r) t)) ≡ false
      stale t i k c = rw (rw (i, k) at c) (ground arith)
