-- ===== src/Realtime/Kept.antt =====
-- A connection that the hub has taken stays in its map until it is closed.
use geo_spatial_dispatch_ser.Prelude.{
  String, ◌==◌, eq_iff, eq_refl, ◌≡◌, refl, ◌∙◌, true, Option, none, some, some-inj, [], ◌∷◌, arith,
  Bool-cases, inl, inr, ◌⊎◌, if◌then◌else◌,
}
use geo_spatial_dispatch_ser.Float.{Float}
use geo_spatial_dispatch_ser.Realtime.Clients.{Client, close, is_driver}
use geo_spatial_dispatch_ser.Realtime.Registry.{
  Ref, Registry, find, put, delete, find-put, find-delete,
}
use geo_spatial_dispatch_ser.Realtime.Systems.{
  System, Heap, modify, close_old, close_each, is_current,
}
use geo_spatial_dispatch_ser.Realtime.Hub.{register_client, unregister_client, close_all_clients}
use geo_spatial_dispatch_ser.Realtime.Running.{shut_down}
use geo_spatial_dispatch_ser.Realtime.Tame.{Tame, close_each-Tame}
use geo_spatial_dispatch_ser.Realtime.Bounds.{register_client-Tame, unregister_client-Tame}

pub close-done : (r : Ref) (heap : Heap) → (modify r close heap r).done ≡ true
unfolding modify close
close-done r heap = ground arith

pub close_old-done :
    (o : Option Ref) (r : Ref) (heap : Heap) → o ≡ some r → (close_old o heap r).done ≡ true
unfolding close_old
close_old-done none r heap e = absurd (cc e)
close_old-done (some q) r heap e = rw (some-inj e) (close-done r heap)

-- Every client of a map is closed by the loop over it.
pub close_each-done :
    (id : String) (r : Ref) (m : Registry) (heap : Heap)
    → find id m ≡ some r
    → (close_each m heap r).done ≡ true
unfolding close_each find
close_each-done id r [] heap e = absurd (cc e)
close_each-done id r ((k, q) ∷ rest) heap e = elim (Bool-cases (k == id)) [
  | inl here ↦
      let it : q ≡ r = some-inj (rw here at e) in
      let tame = close_each-Tame rest (modify q close heap) r in
      tame.done (rw it (close-done r heap))
  | inr other ↦ close_each-done id r rest (modify q close heap) (rw other at e)
]

-- Putting a client under an id closes the one that was there, and leaves the other ids alone.
put-kept :
    (q r : Ref) (id own : String) (m : Registry) (heap : Heap)
    → find own m ≡ some r
    → (find own (put id q m) ≡ some r) ⊎ ((close_old (find id m) heap r).done ≡ true)
put-kept q r id own m heap e = elim (Bool-cases (id == own)) [
  | inl same ↦ inr (close_old-done _ r heap (rw ((eq_iff id own).0 same) e))
  | inr other ↦ inl (find-put own id q m ∙ rw other e)
]

-- Deleting the entry of a client that is there closes it, and leaves the other ids alone.
delete-kept :
    (q r : Ref) (id own : String) (m : Registry) (heap : Heap)
    → find own m ≡ some r
    → is_current q (find id m) ≡ true
    → (find own (delete id m) ≡ some r) ⊎ ((modify q close heap r).done ≡ true)
unfolding is_current
delete-kept q r id own m heap e current = elim (Bool-cases (id == own)) [
  | inl same ↦
      let there : find id m ≡ some r = rw ((eq_iff id own).0 same) e in
      let it : r ≡ q = ground arith in inr (rw it (close-done q heap))
  | inr other ↦ inl (find-delete own id m ∙ rw other e)
]

pub put_there : (id : String) (r : Ref) (m : Registry) → find id (put id r m) ≡ some r
put_there id r m = find-put id id r m ∙ rw (eq_refl id) refl

module _ ⦃F : Float⦄ {D : Type 0} where
  -- The map for clients of the type of `c`.
  abbrev pub registry_of : Client → System D → Registry
  registry_of c s = if is_driver c then s.hub.drivers else s.hub.riders

  abbrev pub IsConnected : Ref → System D → Type 0
  IsConnected r s = find (s.clients r).id (registry_of (s.clients r) s) ≡ some r

  abbrev pub IsClosed : Ref → System D → Type 0
  IsClosed r s = (s.clients r).done ≡ true

  abbrev pub IsKept : Ref → System D → Type 0
  IsKept r s = IsConnected r s ⊎ IsClosed r s

  -- A step with the same maps.
  pub same_maps :
      (r : Ref) (s t : System D)
      → Tame (s.clients r) (t.clients r)
      → t.hub.drivers ≡ s.hub.drivers
      → t.hub.riders ≡ s.hub.riders
      → IsConnected r s
      → IsConnected r t
  unfolding is_driver
  same_maps r s t tame d q e = rw (tame.id, tame.kind, d, q) e

  pub register_client-IsKept :
      (q r : Ref) (s : System D) → IsConnected r s → IsKept r (register_client q s)
  unfolding register_client is_driver
  register_client-IsKept q r s e =
      let tame = register_client-Tame q s r in
      rw (tame.id, tame.kind)
        (elim (Bool-cases (is_driver (s.clients q))) [
          | inl kq ↦ rw kq (elim (Bool-cases (is_driver (s.clients r))) [
            | inl kr ↦ rw kr (put-kept q r _ _ s.hub.drivers s.clients (rw kr at e))
            | inr kr ↦ rw kr (inl (rw kr at e))
          ])
          | inr kq ↦ rw kq (elim (Bool-cases (is_driver (s.clients r))) [
            | inl kr ↦ rw kr (inl (rw kr at e))
            | inr kr ↦ rw kr (put-kept q r _ _ s.hub.riders s.clients (rw kr at e))
          ])
        ])

  pub unregister_client-IsKept :
      (q r : Ref) (s : System D) → IsConnected r s → IsKept r (unregister_client q s)
  unfolding unregister_client is_driver
  unregister_client-IsKept q r s e =
      let tame = unregister_client-Tame q s r in
      rw (tame.id, tame.kind)
        (elim (Bool-cases (is_driver (s.clients q))) [
          | inl kq ↦ rw kq (elim (Bool-cases (is_current q (find (s.clients q).id s.hub.drivers))) [
            | inl now ↦ rw now (elim (Bool-cases (is_driver (s.clients r))) [
              | inl kr ↦ rw kr (delete-kept q r _ _ s.hub.drivers s.clients (rw kr at e) now)
              | inr kr ↦ rw kr (inl (rw kr at e))
            ])
            | inr old ↦ rw old (inl e)
          ])
          | inr kq ↦ rw kq (elim (Bool-cases (is_current q (find (s.clients q).id s.hub.riders))) [
            | inl now ↦ rw now (elim (Bool-cases (is_driver (s.clients r))) [
              | inl kr ↦ rw kr (inl (rw kr at e))
              | inr kr ↦ rw kr (delete-kept q r _ _ s.hub.riders s.clients (rw kr at e) now)
            ])
            | inr old ↦ rw old (inl e)
          ])
        ])

  pub shut_down-IsClosed : (r : Ref) (s : System D) → IsConnected r s → IsClosed r (shut_down s)
  unfolding shut_down close_all_clients
  shut_down-IsClosed r s e = elim (Bool-cases (is_driver (s.clients r))) [
    | inl kr ↦
        let tame = close_each-Tame s.hub.riders (close_each s.hub.drivers s.clients) r in
        tame.done (close_each-done _ r s.hub.drivers s.clients (rw kr at e))
    | inr kr ↦ close_each-done _ r s.hub.riders _ (rw kr at e)
  ]

  pub register_client-IsConnected : (r : Ref) (s : System D) → IsConnected r (register_client r s)
  unfolding register_client is_driver
  register_client-IsConnected r s =
      let tame = register_client-Tame r s r in
      rw (tame.id, tame.kind)
        (elim (Bool-cases (is_driver (s.clients r))) [
          | inl kr ↦ rw kr (put_there (s.clients r).id r s.hub.drivers)
          | inr kr ↦ rw kr (put_there (s.clients r).id r s.hub.riders)
        ])
