-- ===== src/Realtime/Naming.antt =====
-- internal/realtime/hub.go: the clients that a map of the hub has under their ids.
use Prim.Native.Nat.{◌<◌}
use geo_spatial_dispatch_ser.Prelude.{
  suc, String, ◌≡◌, sym, ◌∙◌, Bool, false, some, arith, inl, inr, nat_eq,
}
use geo_spatial_dispatch_ser.Realtime.Clients.{Client, is_driver}
use geo_spatial_dispatch_ser.Realtime.Registry.{
  Ref, Registry, find, put, delete, found-put, found-delete,
}
use geo_spatial_dispatch_ser.Realtime.Systems.{Heap, modify}
use geo_spatial_dispatch_ser.Realtime.Tame.{TameHeap}

-- The entries of a map are of clients that exist, under their ids, all of the given type.
abbrev pub Named : Bool → Registry → Heap → Ref → Type 0
Named flag m heap next =
    (id : String) (r : Ref)
    → find id m ≡ some r
    → ((heap r).id ≡ id) × (is_driver (heap r) ≡ flag) × (r < next)

pub Named-Tame :
    (flag : Bool) (m : Registry) (g h : Heap) (next : Ref)
    → TameHeap g h
    → Named flag m g next
    → Named flag m h next
unfolding is_driver
Named-Tame flag m g h next tame named id r e =
    let n = named id r e in let t = tame r in (t.id ∙ n.0, rw t.kind n.1, n.2)

pub Named-put :
    (flag : Bool) (m : Registry) (h : Heap) (next r : Ref)
    → is_driver (h r) ≡ flag
    → r < next
    → Named flag m h next
    → Named flag (put (h r).id r m) h next
Named-put flag m h next r kind bound named id q e = elim (found-put id (h r).id r q m e) [
  | inl (same, it) ↦ rw (sym it) (same, kind, bound)
  | inr there ↦ named id q there
]

pub Named-delete :
    (flag : Bool) (m : Registry) (h : Heap) (next : Ref) (id : String)
    → Named flag m h next
    → Named flag (delete id m) h next
Named-delete flag m h next id named i q e = named i q (found-delete i id q m e).1

pub Named-connect :
    (flag : Bool) (m : Registry) (heap : Heap) (next : Ref) (c : Client)
    → Named flag m heap next
    → Named flag m (modify next (λ _. c) heap) (suc next)
unfolding modify
Named-connect flag m heap next c named id r e =
    let (n, k, b) = named id r e in
    let other : nat_eq r next ≡ false = ground arith in rw other (n, k, omega arith)
