-- ===== src/Realtime/Broadcast.antt =====
-- Who gets a driver's location: the riders of the hub that have subscribed to the driver.
use geo_spatial_dispatch_ser.Prelude.{
  ℕ, String, ◌==◌, eq_iff, eq_refl, ◌≡◌, ◌≢◌, refl, ◌∙◌, Bool, true, false, not, ◌&&◌, Option, none,
  some, some-inj, [], ◌∷◌, ◌++◌, arith, Bool-cases, inl, inr, if◌then◌else◌, nat_eq, ltb,
}
use geo_spatial_dispatch_ser.Result.{ok}
use geo_spatial_dispatch_ser.Float.{Float}
use geo_spatial_dispatch_ser.Realtime.Messages.{Json, LocationPayload}
use geo_spatial_dispatch_ser.Realtime.Clients.{
  Client, is_subscribed_to, send_bytes, length, send_capacity,
}
use geo_spatial_dispatch_ser.Realtime.Registry.{Ref, Registry, find, IsMap}
use geo_spatial_dispatch_ser.Realtime.Systems.{System, Heap, is_current, modify}
use geo_spatial_dispatch_ser.Realtime.Hub.{
  fan_out, broadcast_frame, location_message, handle_location_broadcast,
}
use geo_spatial_dispatch_ser.Realtime.Sound.{IsSound}

apart_names :
    (own : Ref → String) {k : String} {r x : Ref} → own r ≡ k → (k == own x) ≡ false → r ≢ x
apart_names own {k} {r} {x} e there same = cc (e, same, there, eq_refl (own x))

current_found : (r : Ref) (o : Option Ref) → is_current r o ≡ true → o ≡ some r
unfolding is_current
current_found r none e = absurd (cc e)
current_found r (some q) e = ground arith

not_found : (r : Ref) (o : Option Ref) → is_current r o ≡ false → o ≢ some r
unfolding is_current
not_found r none e f = cc f
not_found r (some q) e f = ground (arith, some-inj f)

module _ (pick : Ref → Bool) (driver_id frame : String) where
  -- What the loop does to one rider.
  abbrev visited : Ref → Client → Client
  visited r c = if is_subscribed_to driver_id c then (send_bytes (pick r) frame c).1 else c

  abbrev next_heap : Ref → Heap → Heap
  next_heap r heap =
      if is_subscribed_to driver_id (heap r)
      then modify r (λ c. (send_bytes (pick r) frame c).1) heap
      else heap

  visited-receives :
      (r : Ref) (c : Client)
      → visited r c ≡ (
          if c.subscribed driver_id && (ltb (length c.send) send_capacity && not (c.done && pick r))
          then record c { send = c.send ++ (frame ∷ []) }
          else c)
  unfolding send_bytes is_subscribed_to
  visited-receives r c = ground arith

  next_self : (r : Ref) (heap : Heap) → next_heap r heap r ≡ visited r (heap r)
  unfolding modify
  next_self r heap = ground arith

  next_other : (r x : Ref) (heap : Heap) → r ≢ x → next_heap r heap x ≡ heap x
  unfolding modify
  next_other r x heap ne = ground arith

  next_idle : (r x : Ref) (heap : Heap) → visited x (heap x) ≡ heap x → next_heap r heap x ≡ heap x
  next_idle r x heap idle = elim (Bool-cases (nat_eq r x)) [
    | inl same ↦ let e : r ≡ x = ground arith in rw e (next_self x heap ∙ idle)
    | inr other ↦ next_other r x heap (ground arith)
  ]

  -- A client to which a visit does nothing.
  idle :
      (x : Ref) (m : Registry) (heap : Heap)
      → visited x (heap x) ≡ heap x
      → fan_out pick driver_id frame m heap x ≡ heap x
  unfolding fan_out
  idle x [] heap e = refl
  idle x ((k, r) ∷ rest) heap e =
      let here = next_idle r x heap e in idle x rest (next_heap r heap) (rw here e) ∙ here

  -- A client that the map does not have.
  missed :
      (x : Ref) (m : Registry) (heap : Heap)
      → IsMap m
      → ((id : String) → find id m ≢ some x)
      → fan_out pick driver_id frame m heap x ≡ heap x
  unfolding fan_out find
  missed x [] heap h none_of = refl
  missed x ((k, r) ∷ rest) heap h none_of =
      missed x rest (next_heap r heap) h.1 below ∙ next_other r x heap first
    where
      first : r ≢ x
      first e = none_of k (rw (eq_refl k) (rw e refl))

      below : (id : String) → find id rest ≢ some x
      below id e = elim (Bool-cases (k == id)) [
        | inl same ↦ cc (h.0, (eq_iff k id).0 same, e)
        | inr other ↦ none_of id (rw other e)
      ]

  -- A client that the map has, where each entry stands under the client's own name.
  hit :
      (own : Ref → String) (x : Ref) (m : Registry) (heap : Heap)
      → IsMap m
      → ((id : String) (r : Ref) → find id m ≡ some r → own r ≡ id)
      → find (own x) m ≡ some x
      → fan_out pick driver_id frame m heap x ≡ visited x (heap x)
  unfolding fan_out find
  hit own x [] heap h named e = absurd (cc e)
  hit own x ((k, r) ∷ rest) heap h named e = elim (Bool-cases (k == own x)) [
    | inl here ↦
        let k_own : k ≡ own x = (eq_iff k (own x)).0 here in
        let it : r ≡ x = some-inj (rw here at e) in
        missed x rest (next_heap r heap) h.1 (gone k_own) ∙ rw it (next_self x heap)
    | inr there ↦
        let apart : r ≢ x = λ same. apart_names own (named k r (rw (eq_refl k) refl)) there same in
        hit own x rest (next_heap r heap) h.1 below (rw there at e)
        ∙ rw (next_other r x heap apart) refl
  ]
    where
      below : (id : String) (q : Ref) → find id rest ≡ some q → own q ≡ id
      below id q f = elim (Bool-cases (k == id)) [
        | inl same ↦ absurd (cc (h.0, (eq_iff k id).0 same, f))
        | inr other ↦ named id q (rw other f)
      ]

      gone : k ≡ own x → (id : String) → find id rest ≢ some x
      gone k_own id f = cc (h.0, k_own, below id x f, f)

module _ ⦃F : Float⦄ ⦃J : Json⦄ {D : Type 0} (pick : Ref → Bool) (now : ℕ) where
  -- The client is in the map of the riders, has subscribed, has room, and is open or taken as open.
  abbrev pub receives : Ref → String → System D → Bool
  receives r driver_id s =
      let c = s.clients r in
      is_current r (find c.id s.hub.riders)
      && (c.subscribed driver_id && (ltb (length c.send) send_capacity && not (c.done && pick r)))

  fan_out-receives :
      (r : Ref) (driver_id frame : String) (s : System D)
      → IsSound s
      → fan_out pick driver_id frame s.hub.riders s.clients r ≡ (
          let c = s.clients r in
          if receives r driver_id s then record c { send = c.send ++ (frame ∷ []) } else c)
  fan_out-receives r driver_id frame s h =
      elim (Bool-cases (is_current r (find (s.clients r).id s.hub.riders))) [
        | inl current ↦ rw current (
            hit pick driver_id frame own r s.hub.riders s.clients h.riders_once owned
              (current_found r _ current)
            ∙ visited-receives pick driver_id frame r (s.clients r))
        | inr other ↦ rw other (
            missed pick driver_id frame r s.hub.riders s.clients h.riders_once
              (λ id e. not_found r _ other (rw (owned id r e) e)))
      ]
    where
      own : Ref → String
      own x = (s.clients x).id

      owned : (id : String) (x : Ref) → find id s.hub.riders ≡ some x → own x ≡ id
      owned id x e = let n = h.riders_named id x e in n.0

  -- Where the location can be encoded and the hub is sound, its broadcast adds the frame to the buffer of
  -- exactly the clients that are in the map of the riders, have subscribed to the driver, have room, and
  -- are not found closed; every other client stays as it is, whatever the order of the riders.
  pub broadcast-receives :
      (location : LocationPayload) (frame : String) (s : System D)
      → IsSound s
      → J.encode_message (location_message now location) ≡ ok frame
      → (r : Ref)
      → (handle_location_broadcast pick now location s).clients r ≡ (
          let c = s.clients r in
          if receives r location.driver_id s then record c { send = c.send ++ (frame ∷ []) } else c)
  unfolding handle_location_broadcast broadcast_frame
  broadcast-receives location frame s h e r = rw e (fan_out-receives r location.driver_id frame s h)
