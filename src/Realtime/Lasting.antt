-- ===== src/Realtime/Lasting.antt =====
-- No open connection is forgotten, in any run.
use Prim.Native.Nat.{◌<◌, ◌≤◌}
use geo_spatial_dispatch_ser.Prelude.{
  String, ◌≡◌, ◌≢◌, refl, sym, ◌∙◌, Bool, true, false, not, ◌&&◌, List, [], ◌∷◌, arith, if-holds,
  inl, inr, nat_eq, ltb,
}
use geo_spatial_dispatch_ser.Float.{Float}
use geo_spatial_dispatch_ser.Realtime.Messages.{Json}
use geo_spatial_dispatch_ser.Realtime.Clients.{ClientType}
use geo_spatial_dispatch_ser.Realtime.Registry.{Ref}
use geo_spatial_dispatch_ser.Realtime.Systems.{System, modify, at_client}
use geo_spatial_dispatch_ser.Realtime.Hub.{
  register_client, unregister_client, register, close_all_clients, stop,
}
use geo_spatial_dispatch_ser.Realtime.Running.{Event, registering, step, run, connect, shut_down}
use geo_spatial_dispatch_ser.Realtime.Sound.{IsSound}
use geo_spatial_dispatch_ser.Realtime.Steps.{
  Loud, quiet, connected, registered, unregistered, stopped, shut, step-Loud,
}
use geo_spatial_dispatch_ser.Realtime.Bounds.{
  register_client-Tame, unregister_client-Tame, shut_down-Tame,
}
use geo_spatial_dispatch_ser.Realtime.Kept.{
  IsConnected, IsClosed, IsKept, register_client-IsConnected, close-done, same_maps,
  register_client-IsKept, unregister_client-IsKept, shut_down-IsClosed,
}

module _ ⦃F : Float⦄ {D : Type 0} where
  connect-IsKept :
      (id : String) (kind : ClientType) (r : Ref) (s : System D)
      → r < s.next
      → IsKept r s
      → IsKept r (connect id kind s)
  unfolding connect modify
  connect-IsKept id kind r s bound h =
      let other : nat_eq r s.next ≡ false = ground arith in rw other h

  Loud-connected : (r : Ref) (s t : System D) → r < s.next → Loud s t → IsConnected r s → IsKept r t
  unfolding stop
  Loud-connected r s t bound (quiet _ q) h =
      inl (same_maps r s t (q.clients r) q.drivers q.riders h)
  Loud-connected r s t bound (connected id kind _ e) h =
      rw e (connect-IsKept id kind r s bound (inl h))
  Loud-connected r s t bound (registered q _ there running e) h =
      rw e (register_client-IsKept q r s h)
  Loud-connected r s t bound (unregistered q _ there e) h = rw e (unregister_client-IsKept q r s h)
  Loud-connected r s t bound (stopped _ e) h = rw e (inl h)
  Loud-connected r s t bound (shut _ closed e) h = rw e (inr (shut_down-IsClosed r s h))

  Loud-closed : (r : Ref) (s t : System D) → r < s.next → Loud s t → IsClosed r s → IsKept r t
  unfolding stop
  Loud-closed r s t bound (quiet _ q) h = let tame = q.clients r in inr (tame.done h)
  Loud-closed r s t bound (connected id kind _ e) h =
      rw e (connect-IsKept id kind r s bound (inr h))
  Loud-closed r s t bound (registered q _ there running e) h =
      let tame = register_client-Tame q s r in rw e (inr (tame.done h))
  Loud-closed r s t bound (unregistered q _ there e) h =
      let tame = unregister_client-Tame q s r in rw e (inr (tame.done h))
  Loud-closed r s t bound (stopped _ e) h = rw e (inr h)
  Loud-closed r s t bound (shut _ closed e) h =
      let tame = shut_down-Tame s r in rw e (inr (tame.done h))

  Loud-IsKept : (r : Ref) (s t : System D) → r < s.next → Loud s t → IsKept r s → IsKept r t
  Loud-IsKept r s t bound l (inl h) = Loud-connected r s t bound l h
  Loud-IsKept r s t bound l (inr h) = Loud-closed r s t bound l h

  Loud-next : (s t : System D) → Loud s t → s.next ≤ t.next
  unfolding connect register_client unregister_client stop shut_down close_all_clients
  Loud-next s t (quiet _ q) = omega (arith, q.next)
  Loud-next s t (connected id kind _ e) = rw e (omega arith)
  Loud-next s t (registered q _ there running e) = rw e (ground arith)
  Loud-next s t (unregistered q _ there e) = rw e (ground arith)
  Loud-next s t (stopped _ e) = rw e (omega arith)
  Loud-next s t (shut _ closed e) = rw e (omega arith)

  pub run-IsKept :
      ⦃J : Json⦄ (events : List Event) (r : Ref) (s : System D)
      → r < s.next
      → IsKept r s
      → IsKept r (run events s)
  unfolding run
  run-IsKept [] r s bound h = h
  run-IsKept (e ∷ events) r s bound h =
      let l = step-Loud e s in
      run-IsKept events r (step e s) (omega (arith, Loud-next s (step e s) l))
        (Loud-IsKept r s (step e s) bound l h)

  open_stopped : (s : System D) → IsSound s → s.hub.closed ≡ false → s.hub.stopped ≢ true
  open_stopped s h e p = let (d, q, c) = h.emptied p in cc (sym c ∙ e)

  register-IsKept :
      (pick : Bool) (r : Ref) (s : System D) → IsSound s → IsKept r (register pick r s)
  unfolding register at_client
  register-IsKept pick r s h =
      if-holds (IsKept r) (not s.hub.stopped && not (s.hub.closed && pick)) _ _
        (λ _. inl (register_client-IsConnected r s))
        (λ e.
          if-holds (IsKept r) s.hub.closed _ s (λ _. inr (close-done r s.clients))
            (λ open_hub. absurd (open_stopped s h open_hub (ground arith))))

  step_registering :
      ⦃J : Json⦄ (pick : Bool) (r : Ref) (s : System D)
      → r < s.next
      → step (registering pick r) s ≡ register pick r s
  unfolding step
  step_registering pick r s bound = let e : ltb r s.next ≡ true = ground arith in rw e refl

  -- A client that `Register` has been called with, in a sound state, is at the end of any run of the
  -- goroutines still in the hub's map of its type under its id, or it is closed: no connection is
  -- forgotten while it is open, whether another one replaces it, it is unregistered, or the hub stops.
  pub registering-IsKept :
      ⦃J : Json⦄ (pick : Bool) (r : Ref) (events : List Event) (s : System D)
      → IsSound s
      → r < s.next
      → IsKept r (run (registering pick r ∷ events) s)
  unfolding run
  registering-IsKept pick r events s h bound =
      let e = step_registering pick r s bound in
      let later = Loud-next s _ (step-Loud (registering pick r) s) in
      run-IsKept events r (step (registering pick r) s) (omega (arith, later))
        (rw e (register-IsKept pick r s h))
