-- ===== src/Realtime/Steps.antt =====
-- What every step keeps, and so every run.
use Prim.Native.Nat.{◌<◌}
use geo_spatial_dispatch_ser.Prelude.{
  String, ◌≡◌, refl, Bool, true, false, not, ◌&&◌, Option, List, [], ◌∷◌, arith, if-holds,
  if◌then◌else◌, ltb,
}
use geo_spatial_dispatch_ser.Float.{Float}
use geo_spatial_dispatch_ser.Client.{World, Io}
use geo_spatial_dispatch_ser.Realtime.Messages.{Json, LocationPayload}
use geo_spatial_dispatch_ser.Realtime.Clients.{Client, ClientType, close}
use geo_spatial_dispatch_ser.Realtime.Registry.{Ref, find}
use geo_spatial_dispatch_ser.Realtime.Systems.{System, at_client, new_hub}
use geo_spatial_dispatch_ser.Realtime.Hub.{
  register_client, unregister_client, register, unregister, stop,
}
use geo_spatial_dispatch_ser.Realtime.Running.{
  Event, connecting, registering, unregistering, reading, resuming, writing, closing, broadcasting,
  ticking, stopping, shutting_down, sending_driver, sending_rider, step, run, connect, shut_down,
  initial,
}
use geo_spatial_dispatch_ser.Realtime.Tame.{close-Tame}
use geo_spatial_dispatch_ser.Realtime.Reading.{read_message-Quiet, resume_publish-Quiet}
use geo_spatial_dispatch_ser.Realtime.Sending.{
  broadcast-Quiet, send_to_driver-Quiet, send_to_rider-Quiet,
}
use geo_spatial_dispatch_ser.Realtime.Quiet.{
  Quiet, Quiet-refl, at_client-Quiet, tick-Quiet, take_frame-Tame,
}
use geo_spatial_dispatch_ser.Realtime.Sound.{
  IsSound, Quiet-IsSound, register_client-IsSound, unregister_client-IsSound, shut_down-IsSound,
  stop-IsSound, connect-IsSound,
}

module _ ⦃F : Float⦄ {D : Type 0} where
  closed-Quiet : (r : Ref) (s : System D) → Quiet s (at_client r close s)
  closed-Quiet r s = at_client-Quiet r close s (close-Tame _)

  -- Every step is quiet, or one of those that change who is connected.
  pub data Loud (s : System D) : System D → Type 0 where
    quiet : (t : System D) → Quiet s t → Loud s t
    connected : (id : String) (kind : ClientType) (t : System D) → t ≡ connect id kind s → Loud s t
    registered :
        (r : Ref) (t : System D)
        → r < s.next
        → s.hub.stopped ≡ false
        → t ≡ register_client r s
        → Loud s t
    unregistered : (r : Ref) (t : System D) → r < s.next → t ≡ unregister_client r s → Loud s t
    stopped : (t : System D) → t ≡ stop s → Loud s t
    shut : (t : System D) → s.hub.closed ≡ true → t ≡ shut_down s → Loud s t

  same : (s : System D) → Loud s s
  same s = quiet s (Quiet-refl s)

  register-Loud : (pick : Bool) (r : Ref) (s : System D) → r < s.next → Loud s (register pick r s)
  unfolding register
  register-Loud pick r s bound =
      if-holds (Loud s) (not s.hub.stopped && not (s.hub.closed && pick)) _ _
        (λ e. registered r _ bound (ground arith) refl)
        (λ _. if-holds (Loud s) s.hub.closed _ s (λ _. quiet _ (closed-Quiet r s)) (λ _. same s))

  unregister-Loud :
      (pick : Bool) (r : Ref) (s : System D) → r < s.next → Loud s (unregister pick r s)
  unfolding unregister
  unregister-Loud pick r s bound =
      if-holds (Loud s) (not s.hub.stopped && not (s.hub.closed && pick)) _ _
        (λ _. unregistered r _ bound refl)
        (λ _. if-holds (Loud s) s.hub.closed _ s (λ _. quiet _ (closed-Quiet r s)) (λ _. same s))

  existing :
      (r : Ref) (s t : System D) → (r < s.next → Loud s t) → Loud s (if ltb r s.next then t else s)
  existing r s t h = if-holds (Loud s) (ltb r s.next) t s (λ e. h (ground arith)) (λ _. same s)

  pub step-Loud : ⦃J : Json⦄ (e : Event) (s : System D) → Loud s (step e s)
  unfolding step
  step-Loud (connecting id kind) s = connected id kind _ refl
  step-Loud (registering pick r) s = existing r s _ (register-Loud pick r s)
  step-Loud (unregistering pick r) s = existing r s _ (unregister-Loud pick r s)
  step-Loud (reading pick now r text) s =
      existing r s _ (λ _. quiet _ (read_message-Quiet pick now r text s))
  step-Loud (resuming pick now r) s =
      existing r s _ (λ _. quiet _ (resume_publish-Quiet pick now r s))
  step-Loud (writing r) s = quiet _ (at_client-Quiet r _ s (take_frame-Tame _))
  step-Loud (closing r) s = quiet _ (closed-Quiet r s)
  step-Loud (broadcasting pick now) s =
      if-holds (Loud s) s.hub.stopped s _ (λ _. same s) (λ _. quiet _ (broadcast-Quiet pick now s))
  step-Loud ticking s =
      if-holds (Loud s) s.hub.stopped s _ (λ _. same s) (λ _. quiet _ (tick-Quiet s))
  step-Loud stopping s = stopped _ refl
  step-Loud shutting_down s =
      if-holds (Loud s) (s.hub.closed && not s.hub.stopped) _ s (λ e. shut _ (ground arith) refl)
        (λ _. same s)
  step-Loud (sending_driver pick id msg) s = quiet _ (send_to_driver-Quiet pick msg id s)
  step-Loud (sending_rider pick id msg) s = quiet _ (send_to_rider-Quiet pick msg id s)

  Loud-IsSound : (s t : System D) → Loud s t → IsSound s → IsSound t
  Loud-IsSound s t (quiet _ q) h = Quiet-IsSound s t q h
  Loud-IsSound s t (connected id kind _ e) h = rw e (connect-IsSound id kind s h)
  Loud-IsSound s t (registered r _ bound running e) h =
      rw e (register_client-IsSound r s bound running h)
  Loud-IsSound s t (unregistered r _ bound e) h = rw e (unregister_client-IsSound r s h)
  Loud-IsSound s t (stopped _ e) h = rw e (stop-IsSound s h)
  Loud-IsSound s t (shut _ closed e) h = rw e (shut_down-IsSound s closed)

  -- In every run of the goroutines, in any order, from a sound state: the counters of the statistics
  -- are the sizes of the two maps, no id has two entries, each entry is of an existing client under its
  -- own id and in the map of its type, and once Run has returned both maps are empty.
  pub run-IsSound :
      ⦃J : Json⦄ (events : List Event) (s : System D) → IsSound s → IsSound (run events s)
  unfolding run
  run-IsSound [] s h = h
  run-IsSound (e ∷ events) s h =
      run-IsSound events (step e s) (Loud-IsSound s (step e s) (step-Loud e s) h)

  -- A new hub without clients.
  pub initial-IsSound :
      (location_handler : Option (LocationPayload → Io D (Unit {0})))
      (heartbeat_handler : Option (String → Io D (Unit {0}))) (no_client : Client) (world : World D)
      → IsSound (initial (new_hub D location_handler heartbeat_handler) no_client world)
  unfolding initial new_hub find
  initial-IsSound l h c w = record {
    drivers_counted = refl;
    riders_counted = refl;
    drivers_once = tt;
    riders_once = tt;
    drivers_named = λ id r e. absurd (cc e);
    riders_named = λ id r e. absurd (cc e);
    emptied = λ e. absurd (cc e);
  }
