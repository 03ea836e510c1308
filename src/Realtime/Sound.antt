-- ===== src/Realtime/Sound.antt =====
-- What is true of the hub after any run.
use Prim.Native.Nat.{◌<◌}
use geo_spatial_dispatch_ser.Prelude.{
  if-holds, String, ◌≡◌, refl, sym, ◌∙◌, ap, true, false, [], Bool-cases, inl, inr,
}
use geo_spatial_dispatch_ser.Float.{Float}
use geo_spatial_dispatch_ser.Realtime.Clients.{ClientType, close, is_driver, length}
use geo_spatial_dispatch_ser.Realtime.Registry.{Ref, find, delete, IsMap, put-IsMap, delete-IsMap}
use geo_spatial_dispatch_ser.Realtime.Systems.{System, modify, is_current}
use geo_spatial_dispatch_ser.Realtime.Hub.{
  stop, register_client, unregister_client, close_all_clients,
}
use geo_spatial_dispatch_ser.Realtime.Tame.{close_old-Tame, close-Tame, modify-Tame}
use geo_spatial_dispatch_ser.Realtime.Running.{connect, shut_down}
use geo_spatial_dispatch_ser.Realtime.Naming.{
  Named, Named-Tame, Named-put, Named-delete, Named-connect,
}
use geo_spatial_dispatch_ser.Realtime.Quiet.{Quiet}

module _ ⦃F : Float⦄ {D : Type 0} where
  -- The counters are the sizes of the maps, each entry is of a client of that id and type, and a hub
  -- whose `Run` has returned has no clients.
  pub record IsSound (s : System D) : Type 0 where
    pub drivers_counted : s.hub.stats.total_drivers ≡ length s.hub.drivers
    pub riders_counted : s.hub.stats.total_riders ≡ length s.hub.riders
    pub drivers_once : IsMap s.hub.drivers
    pub riders_once : IsMap s.hub.riders
    pub drivers_named : Named true s.hub.drivers s.clients s.next
    pub riders_named : Named false s.hub.riders s.clients s.next
    pub emptied :
        s.hub.stopped ≡ true → (s.hub.drivers ≡ []) × (s.hub.riders ≡ []) × (s.hub.closed ≡ true)

  pub Quiet-IsSound : (s t : System D) → Quiet s t → IsSound s → IsSound t
  Quiet-IsSound s t q h = record {
    drivers_counted = q.total_drivers ∙ h.drivers_counted ∙ sym (ap length q.drivers);
    riders_counted = q.total_riders ∙ h.riders_counted ∙ sym (ap length q.riders);
    drivers_once = rw q.drivers h.drivers_once;
    riders_once = rw q.riders h.riders_once;
    drivers_named =
        rw (q.drivers, q.next)
          (Named-Tame true s.hub.drivers s.clients t.clients s.next q.clients h.drivers_named);
    riders_named =
        rw (q.riders, q.next)
          (Named-Tame false s.hub.riders s.clients t.clients s.next q.clients h.riders_named);
    emptied = λ e.
        let (d, r, c) = h.emptied (sym q.stopped ∙ e) in
        (q.drivers ∙ d, q.riders ∙ r, q.closed ∙ c);
  }

  -- The part of `register_client` that only closes the old connection.
  pub register_client-IsSound :
      (r : Ref) (s : System D)
      → r < s.next
      → s.hub.stopped ≡ false
      → IsSound s
      → IsSound (register_client r s)
  unfolding register_client
  register_client-IsSound r s bound running h = elim (Bool-cases (is_driver (s.clients r))) [
    | inl kind ↦ rw kind record {
      drivers_counted = refl;
      riders_counted = h.riders_counted;
      drivers_once = put-IsMap _ r _ h.drivers_once;
      riders_once = h.riders_once;
      drivers_named =
          Named-Tame true _ s.clients _ s.next (close_old-Tame _ s.clients)
            (Named-put true s.hub.drivers s.clients s.next r kind bound h.drivers_named);
      riders_named =
          Named-Tame false _ s.clients _ s.next (close_old-Tame _ s.clients) h.riders_named;
      emptied = λ e. absurd (cc (sym running ∙ e));
    }
    | inr kind ↦ rw kind record {
      drivers_counted = h.drivers_counted;
      riders_counted = refl;
      drivers_once = h.drivers_once;
      riders_once = put-IsMap _ r _ h.riders_once;
      drivers_named =
          Named-Tame true _ s.clients _ s.next (close_old-Tame _ s.clients) h.drivers_named;
      riders_named =
          Named-Tame false _ s.clients _ s.next (close_old-Tame _ s.clients)
            (Named-put false s.hub.riders s.clients s.next r kind bound h.riders_named);
      emptied = λ e. absurd (cc (sym running ∙ e));
    }
  ]

  unregister_driver-IsSound :
      (r : Ref) (s : System D) (id : String)
      → IsSound s
      → IsSound (record s {
        clients = modify r close s.clients;
        hub = record s.hub {
          drivers = delete id s.hub.drivers;
          stats = record s.hub.stats { total_drivers = length (delete id s.hub.drivers) };
        };
      })
  unfolding delete
  unregister_driver-IsSound r s id h = record {
    drivers_counted = refl;
    riders_counted = h.riders_counted;
    drivers_once = delete-IsMap id s.hub.drivers h.drivers_once;
    riders_once = h.riders_once;
    drivers_named =
        Named-Tame true _ s.clients _ s.next (modify-Tame r close s.clients (close-Tame _))
          (Named-delete true s.hub.drivers s.clients s.next id h.drivers_named);
    riders_named =
        Named-Tame false _ s.clients _ s.next (modify-Tame r close s.clients (close-Tame _))
          h.riders_named;
    emptied = λ e. let (d, q, c) = h.emptied e in (rw d refl, q, c);
  }

  unregister_rider-IsSound :
      (r : Ref) (s : System D) (id : String)
      → IsSound s
      → IsSound (record s {
        clients = modify r close s.clients;
        hub = record s.hub {
          riders = delete id s.hub.riders;
          stats = record s.hub.stats { total_riders = length (delete id s.hub.riders) };
        };
      })
  unfolding delete
  unregister_rider-IsSound r s id h = record {
    drivers_counted = h.drivers_counted;
    riders_counted = refl;
    drivers_once = h.drivers_once;
    riders_once = delete-IsMap id s.hub.riders h.riders_once;
    drivers_named =
        Named-Tame true _ s.clients _ s.next (modify-Tame r close s.clients (close-Tame _))
          h.drivers_named;
    riders_named =
        Named-Tame false _ s.clients _ s.next (modify-Tame r close s.clients (close-Tame _))
          (Named-delete false s.hub.riders s.clients s.next id h.riders_named);
    emptied = λ e. let (d, q, c) = h.emptied e in (d, rw q refl, c);
  }

  pub unregister_client-IsSound :
      (r : Ref) (s : System D) → IsSound s → IsSound (unregister_client r s)
  unfolding unregister_client
  unregister_client-IsSound r s h =
      if-holds IsSound (is_driver (s.clients r)) _ _
        (λ _.
          if-holds IsSound (is_current r (find (s.clients r).id s.hub.drivers)) _ s
            (λ _. unregister_driver-IsSound r s (s.clients r).id h) (λ _. h))
        (λ _.
          if-holds IsSound (is_current r (find (s.clients r).id s.hub.riders)) _ s
            (λ _. unregister_rider-IsSound r s (s.clients r).id h) (λ _. h))

  pub shut_down-IsSound : (s : System D) → s.hub.closed ≡ true → IsSound (shut_down s)
  unfolding shut_down close_all_clients find
  shut_down-IsSound s closed = record {
    drivers_counted = refl;
    riders_counted = refl;
    drivers_once = tt;
    riders_once = tt;
    drivers_named = λ id r e. absurd (cc e);
    riders_named = λ id r e. absurd (cc e);
    emptied = λ _. (refl, refl, closed);
  }

  pub stop-IsSound : (s : System D) → IsSound s → IsSound (stop s)
  unfolding stop
  stop-IsSound s h = record {
    drivers_counted = h.drivers_counted;
    riders_counted = h.riders_counted;
    drivers_once = h.drivers_once;
    riders_once = h.riders_once;
    drivers_named = h.drivers_named;
    riders_named = h.riders_named;
    emptied = λ e. let (d, q, c) = h.emptied e in (d, q, refl);
  }

  pub connect-IsSound :
      (id : String) (kind : ClientType) (s : System D) → IsSound s → IsSound (connect id kind s)
  unfolding connect
  connect-IsSound id kind s h = record {
    drivers_counted = h.drivers_counted;
    riders_counted = h.riders_counted;
    drivers_once = h.drivers_once;
    riders_once = h.riders_once;
    drivers_named = Named-connect true s.hub.drivers s.clients s.next _ h.drivers_named;
    riders_named = Named-connect false s.hub.riders s.clients s.next _ h.riders_named;
    emptied = h.emptied;
  }
