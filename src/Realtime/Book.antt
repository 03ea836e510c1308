-- ===== src/Realtime/Book.antt =====
-- What the hub promises its users: for each type and id, the current connection.
use geo_spatial_dispatch_ser.Prelude.{
  suc, String, ◌==◌, ◌≡◌, refl, ◌∙◌, ap, Bool, true, false, not, ◌&&◌, Option, none, some, List, [],
  ◌∷◌, arith, Bool-cases, inl, inr, if-holds, if◌then◌else◌, ltb, nat_eq,
}
use geo_spatial_dispatch_ser.Float.{Float}
use geo_spatial_dispatch_ser.Realtime.Messages.{Json}
use geo_spatial_dispatch_ser.Realtime.Clients.{
  Client, ClientType, client_type_driver, close, new_client, is_driver,
}
use geo_spatial_dispatch_ser.Realtime.Registry.{Ref, find, find-put, find-delete}
use geo_spatial_dispatch_ser.Realtime.Systems.{System, modify, at_client, is_current}
use geo_spatial_dispatch_ser.Realtime.Hub.{
  register_client, unregister_client, register, unregister, close_all_clients, stop,
}
use geo_spatial_dispatch_ser.Realtime.Running.{
  Event, connecting, registering, unregistering, reading, resuming, writing, closing, broadcasting,
  ticking, stopping, shutting_down, sending_driver, sending_rider, step, run, connect, shut_down,
}
use geo_spatial_dispatch_ser.Realtime.Tame.{Tame, close-Tame}
use geo_spatial_dispatch_ser.Realtime.Reading.{read_message-Quiet, resume_publish-Quiet}
use geo_spatial_dispatch_ser.Realtime.Sending.{
  broadcast-Quiet, send_to_driver-Quiet, send_to_rider-Quiet,
}
use geo_spatial_dispatch_ser.Realtime.Quiet.{Quiet, at_client-Quiet, tick-Quiet, take_frame-Tame}
use geo_spatial_dispatch_ser.Realtime.Bounds.{
  register_client-Tame, unregister_client-Tame, shut_down-Tame,
}

-- Who is connected, by type (true for drivers) and id; the id and type of each client; how far the hub
-- is on its way to its end.
pub record Book : Type 0 where
  pub current : Bool → String → Option Ref
  pub name : Ref → String
  pub drives : Ref → Bool
  pub next : Ref
  pub closed : Bool
  pub stopped : Bool

abbrev pub change :
    Bool → String → Option Ref → (Bool → String → Option Ref) → Bool → String → Option Ref
change flag id o f g i = if (if flag then g else not g) && id == i then o else f g i

Book-ext :
    (b c : Book)
    → ((flag : Bool) (id : String) → b.current flag id ≡ c.current flag id)
    → ((r : Ref) → b.name r ≡ c.name r)
    → ((r : Ref) → b.drives r ≡ c.drives r)
    → b.next ≡ c.next
    → b.closed ≡ c.closed
    → b.stopped ≡ c.stopped
    → b ≡ c
Book-ext b c current name drives next closed stopped = λ i. record {
  current = λ flag id. current flag id i;
  name = λ r. name r i;
  drives = λ r. drives r i;
  next = next i;
  closed = closed i;
  stopped = stopped i;
}

-- The client comes in, and takes the place of another one.
abbrev pub enter : Ref → Book → Book
enter r b = record b { current = change (b.drives r) (b.name r) (some r) b.current }

-- The client goes, if it is the current one.
abbrev pub leave : Ref → Book → Book
leave r b = record b {
  current =
      if is_current r (b.current (b.drives r) (b.name r))
      then change (b.drives r) (b.name r) none b.current
      else b.current;
}

-- A call that `Run` serves.
abbrev pub served : Bool → Ref → (Ref → Book → Book) → Book → Book
served pick r f b = if ltb r b.next && (not b.stopped && not (b.closed && pick)) then f r b else b

abbrev pub play : Event → Book → Book
play (connecting id kind) b = record b {
  name = λ x. if nat_eq x b.next then id else b.name x;
  drives = λ x. if nat_eq x b.next then kind == client_type_driver else b.drives x;
  next = suc b.next;
}
play (registering pick r) b = served pick r enter b
play (unregistering pick r) b = served pick r leave b
play stopping b = record b { closed = true }
play shutting_down b =
    if b.closed && not b.stopped then record b { current = λ _ _. none; stopped = true } else b
play (reading pick now r text) b = b
play (resuming pick now r) b = b
play (writing r) b = b
play (closing r) b = b
play (broadcasting pick now) b = b
play ticking b = b
play (sending_driver pick id msg) b = b
play (sending_rider pick id msg) b = b

abbrev pub replay : List Event → Book → Book
replay [] b = b
replay (e ∷ events) b = replay events (play e b)

Tame-drives : (c d : Client) → Tame c d → is_driver d ≡ is_driver c
unfolding is_driver
Tame-drives c d tame = ap (λ (k : String). k == client_type_driver) tame.kind

module _ ⦃F : Float⦄ {D : Type 0} where
  -- The view of a state: it forgets the order of the maps, the buffers and the subscriptions.
  unfoldable pub view : System D → Book
  view s = record {
    current = λ flag id. find id (if flag then s.hub.drivers else s.hub.riders);
    name = λ r. (s.clients r).id;
    drives = λ r. is_driver (s.clients r);
    next = s.next;
    closed = s.hub.closed;
    stopped = s.hub.stopped;
  }

  view-Quiet : (s t : System D) → Quiet s t → view t ≡ view s
  unfolding view
  view-Quiet s t q =
      Book-ext (view t) (view s) (λ flag id. rw (q.drivers, q.riders) refl)
        (λ r. let it = q.clients r in it.id) (λ r. Tame-drives _ _ (q.clients r)) q.next q.closed
        q.stopped

  view-connect :
      (id : String) (kind : ClientType) (s : System D)
      → view (connect id kind s) ≡ play (connecting id kind) (view s)
  unfolding view connect modify new_client is_driver
  view-connect id kind s =
      Book-ext _ _ (λ flag i. refl) (λ r. ground arith) (λ r. ground arith) refl refl refl

  registered-current :
      (r : Ref) (s : System D) (flag : Bool) (id : String)
      → (view (register_client r s)).current flag id ≡ (enter r (view s)).current flag id
  unfolding view register_client
  registered-current r s flag id =
      let own = (s.clients r).id in
      ground (arith, find-put id own r s.hub.drivers, find-put id own r s.hub.riders)

  view-register_client : (r : Ref) (s : System D) → view (register_client r s) ≡ enter r (view s)
  unfolding view
  view-register_client r s =
      Book-ext _ _ (registered-current r s) (λ x. let it = register_client-Tame r s x in it.id)
        (λ x. Tame-drives _ _ (register_client-Tame r s x)) (unfold register_client in ground arith)
        (unfold register_client in ground arith) (unfold register_client in ground arith)

  unregistered-current :
      (r : Ref) (s : System D) (flag : Bool) (id : String)
      → (view (unregister_client r s)).current flag id ≡ (leave r (view s)).current flag id
  unfolding view unregister_client
  unregistered-current r s flag id =
      let own = (s.clients r).id in
      ground (arith, find-delete id own s.hub.drivers, find-delete id own s.hub.riders)

  view-unregister_client :
      (r : Ref) (s : System D) → view (unregister_client r s) ≡ leave r (view s)
  unfolding view
  view-unregister_client r s =
      Book-ext _ _ (unregistered-current r s) (λ x. let it = unregister_client-Tame r s x in it.id)
        (λ x. Tame-drives _ _ (unregister_client-Tame r s x))
        (unfold unregister_client in ground arith) (unfold unregister_client in ground arith)
        (unfold unregister_client in ground arith)

  view-shut_down :
      (s : System D)
      → view (shut_down s) ≡ record (view s) { current = λ _ _. none; stopped = true }
  unfolding view shut_down close_all_clients find
  view-shut_down s =
      Book-ext _ _ (λ flag id. ground arith) (λ x. let it = shut_down-Tame s x in it.id)
        (λ x. Tame-drives _ _ (shut_down-Tame s x)) refl refl refl

  view-served :
      (here open_hub closed : Bool) (s t u : System D) (b : Book)
      → view t ≡ b
      → view u ≡ view s
      → view (if here then if open_hub then t else if closed then u else s else s)
        ≡ (if here && open_hub then b else view s)
  view-served true true closed s t u b e f = e
  view-served true false true s t u b e f = f
  view-served true false false s t u b e f = refl
  view-served false open_hub closed s t u b e f = refl

  closed-view : (r : Ref) (s : System D) → view (at_client r close s) ≡ view s
  closed-view r s = view-Quiet s _ (at_client-Quiet r close s (close-Tame _))

  view-if : (b : Bool) (s t : System D) → Quiet s t → view (if b then t else s) ≡ view s
  view-if true s t q = view-Quiet s t q
  view-if false s t q = refl

  view-step : ⦃J : Json⦄ (e : Event) (s : System D) → view (step e s) ≡ play e (view s)
  unfolding step view register unregister stop
  view-step (connecting id kind) s = view-connect id kind s
  view-step (registering pick r) s =
      view-served _ _ s.hub.closed s _ _ _ (view-register_client r s) (closed-view r s)
  view-step (unregistering pick r) s =
      view-served _ _ s.hub.closed s _ _ _ (view-unregister_client r s) (closed-view r s)
  view-step (reading pick now r text) s = view-if _ s _ (read_message-Quiet pick now r text s)
  view-step (resuming pick now r) s = view-if _ s _ (resume_publish-Quiet pick now r s)
  view-step (writing r) s = view-Quiet s _ (at_client-Quiet r _ s (take_frame-Tame _))
  view-step (closing r) s = closed-view r s
  view-step (broadcasting pick now) s =
      if-holds (λ t. view t ≡ view s) s.hub.stopped s _ (λ _. refl)
        (λ _. view-Quiet s _ (broadcast-Quiet pick now s))
  view-step ticking s =
      if-holds (λ t. view t ≡ view s) s.hub.stopped s _ (λ _. refl)
        (λ _. view-Quiet s _ (tick-Quiet s))
  view-step stopping s = refl
  view-step shutting_down s = elim (Bool-cases (s.hub.closed && not s.hub.stopped)) [
    | inl e ↦ rw e (view-shut_down s)
    | inr e ↦ rw e refl
  ]
  view-step (sending_driver pick id msg) s = view-Quiet s _ (send_to_driver-Quiet pick msg id s)
  view-step (sending_rider pick id msg) s = view-Quiet s _ (send_to_rider-Quiet pick msg id s)

  -- Every run of the goroutines, in any order, refines the book of current connections: what the two
  -- maps say for each id, which clients exist, and whether the hub is closed or stopped is what the same
  -- events do to the book, in which registering replaces, unregistering removes only the current client,
  -- shutting down removes all, and every other event changes nothing.
  pub run_refines :
      ⦃J : Json⦄ (events : List Event) (s : System D) → view (run events s) ≡ replay events (view s)
  unfolding run
  run_refines [] s = refl
  run_refines (e ∷ events) s = run_refines events (step e s) ∙ ap (replay events) (view-step e s)
