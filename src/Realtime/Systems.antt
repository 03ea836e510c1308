-- ===== src/Realtime/Systems.antt =====
-- internal/realtime/hub.go: the hub, and the state of all that run beside it.
use geo_spatial_dispatch_ser.Prelude.{
  ℕ, String, Bool, false, Option, none, some, List, [], ◌∷◌, nat_eq, if◌then◌else◌,
}
use geo_spatial_dispatch_ser.Float.{Float}
use geo_spatial_dispatch_ser.Client.{World, Io}
use geo_spatial_dispatch_ser.Realtime.Messages.{LocationPayload}
use geo_spatial_dispatch_ser.Realtime.Clients.{Client, close}
use geo_spatial_dispatch_ser.Realtime.Registry.{Ref, Registry}

pub record HubStats : Type 0 where
  pub total_drivers : ℕ
  pub total_riders : ℕ
  pub messages_per_sec : ℕ
  pub total_messages : ℕ

-- The capacity of `broadcastLocation`.
abbrev pub broadcast_capacity : ℕ
broadcast_capacity = 256

-- What a goroutine does to the clients: each is an object at its pointer.
abbrev pub Heap : Type 0
Heap = Ref → Client

unfoldable pub modify : Ref → (Client → Client) → Heap → Heap
modify r f heap x = if nat_eq x r then f (heap x) else heap x

-- `for _, client := range m { client.Close() }`
unfoldable pub close_each : Registry → Heap → Heap
close_each [] heap = heap
close_each ((id, r) ∷ rest) heap = close_each rest (modify r close heap)

-- `current, exists := m[id]; exists && current == client`
unfoldable pub is_current : Ref → Option Ref → Bool
is_current r none = false
is_current r (some current) = nat_eq current r

unfoldable pub close_old : Option Ref → Heap → Heap
close_old none heap = heap
close_old (some old) heap = modify old close heap

module _ ⦃F : Float⦄ (D : Type 0) where
  -- `closed` says that the context is cancelled, `stopped` that `Run` has returned;
  -- `messages_this_second` is the variable of `Run`. The handlers work on the shared database.
  pub record Hub : Type 0 where
    pub drivers : Registry
    pub riders : Registry
    pub broadcast_location : List LocationPayload
    pub location_handler : Option (LocationPayload → Io D (Unit {0}))
    pub heartbeat_handler : Option (String → Io D (Unit {0}))
    pub closed : Bool
    pub stopped : Bool
    pub stats : HubStats
    pub messages_this_second : ℕ

  -- The hub, the clients up to the pointer `next`, the readers that wait in `PublishLocation` with
  -- their locations, and the database.
  pub record System : Type 0 where
    pub hub : Hub
    pub clients : Heap
    pub next : Ref
    pub waiting : List (Ref × LocationPayload)
    pub world : World D

  unfoldable pub new_hub :
      Option (LocationPayload → Io D (Unit {0})) → Option (String → Io D (Unit {0})) → Hub
  new_hub location_handler heartbeat_handler = record {
    drivers = [];
    riders = [];
    broadcast_location = [];
    location_handler = location_handler;
    heartbeat_handler = heartbeat_handler;
    closed = false;
    stopped = false;
    stats = record {
      total_drivers = 0;
      total_riders = 0;
      messages_per_sec = 0;
      total_messages = 0;
    };
    messages_this_second = 0;
  }

module _ ⦃F : Float⦄ {D : Type 0} where
  -- A change to one client.
  unfoldable pub at_client : Ref → (Client → Client) → System D → System D
  at_client r f s = record s { clients = modify r f s.clients }
