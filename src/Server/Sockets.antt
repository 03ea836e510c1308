-- ===== src/Server/Sockets.antt =====
-- internal/server/ws_handlers.go: new connections for the hub.
use geo_spatial_dispatch_ser.Prelude.{
  String, ◌==◌, Bool, true, false, Option, none, some, if◌then◌else◌, not,
}
use geo_spatial_dispatch_ser.Float.{Float}
use geo_spatial_dispatch_ser.Realtime.Clients.{ClientType, client_type_driver, client_type_rider}
use geo_spatial_dispatch_ser.Realtime.Systems.{System}
use geo_spatial_dispatch_ser.Realtime.Hub.{register, get_stats}
use geo_spatial_dispatch_ser.Realtime.Running.{connect}
use geo_spatial_dispatch_ser.Server.Http.{
  Request, Response, text, hub_stats, Web, http_error, not_allowed, encoded,
}

module _ ⦃F : Float⦄ ⦃W : Web⦄ where
  abbrev pub origin_host : Request → Option String → Bool
  origin_host r none = false
  origin_host r (some host) = if host == "" then false else W.equal_fold host r.host

  unfoldable pub check_web_socket_origin : Request → Bool
  check_web_socket_origin r = if r.origin == "" then true else origin_host r (W.url_host r.origin)

-- The response to an upgrade that succeeds, 101 Switching Protocols.
abbrev pub switching : ⦃F : Float⦄ → Response
switching = record { status = 101; body = text "" }

module _ ⦃F : Float⦄ {D : Type 0} where
  -- `NewClient` and `Register`.
  unfoldable pub welcome : Bool → String → ClientType → System D → System D
  welcome pick id kind s = register pick s.next (connect id kind s)

  module _ ⦃W : Web⦄ where
    abbrev pub upgraded :
        Bool → String → ClientType → Option Response → System D → Response × System D
    upgraded pick id kind (some refused) s = (refused, s)
    upgraded pick id kind none s = (switching, welcome pick id kind s)

    -- The upgrade, with the check of the origin that the library makes in it.
    abbrev pub open_socket :
        Bool → String → String → ClientType → Request → System D → Response × System D
    open_socket pick id missing kind r s =
        if id == ""
        then (http_error 400 missing, s)
        else upgraded pick id kind (W.upgrade r (check_web_socket_origin r)) s

    unfoldable pub handle_driver_web_socket : Bool → Request → System D → Response × System D
    handle_driver_web_socket pick r =
        open_socket pick (r.query "driver_id") "Missing driver_id" client_type_driver r

    unfoldable pub handle_rider_web_socket : Bool → Request → System D → Response × System D
    handle_rider_web_socket pick r =
        open_socket pick (r.query "rider_id") "Missing rider_id" client_type_rider r

  -- The server always has a hub.
  unfoldable pub handle_web_socket_stats : Request → System D → Response × System D
  handle_web_socket_stats r s =
      if not (r.method == "GET") then (not_allowed, s) else (encoded (hub_stats (get_stats s)), s)
