-- ===== src/Server/Leases.antt =====
-- internal/server/demo_handler.go: one session at a time has the demo.
use geo_spatial_dispatch_ser.Prelude.{
  ℕ, ◌<◌, whole_seconds, if◌then◌else◌, String, ◌==◌, eq_iff, concat, concat-ne, ◌≡◌, ◌≢◌, refl,
  ◌∙◌, Bool, true, false, not, ◌&&◌, some, List, [], ◌∷◌, map, trim_space, arith, Bool-cases, inl,
  inr,
}
use geo_spatial_dispatch_ser.Redis.{Redis}
use geo_spatial_dispatch_ser.Float.{Float}
use geo_spatial_dispatch_ser.Client.{quiet, pure, call, ◌>>=◌}
use geo_spatial_dispatch_ser.Client.Keeps.{Keeps, Keeps-pure, Keeps-if, Keeps-bind}
use geo_spatial_dispatch_ser.Geo.Frames.{Keeps-lift}
use geo_spatial_dispatch_ser.Lifecycle.Resetting.{IsApart, reset_rider-Holds}
use geo_spatial_dispatch_ser.Dispatcher.Rides.{reset_rider_assignment}
use geo_spatial_dispatch_ser.Geo.{GeoIndex, lift}
use geo_spatial_dispatch_ser.Lifecycle.Scripts.{is_other}
use geo_spatial_dispatch_ser.Dispatcher.Types.{Dispatcher}
use geo_spatial_dispatch_ser.Server.Http.{Request, Response, fields, Web, DemoResetRequest}
use geo_spatial_dispatch_ser.Server.Demo.{
  Reply, flag_or, reset_each, demo_rider_ids, demo_session_lease_key, demo_session_lease_ttl,
  demo_lock_keys, demo_driver_ids, clear_locks, demo_reset_lease_script, parse_demo_reset_result,
  demo_claim, handle_demo_reset,
}

module _ ⦃R : Redis⦄ where
  open R use {Db, get, set_ex, del, exists}

  get-clear_locks :
      (ids : List String) (n : ℕ) (d : Db)
      → get (clear_locks (map (concat "dispatch:lock:") ids) n d).1 demo_session_lease_key
        ≡ get d demo_session_lease_key
  unfolding clear_locks
  get-clear_locks [] n d = refl
  get-clear_locks (id ∷ ids) n d =
      get-clear_locks ids _ (del d (concat "dispatch:lock:" id))
      ∙ R.get-del_ne d (concat "dispatch:lock:" id) demo_session_lease_key
          (concat-ne "dispatch:lock:" "demo:session:lease" refl id "")

  -- A claim that is not refused leaves the lease to its session.
  claimed-lease :
      (session : String) (force clear : Bool) (d : Db)
      → (is_other (get d demo_session_lease_key) session && not force) ≡ false
      → get
          (demo_reset_lease_script demo_session_lease_key demo_lock_keys session
            demo_session_lease_ttl force clear d).1
          demo_session_lease_key
        ≡ some session
  unfolding demo_reset_lease_script
  claimed-lease session force true d free =
      rw free (get-clear_locks demo_driver_ids 0 _ ∙ R.get-set_ex d _ session _ (omega arith))
  claimed-lease session force false d free = rw free (R.get-set_ex d _ session _ (omega arith))

module _ ⦃F : Float⦄ where
  -- The refusal, with the name of the session that has the lease.
  abbrev pub claimed_by : String → Response
  claimed_by owner = record {
    status = 409;
    body = fields (("error", "demo session already claimed") ∷ ("owner_session_id", owner) ∷ []);
  }

not_same : (s t : String) → s ≢ t → (s == t) ≡ false
not_same s t ne = elim (Bool-cases (s == t)) [
  | inl same ↦ absurd (ne ((eq_iff s t).0 same))
  | inr other ↦ other
]

module _ ⦃R : Redis⦄ ⦃F : Float⦄ ⦃G : GeoIndex R F⦄ ⦃W : Web⦄ (s : Dispatcher) where
  open R use {Db, get}

  refused :
      (r : Request) (req : DemoResetRequest) (owner : String) (d : Db)
      → get d demo_session_lease_key ≡ some owner
      → r.method ≡ "POST"
      → W.decode_demo_reset r.body ≡ some req
      → (trim_space req.session_id == "") ≡ false
      → owner ≢ trim_space req.session_id
      → req.force ≡ false
      → handle_demo_reset s r (quiet d) ≡ (claimed_by owner, quiet d)
  unfolding handle_demo_reset demo_claim demo_reset_lease_script parse_demo_reset_result ◌>>=◌ call
      pure
  refused r req owner d held post decoded named other gentle =
      let theirs : (owner == trim_space req.session_id) ≡ false = not_same owner _ other in
      rw (post, decoded, named, held, theirs, gentle) refl

  module _ (live : 0 < whole_seconds s.lifecycle.assignment_ttl)
      (apart : IsApart s.lifecycle demo_session_lease_key) (owner : String) where
    abbrev HasLease : Db → Type 0
    HasLease d = get d demo_session_lease_key ≡ some owner

    reset_each-Keeps : (riders : List String) → Keeps HasLease (reset_each s riders)
    unfolding reset_each reset_rider_assignment
    reset_each-Keeps [] = Keeps-pure _
    reset_each-Keeps (rider ∷ riders) =
        Keeps-bind _ _
          (Keeps-bind _ _ (Keeps-lift _)
            (λ u. reset_rider-Holds s.lifecycle live demo_session_lease_key owner apart rider))
          (λ u. reset_each-Keeps riders)

    -- What `demo_claim` does after the script.
    rest-Keeps :
        (clear : Bool) (reply : Reply)
        → Keeps HasLease (
            lift (parse_demo_reset_result reply) >>= (λ claim.
              (if claim.0 && clear then reset_each s demo_rider_ids else pure tt)
              >>= (λ u. pure claim)))
    rest-Keeps clear reply = Keeps-bind _ _ (Keeps-lift _) (λ claim.
        Keeps-bind _ _
          (Keeps-if (claim.0 && clear) _ _ (reset_each-Keeps demo_rider_ids) (Keeps-pure tt))
          (λ u. Keeps-pure claim))

    demo_claim-lease :
        (force clear : Bool) (d : Db)
        → (is_other (get d demo_session_lease_key) owner && not force) ≡ false
        → HasLease (demo_claim s owner force clear (quiet d)).1.db
    unfolding demo_claim call ◌>>=◌
    demo_claim-lease force clear d free =
        let (reply, e) =
          demo_reset_lease_script demo_session_lease_key demo_lock_keys owner demo_session_lease_ttl
            force clear d in
        let kept = rest-Keeps clear reply in
        let safe =
          kept.at (quiet e)
            (record { holds = claimed-lease owner force clear d free; respected = tt }) in
        safe.holds

  claims :
      (r : Request) (req : DemoResetRequest) (d : Db)
      → r.method ≡ "POST"
      → W.decode_demo_reset r.body ≡ some req
      → (trim_space req.session_id == "") ≡ false
      → (handle_demo_reset s r (quiet d)).1
        ≡ (demo_claim s
            (trim_space req.session_id)
            req.force
            (flag_or true req.clear_locks)
            (quiet d)).1
  unfolding handle_demo_reset
  claims r req d post decoded named = rw (post, decoded, named) refl

  -- After a reset request of one session that was not refused, by force or because no other session had
  -- the lease, and whatever has become of its resets of the demo's riders, a reset request of another
  -- session without force is answered with 409 and the name of the first, and changes nothing. The sessions'
  -- names are trimmed and not blank, nobody else changes the database, the lease is no key of the
  -- dispatcher, and assignments live for at least a second.
  pub handle_demo_reset-excludes :
      (d : Db) (first second : Request) (mine theirs : DemoResetRequest)
      → 0 < whole_seconds s.lifecycle.assignment_ttl
      → IsApart s.lifecycle demo_session_lease_key
      → first.method ≡ "POST"
      → W.decode_demo_reset first.body ≡ some mine
      → (trim_space mine.session_id == "") ≡ false
      → (is_other (get d demo_session_lease_key) (trim_space mine.session_id) && not mine.force)
        ≡ false
      → second.method ≡ "POST"
      → W.decode_demo_reset second.body ≡ some theirs
      → (trim_space theirs.session_id == "") ≡ false
      → trim_space mine.session_id ≢ trim_space theirs.session_id
      → theirs.force ≡ false
      → let e = (handle_demo_reset s first (quiet d)).1.db in
        handle_demo_reset s second (quiet e) ≡ (claimed_by (trim_space mine.session_id), quiet e)
  handle_demo_reset-excludes d first second mine theirs live apart post1 decoded1 named1 free post2
        decoded2 named2 other gentle =
      refused second theirs (trim_space mine.session_id) _
        (rw (claims first mine d post1 decoded1 named1) (
          demo_claim-lease live apart (trim_space mine.session_id) mine.force
            (flag_or true mine.clear_locks) d free))
        post2 decoded2 named2 other gentle
