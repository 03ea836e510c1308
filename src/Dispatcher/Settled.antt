-- ===== src/Dispatcher/Settled.antt =====
-- internal/dispatch/lifecycle.go: an assignment that is arrived or cancelled stays so.
use geo_spatial_dispatch_ser.Prelude.{
  String, ◌≡◌, ◌≢◌, ◌∙◌, refl, sym, Option, none, some, List, [], ◌∷◌,
}
use geo_spatial_dispatch_ser.Redis.{Redis}
use geo_spatial_dispatch_ser.Float.{Float}
use geo_spatial_dispatch_ser.Geo.{GeoIndex}
use geo_spatial_dispatch_ser.Lifecycle.Types.{assignment_key}
use geo_spatial_dispatch_ser.Dispatcher.Types.{Dispatcher}
use geo_spatial_dispatch_ser.Dispatcher.Wiring.{IsWired}
use geo_spatial_dispatch_ser.Dispatcher.Commands.{Command, assignment_expires, perform, perform_all}
use geo_spatial_dispatch_ser.Dispatcher.Moves.{Move, stays, starts, arrives, is_cancelled, vanishes}
use geo_spatial_dispatch_ser.Dispatcher.Transitions.{perform-Move}

-- No command of the list is the expiry of the assignment.
abbrev pub Lasts : ⦃F : Float⦄ → String → List Command → Type 0
Lasts r [] = Unit
Lasts r (command ∷ commands) = (command ≢ assignment_expires r) × Lasts r commands

final-Move :
    {E : Type 0} {a b : Option String} → ¬ E → a ≢ none → a ≢ some "en_route" → Move E a b → b ≡ a
final-Move lasts there settled (stays e) = e
final-Move lasts there settled (starts e _) = absurd (there e)
final-Move lasts there settled (arrives e _) = absurd (settled e)
final-Move lasts there settled (is_cancelled e _) = absurd (settled e)
final-Move lasts there settled (vanishes x _) = absurd (lasts x)

module _ ⦃R : Redis⦄ ⦃F : Float⦄ ⦃G : GeoIndex R F⦄ (s : Dispatcher) (w : IsWired s) where
  open R use {Db, hget}

  -- An assignment with a status other than en_route keeps that status through any list of `Command`s, the
  -- dispatcher's round trips but those of a reset, as long as its own key does not expire: an arrived or cancelled ride never changes.
  pub settled_for_good :
      (commands : List Command) (d : Db) (r : String)
      → hget d (assignment_key s.lifecycle r) "status" ≢ none
      → hget d (assignment_key s.lifecycle r) "status" ≢ some "en_route"
      → Lasts r commands
      → hget (perform_all s commands d) (assignment_key s.lifecycle r) "status"
        ≡ hget d (assignment_key s.lifecycle r) "status"
  settled_for_good [] d r there settled lasts = refl
  settled_for_good (command ∷ commands) d r there settled (lasts, later) =
      let e = final-Move lasts there settled (perform-Move s w command d r) in
      settled_for_good commands (perform s command d) r (λ p. there (sym e ∙ p))
        (λ p. settled (sym e ∙ p)) later
      ∙ e
