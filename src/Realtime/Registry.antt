-- ===== src/Realtime/Registry.antt =====
-- The maps of internal/realtime/hub.go from ids to connections (pointers to clients).
use geo_spatial_dispatch_ser.Prelude.{
  ℕ, String, ◌==◌, eq_iff, ◌≡◌, ◌≢◌, refl, Option, none, some, List, [], ◌∷◌, if◌then◌else◌,
  Bool-cases, inl, inr, arith, ◌⊎◌,
}

-- A pointer to a client, and a map with one entry for each id, in any order.
abbrev pub Ref : Type 0
Ref = ℕ

abbrev pub Registry : Type 0
Registry = List (String × Ref)

unfoldable pub find : String → Registry → Option Ref
find id [] = none
find id ((k, r) ∷ rest) = let other = find id rest in if k == id then some r else other

unfoldable pub put : String → Ref → Registry → Registry
put id r [] = (id, r) ∷ []
put id r ((k, q) ∷ rest) =
    let others = put id r rest in if k == id then (k, r) ∷ rest else (k, q) ∷ others

unfoldable pub delete : String → Registry → Registry
delete id [] = []
delete id ((k, q) ∷ rest) =
    let others = delete id rest in if k == id then others else (k, q) ∷ others

pub find-put :
    (i id : String) (r : Ref) (m : Registry)
    → find i (put id r m) ≡ (if id == i then some r else find i m)
unfolding find put
find-put i id r [] = refl
find-put i id r ((k, q) ∷ rest) =
    ground (arith, find-put i id r rest, eq_iff k id, eq_iff id i, eq_iff k i)

pub find-delete :
    (i id : String) (m : Registry) → find i (delete id m) ≡ (if id == i then none else find i m)
unfolding find delete
find-delete i id [] = ground arith
find-delete i id ((k, q) ∷ rest) =
    ground (arith, find-delete i id rest, eq_iff k id, eq_iff id i, eq_iff k i)

-- No id has two entries.
abbrev pub IsMap : Registry → Type 0
IsMap [] = Unit
IsMap ((k, q) ∷ rest) = (find k rest ≡ none) × IsMap rest

pub put-IsMap : (id : String) (r : Ref) (m : Registry) → IsMap m → IsMap (put id r m)
unfolding put find
put-IsMap id r [] h = (refl, tt)
put-IsMap id r ((k, q) ∷ rest) h = elim (Bool-cases (k == id)) [
  | inl same ↦ rw same h
  | inr other ↦
      rw other (
        ground (arith, find-put k id r rest, h.0, eq_iff k id, eq_iff id k),
        put-IsMap id r rest h.1,
      )
]

pub delete-IsMap : (id : String) (m : Registry) → IsMap m → IsMap (delete id m)
unfolding delete find
delete-IsMap id [] h = tt
delete-IsMap id ((k, q) ∷ rest) h = elim (Bool-cases (k == id)) [
  | inl same ↦ rw same (delete-IsMap id rest h.1)
  | inr other ↦ rw other (ground (arith, find-delete k id rest, h.0), delete-IsMap id rest h.1)
]

pub found-put :
    (i id : String) (r q : Ref) (m : Registry)
    → find i (put id r m) ≡ some q
    → ((id ≡ i) × (r ≡ q)) ⊎ (find i m ≡ some q)
found-put i id r q m e = ground (arith, find-put i id r m, eq_iff id i)

pub found-delete :
    (i id : String) (q : Ref) (m : Registry)
    → find i (delete id m) ≡ some q
    → (id ≢ i) × (find i m ≡ some q)
found-delete i id q m e =
    (λ same. ground (arith, find-delete i id m, eq_iff id i), ground (arith, find-delete i id m))
