-- ===== src/Driver/Statuses.antt =====
-- internal/driver/driver.go: `GetStatuses` against `GetStatus`.
use mathlib.Core.List.{Memᴰ}
use geo_spatial_dispatch_ser.Prelude.{
  String, ◌≡◌, ◌≢◌, ◌∙◌, refl, sym, ap, false, Option, none, some, List, [], ◌∷◌, map, arith,
  eq_iff, eq_refl, ◌⊎◌, inl, inr, Text-cases, Option-cases, is_blank,
}
use geo_spatial_dispatch_ser.Result.{ok, err}
use geo_spatial_dispatch_ser.Redis.{Redis, lookup}
use geo_spatial_dispatch_ser.Client.{quiet, call, ◌>>=◌, pure}
use geo_spatial_dispatch_ser.Driver.{
  DriverService, DriverStatus, status_key, status_of, status_offline, note_statuses, get_statuses,
  get_status, mget, or_offline,
}
use geo_spatial_dispatch_ser.Driver.Laws.{get_status_lem}

abbrev or_empty : Option DriverStatus → DriverStatus
or_empty o = elim o [ none ↦ "" | some s ↦ s ]

lookup-head :
    {V : Type 0} (id : String) (v : V) (l : List (String × V)) → lookup id ((id, v) ∷ l) ≡ some v
lookup-head id v l = rw (eq_refl id) refl

lookup-tail :
    {V : Type 0} (id i : String) (v : V) (l : List (String × V))
    → i ≢ id
    → lookup id ((i, v) ∷ l) ≡ lookup id l
lookup-tail id i v l ne = ground (arith, eq_iff i id)

-- `l` has an entry for `id`, or `ids` has `id`.
abbrev Covers : {V : Type 0} → String → V → List (String × V) → List String → Type 0
Covers id v l ids = (lookup id l ≡ some v) ⊎ Memᴰ id ids

drop :
    {V : Type 0} (id : String) (v : V) (l : List (String × V)) (i : String) (ids : List String)
    → i ≢ id
    → Covers id v l (i ∷ ids)
    → Covers id v l ids
drop id v l i ids ne (inl e) = inl e
drop id v l i ids ne (inr (Memᴰ.head e)) = absurd (ne (sym e))
drop id v l i ids ne (inr (Memᴰ.tail m)) = inr m

add :
    {V : Type 0} (id : String) (v : V) (l : List (String × V)) (i : String) (u : V)
    (ids : List String)
    → i ≢ id
    → Covers id v l ids
    → Covers id v ((i, u) ∷ l) ids
add id v l i u ids ne (inl e) = inl (lookup-tail id i u l ne ∙ e)
add id v l i u ids ne (inr m) = inr m

module _ ⦃R : Redis⦄ (ds : DriverService) (d : R.Db) (id : String) where
  open R use {get}

  -- One id in the loop over the values of MGET, by its own value there.
  noted_none :
      (ids : List String) (statuses : List (String × DriverStatus))
      → get d (status_key ds id) ≡ none
      → lookup id (note_statuses ids (mget d (map (status_key ds) ids)) statuses)
        ≡ lookup id statuses
  noted_none [] statuses h = refl
  noted_none (i ∷ ids) statuses h = elim (Option-cases (get d (status_key ds i))) [
    | inl none_there ↦ rw none_there (noted_none ids statuses h)
    | inr (u, there) ↦ rw there (
        noted_none ids ((i, u) ∷ statuses) h
        ∙ lookup-tail id i u statuses
            (λ same. cc (ap (λ x. get d (status_key ds x)) same, there, h)))
  ]

  noted_some :
      (v : String) (ids : List String) (statuses : List (String × DriverStatus))
      → get d (status_key ds id) ≡ some v
      → Covers id v statuses ids
      → lookup id (note_statuses ids (mget d (map (status_key ds) ids)) statuses) ≡ some v
  noted_some v [] statuses h (inl e) = e
  noted_some v [] statuses h (inr m) = elim m [ ]
  noted_some v (i ∷ ids) statuses h c = elim (Text-cases i id) [
    | inl same ↦
        rw (ap (λ x. get d (status_key ds x)) same ∙ h)
          (noted_some v ids ((i, v) ∷ statuses) h (inl (rw same (lookup-head id v statuses))))
    | inr ne ↦ elim (Option-cases (get d (status_key ds i))) [
      | inl none_there ↦ rw none_there (noted_some v ids statuses h (drop id v statuses i ids ne c))
      | inr (u, there) ↦ rw there (
          noted_some v ids ((i, u) ∷ statuses) h
            (add id v statuses i u ids ne (drop id v statuses i ids ne c)))
    ]
  ]

  offline_there :
      (ids : List String)
      → Memᴰ id ids
      → lookup id (map (λ i. (i, status_offline)) ids) ≡ some "offline"
  offline_there [] m = elim m [ ]
  offline_there (i ∷ ids) (Memᴰ.head e) = rw (sym e) (lookup-head id "offline" _)
  offline_there (i ∷ ids) (Memᴰ.tail m) = ground (arith, offline_there ids m)

  pub status_noted :
      (ids : List String)
      → Memᴰ id ids
      → status_of
          (note_statuses ids
            (mget d (map (status_key ds) ids))
            (map (λ i. (i, status_offline)) ids))
          id
        ≡ or_offline (get d (status_key ds id))
  status_noted ids m = elim (Option-cases (get d (status_key ds id))) [
    | inl gone ↦
        ap or_empty (noted_none ids _ gone ∙ offline_there ids m) ∙ sym (ap or_offline gone)
    | inr (v, there) ↦ ap or_empty (noted_some v ids _ there (inr m)) ∙ sym (ap or_offline there)
  ]

  -- `GetStatuses` agrees with `GetStatus` on every id of its list that is not blank, also where the id
  -- occurs twice, and it changes nothing.
  pub get_statuses-get_status :
      (ids : List String)
      → Memᴰ id ids
      → is_blank id ≡ false
      → let (statuses, w) = get_statuses ds ids (quiet d) in
        (w ≡ quiet d)
        × (elim statuses [ ok l ↦ ok (status_of l id) | err e ↦ err e ]
            ≡ (get_status ds id (quiet d)).0)
  unfolding get_statuses call ◌>>=◌ pure
  get_statuses-get_status [] m named = elim m [ ]
  get_statuses-get_status (i ∷ ids) m named =
      (refl, rw (get_status_lem ds id d named) (ap ok (status_noted (i ∷ ids) m)))
