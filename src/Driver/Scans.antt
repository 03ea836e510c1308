-- ===== src/Driver/Scans.antt =====
-- internal/driver/driver.go: the loop over SCAN, against the pages that the server gives, and the counts.
use geo_spatial_dispatch_ser.Prelude.{
  ℕ, zero, suc, ◌+◌, ◌≤◌, String, ◌≡◌, ◌∙◌, refl, ap, Bool, true, false, Option, none, some, List,
  [], ◌∷◌, ◌++◌, ◌==◌, Bool-cases, arith, nat_eq, concat, if◌then◌else◌, Option-cases, inl, inr,
}
use geo_spatial_dispatch_ser.Result.{ok}
use geo_spatial_dispatch_ser.Redis.{Redis}
use geo_spatial_dispatch_ser.Client.{quiet, pure, call, ◌>>=◌}
use geo_spatial_dispatch_ser.Driver.{
  DriverService, DriverStatus, status_available, mget, visit_page, page_values, scan_statuses,
  get_driver_stats,
}

abbrev pub length {ℓ} : {A : Type ℓ} → List A → ℕ
length [] = 0
length (a ∷ l) = suc (length l)

abbrev with_some : Option DriverStatus → List DriverStatus → List DriverStatus
with_some none l = l
with_some (some status) l = status ∷ l

pair : {a b c d : ℕ} → a ≡ b → c ≡ d → ◌≡◌ {A = ℕ × ℕ} (a, c) (b, d)
pair p q = rw (p, q) refl

count_if : (b : Bool) (a n : ℕ) → (if b then a + 1 else a) + n ≡ a + (if b then suc n else n)
count_if true a n = omega arith
count_if false a n = refl

length-append : {A : Type 0} (xs ys : List A) → length (xs ++ ys) ≡ length xs + length ys
length-append [] ys = omega arith
length-append (x ∷ xs) ys = omega (arith, length-append xs ys)

module _ ⦃R : Redis⦄ (ds : DriverService) (d : R.Db) where
  open R use {Db, get, scan}

  abbrev page : ℕ → List String × ℕ
  page cursor = scan d cursor (concat ds.key_prefix ":status:*") 100

  -- The pages of keys that the server gives from a cursor on, until the cursor is 0.
  pub data Pages : ℕ → List (List String) → Type 0 where
    last : (cursor : ℕ) (keys : List String) → page cursor ≡ (keys, 0) → Pages cursor (keys ∷ [])
    more :
        (cursor : ℕ) (keys : List String) (next : ℕ) (pages : List (List String))
        → page cursor ≡ (keys, next)
        → nat_eq next 0 ≡ false
        → Pages next pages
        → Pages cursor (keys ∷ pages)

  module _ {S : Type 0} (visit : S → String → DriverStatus → S) where
    -- The visits of all pages, in order.
    abbrev pub visits : List (List String) → S → S
    visits [] s = s
    visits (keys ∷ pages) s =
        visits pages (visit_page visit (concat ds.key_prefix ":status:") keys (mget d keys) s)

    page_values-mget :
        (keys : List String) → page_values keys (quiet d) ≡ (ok (mget d keys), quiet d)
    unfolding call pure
    page_values-mget [] = refl
    page_values-mget (k ∷ keys) = refl

    -- With one unit of fuel for each page, the loop visits every entry of every page and ends.
    pub scan_statuses-visits :
        (fuel cursor : ℕ) (pages : List (List String)) (s : S)
        → Pages cursor pages
        → length pages ≤ fuel
        → scan_statuses ds visit fuel cursor s (quiet d) ≡ (ok (some (visits pages s)), quiet d)
    unfolding scan_statuses call ◌>>=◌ pure
    scan_statuses-visits zero cursor pages s (last _ keys e) enough = absurd (omega (arith, enough))
    scan_statuses-visits zero cursor pages s (more _ keys next rest e going p) enough =
        absurd (omega (arith, enough))
    scan_statuses-visits (suc fuel) cursor pages s (last _ keys e) enough =
        rw (e, page_values-mget keys) refl
    scan_statuses-visits (suc fuel) cursor pages s (more _ keys next rest e going p) enough =
        rw (e, page_values-mget keys, going)
          (scan_statuses-visits fuel next rest
            (visit_page visit (concat ds.key_prefix ":status:") keys (mget d keys) s) p
            (omega (arith, enough)))

  -- The stored statuses of some keys; a key without a value is passed over.
  abbrev pub stored : List String → List DriverStatus
  stored [] = []
  stored (k ∷ keys) = with_some (get d k) (stored keys)

  abbrev pub stored_all : List (List String) → List DriverStatus
  stored_all [] = []
  stored_all (keys ∷ pages) = stored keys ++ stored_all pages

  -- How many of the statuses are available.
  abbrev pub available : List DriverStatus → ℕ
  available [] = 0
  available (status ∷ statuses) =
      let rest = available statuses in if status == status_available then suc rest else rest

  abbrev counted : ℕ × ℕ → String → DriverStatus → ℕ × ℕ
  counted counts id status =
      (counts.0 + 1, if status == status_available then counts.1 + 1 else counts.1)

  page_counts :
      (keys : List String) (t a : ℕ)
      → visit_page counted (concat ds.key_prefix ":status:") keys (mget d keys) (t, a)
        ≡ (t + length (stored keys), a + available (stored keys))
  page_counts [] t a = pair (omega arith) (omega arith)
  page_counts (k ∷ keys) t a = elim (Option-cases (get d k)) [
    | inl gone ↦ rw gone (page_counts keys t a)
    | inr (status, there) ↦ rw there (
        page_counts keys (t + 1) (if status == status_available then a + 1 else a)
        ∙ pair (omega arith) (count_if (status == status_available) a (available (stored keys))))
  ]

  available-append :
      (xs ys : List DriverStatus) → available (xs ++ ys) ≡ available xs + available ys
  available-append [] ys = omega arith
  available-append (x ∷ xs) ys = elim (Bool-cases (x == status_available)) [
    | inl free ↦ rw free (omega (arith, available-append xs ys))
    | inr taken ↦ rw taken (available-append xs ys)
  ]

  all_counts :
      (pages : List (List String)) (t a : ℕ)
      → visits counted pages (t, a)
        ≡ (t + length (stored_all pages), a + available (stored_all pages))
  all_counts [] t a = pair (omega arith) (omega arith)
  all_counts (keys ∷ pages) t a =
      ap (visits counted pages) (page_counts keys t a)
      ∙ all_counts pages (t + length (stored keys)) (a + available (stored keys))
      ∙ pair (omega (arith, length-append (stored keys) (stored_all pages)))
          (omega (arith, available-append (stored keys) (stored_all pages)))

  -- `GetDriverStats` counts the stored statuses under the keys of all pages of the scan, and how many of
  -- them are available, if the fuel is at least the number of pages, and it changes nothing.
  pub get_driver_stats-counts :
      (fuel : ℕ) (pages : List (List String))
      → Pages 0 pages
      → length pages ≤ fuel
      → get_driver_stats ds fuel (quiet d)
        ≡ (ok (some (length (stored_all pages), available (stored_all pages))), quiet d)
  unfolding get_driver_stats
  get_driver_stats-counts fuel pages p enough =
      scan_statuses-visits counted fuel 0 pages (0, 0) p enough
      ∙ ap (λ c. (ok (some c), quiet d)) (all_counts pages 0 0 ∙ pair (omega arith) (omega arith))
