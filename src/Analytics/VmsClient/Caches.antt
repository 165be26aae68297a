-- ===== src/Analytics/VmsClient/Caches.antt =====
-- The last-known-good caches of the listings in analytics/src/analytics/core/vms_client.py.
use next_sec.Prelude.{
  ℕ, inl, inr, ◌≡◌, refl, Bool, true, false, Option, some, List, [], ◌∷◌, arith, ◌==◌,
  if◌then◌else◌, ◌⊎◌, ◌∙◌, ap,
}
use next_sec.Prelude.Dict.{lookup, insert, lookup-insert}
use next_sec.Analytics.VmsClient.{
  ParsedSeconds, Answer, VmsClient, list_cameras, list_watchlist, list_rois, roi_key, or_empty,
  cached_rois,
}

-- A listing with the way in which its request ends.
pub data Listing (J : Type 0) : Type 0 where
  cameras : Answer (List J) → Listing J
  watchlist : Answer (List J) → Listing J
  rois : Option ℕ → Answer (List J) → Listing J

module _ {J : Type 0} where
  abbrev pub run_listing : Listing J → VmsClient J → VmsClient J
  run_listing (Listing.cameras x) c = (list_cameras x c).0
  run_listing (Listing.watchlist x) c = (list_watchlist x c).0
  run_listing (Listing.rois k x) c = (list_rois k x c).0

  abbrev pub run_listings : List (Listing J) → VmsClient J → VmsClient J
  run_listings [] c = c
  run_listings (l ∷ ls) c = run_listings ls (run_listing l c)

  -- The last document that a request for the cameras got, or what was known before.
  abbrev pub last_cameras : List J → List (Listing J) → List J
  last_cameras known [] = known
  last_cameras known (Listing.cameras (Answer.ok found) ∷ ls) = last_cameras found ls
  last_cameras known (_ ∷ ls) = last_cameras known ls

  abbrev pub last_watchlist : List J → List (Listing J) → List J
  last_watchlist known [] = known
  last_watchlist known (Listing.watchlist (Answer.ok found) ∷ ls) = last_watchlist found ls
  last_watchlist known (_ ∷ ls) = last_watchlist known ls

  -- The same for the ROIs of one camera.
  abbrev pub last_rois : Option ℕ → List J → List (Listing J) → List J
  last_rois k known [] = known
  last_rois k known (Listing.rois j (Answer.ok found) ∷ ls) =
      last_rois k (if roi_key k == roi_key j then found else known) ls
  last_rois k known (_ ∷ ls) = last_rois k known ls

  or_empty-if :
      (b : Bool) (found : List J) (o : Option (List J))
      → or_empty (if b then some found else o) ≡ (if b then found else or_empty o)
  or_empty-if true found o = refl
  or_empty-if false found o = refl

  cached_insert :
      (k j : Option ℕ) (found : List J) (c : VmsClient J)
      → cached_rois k (record c { rois_cache = insert (roi_key j) found c.rois_cache })
        ≡ (if roi_key k == roi_key j then found else cached_rois k c)
  cached_insert k j found c =
      ap or_empty (lookup-insert (roi_key k) (roi_key j) found c.rois_cache)
      ∙ or_empty-if (roi_key k == roi_key j) found (lookup (roi_key k) c.rois_cache)

  -- What the three caches hold after a listing.
  cameras_step :
      (l : Listing J) (ls : List (Listing J)) (c : VmsClient J)
      → c.has_client ≡ true
      → last_cameras (run_listing l c).cameras_cache ls ≡ last_cameras c.cameras_cache (l ∷ ls)
  unfolding list_cameras list_watchlist list_rois
  cameras_step (Listing.cameras (Answer.ok found)) ls c h = ground arith
  cameras_step (Listing.cameras (Answer.status_error _ _)) ls c h = ground arith
  cameras_step (Listing.cameras Answer.network_error) ls c h = ground arith
  cameras_step (Listing.cameras Answer.exception) ls c h = ground arith
  cameras_step (Listing.watchlist x) ls c h = ground arith
  cameras_step (Listing.rois k x) ls c h = ground arith

  watchlist_step :
      (l : Listing J) (ls : List (Listing J)) (c : VmsClient J)
      → c.has_client ≡ true
      → last_watchlist (run_listing l c).watchlist_cache ls
        ≡ last_watchlist c.watchlist_cache (l ∷ ls)
  unfolding list_cameras list_watchlist list_rois
  watchlist_step (Listing.watchlist (Answer.ok found)) ls c h = ground arith
  watchlist_step (Listing.watchlist (Answer.status_error _ _)) ls c h = ground arith
  watchlist_step (Listing.watchlist Answer.network_error) ls c h = ground arith
  watchlist_step (Listing.watchlist Answer.exception) ls c h = ground arith
  watchlist_step (Listing.cameras x) ls c h = ground arith
  watchlist_step (Listing.rois k x) ls c h = ground arith

  rois_kept :
      (x : Answer (List J)) (c : VmsClient J)
      → ((list_cameras x c).0.rois_cache ≡ c.rois_cache)
        × ((list_watchlist x c).0.rois_cache ≡ c.rois_cache)
  unfolding list_cameras list_watchlist
  rois_kept x c = ground arith

  rois_stored :
      (j : Option ℕ) (found : List J) (c : VmsClient J)
      → c.has_client ≡ true
      → (list_rois j (Answer.ok found) c).0
        ≡ record c { rois_cache = insert (roi_key j) found c.rois_cache }
  unfolding list_rois
  rois_stored j found c h = simp h refl

  abbrev NotOk : Answer (List J) → Type 0
  NotOk (Answer.ok _) = ⊥
  NotOk _ = Unit

  rois_unchanged :
      (j : Option ℕ) (x : Answer (List J)) (c : VmsClient J) → NotOk x → (list_rois j x c).0 ≡ c
  unfolding list_rois
  rois_unchanged j (Answer.ok _) c h = absurd h
  rois_unchanged j (Answer.status_error _ _) c h = ground arith
  rois_unchanged j Answer.network_error c h = ground arith
  rois_unchanged j Answer.exception c h = ground arith

  rois_step :
      (k : Option ℕ) (l : Listing J) (ls : List (Listing J)) (c : VmsClient J)
      → c.has_client ≡ true
      → last_rois k (cached_rois k (run_listing l c)) ls ≡ last_rois k (cached_rois k c) (l ∷ ls)
  rois_step k (Listing.rois j (Answer.ok found)) ls c h =
      ap (λ x. last_rois k (cached_rois k x) ls) (rois_stored j found c h)
      ∙ ap (λ x. last_rois k x ls) (cached_insert k j found c)
  rois_step k (Listing.rois j (Answer.status_error code header)) ls c h =
      ap (λ x. last_rois k (cached_rois k x) ls)
        (rois_unchanged j (Answer.status_error code header) c tt)
  rois_step k (Listing.rois j Answer.network_error) ls c h =
      ap (λ x. last_rois k (cached_rois k x) ls) (rois_unchanged j Answer.network_error c tt)
  rois_step k (Listing.rois j Answer.exception) ls c h =
      ap (λ x. last_rois k (cached_rois k x) ls) (rois_unchanged j Answer.exception c tt)
  rois_step k (Listing.cameras x) ls c h =
      ap (λ d. last_rois k (or_empty (lookup (roi_key k) d)) ls) (rois_kept x c).0
  rois_step k (Listing.watchlist x) ls c h =
      ap (λ d. last_rois k (or_empty (lookup (roi_key k) d)) ls) (rois_kept x c).1

  has_client-run_listing :
      (l : Listing J) (c : VmsClient J) → (run_listing l c).has_client ≡ c.has_client
  unfolding list_cameras list_watchlist list_rois
  has_client-run_listing (Listing.cameras x) c = ground arith
  has_client-run_listing (Listing.watchlist x) c = ground arith
  has_client-run_listing (Listing.rois k x) c = ground arith

  caches_hold :
      (k : Option ℕ) (ls : List (Listing J)) (c : VmsClient J)
      → c.has_client ≡ true
      → let c' = run_listings ls c in
        (c'.has_client ≡ true)
        × (c'.cameras_cache ≡ last_cameras c.cameras_cache ls)
        × (c'.watchlist_cache ≡ last_watchlist c.watchlist_cache ls)
        × (cached_rois k c' ≡ last_rois k (cached_rois k c) ls)
  caches_hold k [] c h = (h, refl, refl, refl)
  caches_hold k (l ∷ ls) c h =
      let rest = caches_hold k ls (run_listing l c) (has_client-run_listing l c ∙ h) in
      (
        rest.0,
        rest.1 ∙ cameras_step l ls c h,
        rest.2 ∙ watchlist_step l ls c h,
        rest.3 ∙ rois_step k l ls c h,
      )

  -- An HTTPError: a refusal of the server, or a failure of the network.
  abbrev pub IsHttpError : Answer (List J) → Type 0
  IsHttpError x =
      ((code : ℕ) × (header : ParsedSeconds) × (x ≡ Answer.status_error code header))
      ⊎ (x ≡ Answer.network_error)

  answers_known :
      (k : Option ℕ) (x : Answer (List J)) (c : VmsClient J)
      → c.has_client ≡ true
      → IsHttpError x
      → ((list_cameras x c).1 ≡ some c.cameras_cache)
        × ((list_watchlist x c).1 ≡ some c.watchlist_cache)
        × ((list_rois k x c).1 ≡ some (cached_rois k c))
  unfolding list_cameras list_watchlist list_rois
  answers_known k x c h (inl (code, header, e)) = simp (h, e) (refl, refl, refl)
  answers_known k x c h (inr e) = simp (h, e) (refl, refl, refl)

  -- After any history of listings by a started client, for any cameras and with any answers, a listing
  -- that ends in an HTTPError answers the last document which the same listing got, for the ROIs that
  -- of the same camera, and what the cache held before the history if it got none.
  pub listings-last_known :
      (k : Option ℕ) (x : Answer (List J)) (ls : List (Listing J)) (c : VmsClient J)
      → c.has_client ≡ true
      → IsHttpError x
      → let c' = run_listings ls c in
        ((list_cameras x c').1 ≡ some (last_cameras c.cameras_cache ls))
        × ((list_watchlist x c').1 ≡ some (last_watchlist c.watchlist_cache ls))
        × ((list_rois k x c').1 ≡ some (last_rois k (cached_rois k c) ls))
  listings-last_known k x ls c h failed =
      let held = caches_hold k ls c h in
      let known = answers_known k x (run_listings ls c) held.0 failed in
      (known.0 ∙ ap some held.1, known.1 ∙ ap some held.2, known.2 ∙ ap some held.3)
