-- ===== src/Analytics/Face/Consent.antt =====
-- The end of consent in analytics/src/analytics/plugins/face_recognition/plugin.py: from when on a
-- tenant whose watchlist the server no longer gives out has no face recognised.
use next_sec.Prelude.{
  ℕ, ◌+◌, ◌-◌, ◌≤◌, ◌≡◌, refl, Bool, true, false, not, Option, none, some, inl, inr, ◌⊎◌, List, [],
  ◌∷◌, arith, All, if◌then◌else◌, ltb, Bool-cases, ap,
}
use next_sec.Prelude.Int.{ℤ}
use next_sec.Prelude.Dict.{Dict, lookup, lookup-insert}
use next_sec.Analytics.VmsClient.{Answer, VmsClient, list_watchlist}
use next_sec.Analytics.Face.{
  FaceRecognitionPlugin, Recognized, watchlist_ttl, cached_watchlist, store_listing, or_fetch,
  get_watchlist, recognize_gated, process_face_frame,
}

-- A frame: the clock, the tenant, the faces in it, how a request for the watchlist would end at that
-- time, and what the reference images give.
pub record FaceFrame (E J : Type 0) : Type 0 where
  pub now : ℕ
  pub tenant_id : ℕ
  pub has_face_roi : Bool
  pub answer : Answer (List J)
  pub embed : J → Option (ℕ × E)
  pub faces : List E

-- The server gives nobody: it lists none, refuses, cannot be reached, or the request raises.
module _ {J : Type 0} where
  abbrev pub GivesNone : Answer (List J) → Type 0
  GivesNone (Answer.ok entries) = entries ≡ []
  GivesNone _ = Unit

  -- A listing that gives none, over a client that knows none.
  abbrev EmptyListing : VmsClient J × Option (List J) → Type 0
  EmptyListing (c, o) = (c.watchlist_cache ≡ []) × ((o ≡ none) ⊎ (o ≡ some []))

  list_watchlist-gone :
      (answer : Answer (List J)) (c : VmsClient J)
      → GivesNone answer
      → c.watchlist_cache ≡ []
      → EmptyListing (list_watchlist answer c)
  unfolding list_watchlist
  list_watchlist-gone (Answer.ok found) c none_given known = ground arith
  list_watchlist-gone (Answer.status_error _ _) c none_given known = ground arith
  list_watchlist-gone Answer.network_error c none_given known = ground arith
  list_watchlist-gone Answer.exception c none_given known = ground arith

abbrev pub recognized : Option (List Recognized) → List Recognized
recognized none = []
recognized (some rs) = rs

module _ {E : Type 0} where
  -- What the plugin has cached is from that time or before it, or empty.
  abbrev pub OldOrEmpty : ℕ → Dict (ℕ × List (ℕ × E)) → Type 0
  OldOrEmpty end d =
      (tenant_id at : ℕ) (embeddings : List (ℕ × E))
      → lookup tenant_id d ≡ some (at, embeddings)
      → (at ≤ end) ⊎ (embeddings ≡ [])

  abbrev NoneLeft : Option (List (ℕ × E)) → Type 0
  NoneLeft o = (o ≡ none) ⊎ (o ≡ some [])

module _ {E J : Type 0} where
  -- And what the client would answer from memory is empty.
  abbrev IsGone : ℕ → FaceRecognitionPlugin E J → Type 0
  IsGone end p = (p.client.watchlist_cache ≡ []) × OldOrEmpty end p.watchlist_cache

  store_listing-IsGone :
      (end now k : ℕ) (embed : J → Option (ℕ × E)) (p : FaceRecognitionPlugin E J)
      (r : VmsClient J × Option (List J))
      → EmptyListing r
      → OldOrEmpty end p.watchlist_cache
      → IsGone end (store_listing now k embed p r).0 × NoneLeft (store_listing now k embed p r).1
  store_listing-IsGone end now k embed p (c, none) e h = ((e.0, h), inl refl)
  store_listing-IsGone end now k embed p (c, some []) e h = (
    (
      e.0,
      λ j at es found. ground (arith, lookup-insert j k (now, []) p.watchlist_cache, h j at es),
    ),
    inr refl,
  )
  store_listing-IsGone end now k embed p (c, some (x ∷ xs)) e h = absurd (ground arith)

  fetch-IsGone :
      (end now k : ℕ) (answer : Answer (List J)) (embed : J → Option (ℕ × E))
      (p : FaceRecognitionPlugin E J)
      → GivesNone answer
      → IsGone end p
      → IsGone end (or_fetch now k answer embed p none).0
        × NoneLeft (or_fetch now k answer embed p none).1
  fetch-IsGone end now k answer embed p gives h =
      store_listing-IsGone end now k embed p (list_watchlist answer p.client)
        (list_watchlist-gone answer p.client gives h.0) h.1

  get_watchlist-IsGone :
      (end now k : ℕ) (answer : Answer (List J)) (embed : J → Option (ℕ × E))
      (p : FaceRecognitionPlugin E J)
      → GivesNone answer
      → IsGone end p
      → IsGone end (get_watchlist now k answer embed p).0
  unfolding get_watchlist
  get_watchlist-IsGone end now k answer embed p gives h =
      by_entry (cached_watchlist now (lookup k p.watchlist_cache))
    where
      by_entry : (o : Option (List (ℕ × E))) → IsGone end (or_fetch now k answer embed p o).0
      by_entry (some es) = h
      by_entry none = (fetch-IsGone end now k answer embed p gives h).0

  -- A minute later nothing that was cached before is used any more.
  get_watchlist-gone :
      (end now k : ℕ) (answer : Answer (List J)) (embed : J → Option (ℕ × E))
      (p : FaceRecognitionPlugin E J)
      → GivesNone answer
      → IsGone end p
      → end + watchlist_ttl ≤ now
      → NoneLeft (get_watchlist now k answer embed p).1
  unfolding get_watchlist
  get_watchlist-gone end now k answer embed p gives h late =
      by_cached (lookup k p.watchlist_cache) refl
    where
      fetched : NoneLeft (or_fetch now k answer embed p none).1
      fetched = (fetch-IsGone end now k answer embed p gives h).1

      by_cached :
          (o : Option (ℕ × List (ℕ × E)))
          → lookup k p.watchlist_cache ≡ o
          → NoneLeft (or_fetch now k answer embed p (cached_watchlist now o)).1
      by_cached none e = fetched
      by_cached (some (at, es)) e = elim (Bool-cases (ltb (now - at) watchlist_ttl)) [
        | inl fresh ↦ elim (h.1 k at es e) [
          | inl old ↦ absurd (ground arith)
          | inr empty ↦ rw fresh (inr (ap some empty))
        ]
        | inr stale ↦ rw stale fetched
      ]

module _ {E : Type 0} (cosine_similarity : E → E → ℤ) where
  gated_none :
      (threshold : ℤ) (ws : Option (List (ℕ × E))) (faces : List E)
      → NoneLeft ws
      → recognized (recognize_gated cosine_similarity threshold ws faces) ≡ []
  gated_none threshold none faces e = refl
  gated_none threshold (some []) faces e = refl
  gated_none threshold (some (w ∷ ws)) faces e = absurd (ground arith)

module _ {E J : Type 0} (cosine_similarity : E → E → ℤ) where
  abbrev pub face_frame :
      FaceFrame E J
      → FaceRecognitionPlugin E J
      → FaceRecognitionPlugin E J × Option (List Recognized)
  face_frame f p =
      process_face_frame cosine_similarity f.now f.tenant_id f.has_face_roi f.answer f.embed f.faces
        p

  abbrev pub run_face_frames :
      List (FaceFrame E J) → FaceRecognitionPlugin E J → FaceRecognitionPlugin E J
  run_face_frames [] p = p
  run_face_frames (f ∷ fs) p = run_face_frames fs (face_frame f p).0

  -- What is answered past the early returns.
  abbrev answered :
      FaceFrame E J
      → FaceRecognitionPlugin E J
      → FaceRecognitionPlugin E J × Option (List Recognized)
  answered f p =
      let out = get_watchlist f.now f.tenant_id f.answer f.embed p in
      (out.0, recognize_gated cosine_similarity p.similarity_threshold out.1 f.faces)

  -- The two early returns.
  abbrev branches :
      Bool
      → Bool
      → FaceRecognitionPlugin E J
      → FaceRecognitionPlugin E J × Option (List Recognized)
      → FaceRecognitionPlugin E J × Option (List Recognized)
  branches no_app no_roi p out =
      if no_app then (p, some []) else if no_roi then (p, some []) else out

  branches_lem :
      (P : FaceRecognitionPlugin E J × Option (List Recognized) → Type 0) (no_app no_roi : Bool)
      (p : FaceRecognitionPlugin E J) (out : FaceRecognitionPlugin E J × Option (List Recognized))
      → P (p, some [])
      → P out
      → P (branches no_app no_roi p out)
  branches_lem P true no_roi p out h k = h
  branches_lem P false true p out h k = h
  branches_lem P false false p out h k = k

  face_frame-IsGone :
      (end : ℕ) (f : FaceFrame E J) (p : FaceRecognitionPlugin E J)
      → GivesNone f.answer
      → IsGone end p
      → IsGone end (face_frame f p).0
  unfolding process_face_frame
  face_frame-IsGone end f p gives h =
      branches_lem (λ r. IsGone end r.0) (not p.has_app) (not f.has_face_roi) p (answered f p) h
        (get_watchlist-IsGone end f.now f.tenant_id f.answer f.embed p gives h)

  run-IsGone :
      (end : ℕ) (fs : List (FaceFrame E J)) (p : FaceRecognitionPlugin E J)
      → All (λ f. GivesNone f.answer) fs
      → IsGone end p
      → IsGone end (run_face_frames fs p)
  run-IsGone end [] p gives h = h
  run-IsGone end (f ∷ fs) p gives h =
      run-IsGone end fs (face_frame f p).0 gives.1 (face_frame-IsGone end f p gives.0 h)

  -- The gate of the LGPD: once the plugin's client has last been given an empty watchlist, and as long
  -- as the server gives nobody, be it that it lists none, refuses, cannot be reached or the request
  -- raises, every frame a minute later or more recognises nobody, whatever watchlists the plugin has
  -- cached up to then, whatever frames of whatever tenants come between, and whatever faces it sees.
  pub run_face_frames-consent :
      (end : ℕ) (fs : List (FaceFrame E J)) (f : FaceFrame E J) (p : FaceRecognitionPlugin E J)
      → p.client.watchlist_cache ≡ []
      → OldOrEmpty end p.watchlist_cache
      → All (λ g. GivesNone g.answer) fs
      → GivesNone f.answer
      → end + watchlist_ttl ≤ f.now
      → recognized (face_frame f (run_face_frames fs p)).1 ≡ []
  unfolding process_face_frame
  run_face_frames-consent end fs f p known cached gives gives_f late =
      let q = run_face_frames fs p in
      let left =
        get_watchlist-gone end f.now f.tenant_id f.answer f.embed q gives_f
          (run-IsGone end fs p gives (known, cached)) late in
      branches_lem (λ r. recognized r.1 ≡ []) (not q.has_app) (not f.has_face_roi) q (answered f q)
        refl (gated_none cosine_similarity q.similarity_threshold _ f.faces left)
