-- ===== src/Analytics/Face.antt =====
-- Face recognition: analytics/src/analytics/plugins/face_recognition/matching.py and plugin.py. The
-- similarity of two embeddings is an argument: numpy computes it over floats. It counts millionths,
-- and the time microseconds. What the server answers, the embedding of a reference image and the
-- faces that the model finds are arguments too. The watchlist is asked for through the plugin's own
-- client, that of Analytics/VmsClient.
pub mod Matching
pub mod Consent
mod Tests
use next_sec.Prelude.{
  ℕ, ◌-◌, Bool, true, false, not, Option, none, some, List, [], ◌∷◌, ltb, leb, ◌==◌, if◌then◌else◌,
}
use next_sec.Prelude.Int.{ℤ, pos, pos_part, neg_part, leb_ℤ}
use next_sec.Prelude.Dict.{Dict, lookup, insert}
use next_sec.Analytics.Geometry.{ltb_ℤ}
use next_sec.Analytics.VmsClient.{Answer, VmsClient, list_watchlist}

abbrev pub watchlist_ttl : ℕ
watchlist_ttl = 60_000_000

-- `best_id` and `best_sim`; `none` is the pair of None and 0.0.
abbrev pub BestFace : Type 0
BestFace = Option (ℕ × ℤ)

abbrev pub similarity_of : BestFace → ℤ
similarity_of none = pos 0
similarity_of (some (_, best_sim)) = best_sim

module _ {E : Type 0} (cosine_similarity : E → E → ℤ) where
  -- The loop over the watchlist.
  unfoldable pub scan_watchlist : E → List (ℕ × E) → BestFace → BestFace
  scan_watchlist embedding [] best = best
  scan_watchlist embedding ((profile_id, ref_embedding) ∷ rest) best =
      let sim = cosine_similarity embedding ref_embedding in
      scan_watchlist embedding rest
        (if ltb_ℤ (similarity_of best) sim then some (profile_id, sim) else best)

  abbrev pub above : ℤ → BestFace → BestFace
  above threshold none = none
  above threshold (some (best_id, best_sim)) =
      if leb_ℤ threshold best_sim then some (best_id, best_sim) else none

  unfoldable pub best_face : E → List (ℕ × E) → ℤ → BestFace
  unfolding scan_watchlist
  best_face embedding watchlist threshold =
      above threshold (scan_watchlist embedding watchlist none)

-- The plugin: `_app` as a flag, its client, which `initialize` makes before the model is loaded,
-- `_watchlist_cache` with the time of each fetch, and the threshold. J is an entry of the watchlist.
pub record FaceRecognitionPlugin (E J : Type 0) : Type 0 where
  pub has_app : Bool
  pub client : VmsClient J
  pub watchlist_cache : Dict (ℕ × List (ℕ × E))
  pub similarity_threshold : ℤ

-- A recognised face: the profile and the similarity.
abbrev pub Recognized : Type 0
Recognized = ℕ × ℤ

module _ {E : Type 0} where
  -- `cached and now - cached[0] < 60`
  abbrev pub cached_watchlist : ℕ → Option (ℕ × List (ℕ × E)) → Option (List (ℕ × E))
  cached_watchlist now none = none
  cached_watchlist now (some (at, embeddings)) =
      if ltb (now - at) watchlist_ttl then some embeddings else none

  abbrev cons_embedding : Option (ℕ × E) → List (ℕ × E) → List (ℕ × E)
  cons_embedding none rest = rest
  cons_embedding (some e) rest = e ∷ rest

module _ {E J : Type 0} where
  -- The loop over the entries: `embed` is the id with the embedding, for an image that has one.
  abbrev pub embeddings_of : (J → Option (ℕ × E)) → List J → List (ℕ × E)
  embeddings_of embed [] = []
  embeddings_of embed (entry ∷ entries) = cons_embedding (embed entry) (embeddings_of embed entries)

  -- An exception of the listing goes on to the caller: `none`.
  abbrev pub store_listing :
      ℕ
      → ℕ
      → (J → Option (ℕ × E))
      → FaceRecognitionPlugin E J
      → VmsClient J × Option (List J)
      → FaceRecognitionPlugin E J × Option (List (ℕ × E))
  store_listing now tenant_id embed p (c, none) = (record p { client = c }, none)
  store_listing now tenant_id embed p (c, some entries) =
      let embeddings = embeddings_of embed entries in
      (
        record p {
          client = c;
          watchlist_cache = insert tenant_id (now, embeddings) p.watchlist_cache;
        },
        some embeddings,
      )

  abbrev pub or_fetch :
      ℕ
      → ℕ
      → Answer (List J)
      → (J → Option (ℕ × E))
      → FaceRecognitionPlugin E J
      → Option (List (ℕ × E))
      → FaceRecognitionPlugin E J × Option (List (ℕ × E))
  or_fetch now tenant_id answer embed p (some embeddings) = (p, some embeddings)
  or_fetch now tenant_id answer embed p none =
      store_listing now tenant_id embed p (list_watchlist answer p.client)

  -- `answer` is how the request of the listing would end now.
  unfoldable pub get_watchlist :
      ℕ
      → ℕ
      → Answer (List J)
      → (J → Option (ℕ × E))
      → FaceRecognitionPlugin E J
      → FaceRecognitionPlugin E J × Option (List (ℕ × E))
  get_watchlist now tenant_id answer embed p =
      or_fetch now tenant_id answer embed p
        (cached_watchlist now (lookup tenant_id p.watchlist_cache))

module _ {E : Type 0} (cosine_similarity : E → E → ℤ) where
  abbrev pub add_match : BestFace → List Recognized → List Recognized
  add_match none rest = rest
  add_match (some m) rest = m ∷ rest

  abbrev pub recognize : ℤ → List (ℕ × E) → List E → List Recognized
  recognize threshold watchlist [] = []
  recognize threshold watchlist (face ∷ faces) =
      add_match (best_face cosine_similarity face watchlist threshold)
        (recognize threshold watchlist faces)

  -- An empty watchlist ends the call before the model runs: the gate of the LGPD.
  abbrev pub recognize_gated : ℤ → Option (List (ℕ × E)) → List E → Option (List Recognized)
  recognize_gated threshold none faces = none
  recognize_gated threshold (some []) faces = some []
  recognize_gated threshold (some (w ∷ ws)) faces = some (recognize threshold (w ∷ ws) faces)

module _ {E J : Type 0} (cosine_similarity : E → E → ℤ) where
  -- A frame with the faces that the model finds in it, none where it raises; `has_face_roi` tells
  -- whether one of the zones is of the plugin's type. `none` where the call raises.
  unfoldable pub process_face_frame :
      ℕ
      → ℕ
      → Bool
      → Answer (List J)
      → (J → Option (ℕ × E))
      → List E
      → FaceRecognitionPlugin E J
      → FaceRecognitionPlugin E J × Option (List Recognized)
  unfolding get_watchlist best_face
  process_face_frame now tenant_id has_face_roi answer embed faces p =
      if not p.has_app
      then (p, some [])
      else if not has_face_roi
      then (p, some [])
      else let out = get_watchlist now tenant_id answer embed p in
        (out.0, recognize_gated cosine_similarity p.similarity_threshold out.1 faces)
