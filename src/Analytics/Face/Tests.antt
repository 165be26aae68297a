-- ===== src/Analytics/Face/Tests.antt =====
-- Faces as numbers: analytics/src/analytics/plugins/face_recognition at concrete watchlists.
use next_sec.Prelude.{
  ℕ, ◌≤◌, ◌≡◌, ◌⊎◌, refl, true, false, some, List, [], ◌∷◌, arith, ◌==◌, if◌then◌else◌,
}
use next_sec.Prelude.Int.{ℤ, pos, negsuc}
use next_sec.Analytics.Face.{FaceRecognitionPlugin, best_face, process_face_frame}
use next_sec.Analytics.VmsClient.{Answer, VmsClient, list_watchlist}
use next_sec.Prelude.Dict.{lookup}
use next_sec.Analytics.Face.Consent.{
  FaceFrame, recognized, face_frame, run_face_frames, run_face_frames-consent,
}

-- A face is itself by nine tenths, and nobody else.
abbrev alike : ℕ → ℕ → ℤ
alike a b = if a == b then pos 900_000 else negsuc 100_000

abbrev wanted : List (ℕ × ℕ)
wanted = (1, 70) ∷ (2, 80) ∷ (3, 80) ∷ []

first_of_two : best_face alike 80 wanted (pos 500_000) ≡ some (2, pos 900_000)
unfolding best_face
first_of_two = refl

-- A client that knows of one person, whose image gives face 80.
abbrev client : List ℕ → VmsClient ℕ
client known = record {
  has_client = true;
  has_pool = false;
  edge_deployment = false;
  edge_clip_seconds = 10;
  cameras_cache = [];
  rois_cache = [];
  watchlist_cache = known;
  outbox = record { rows = []; next_id = 1; max_rows = 1000; max_age_seconds = 3600; dropped = 0 };
  clip_jobs = [];
}

abbrev plugin : List ℕ → FaceRecognitionPlugin ℕ ℕ
plugin known = record {
  has_app = true;
  client = client known;
  watchlist_cache = (1, (90_000_000, (2, 80) ∷ [])) ∷ [];
  similarity_threshold = pos 500_000;
}

abbrev frame : ℕ → Answer (List ℕ) → FaceFrame ℕ ℕ
frame now answer = record {
  now = now;
  tenant_id = 1;
  has_face_roi = true;
  answer = answer;
  embed = λ entry. some (entry, 80);
  faces = 80 ∷ [];
}

-- Within the minute the cached watchlist is still used.
within_the_minute :
    (face_frame alike (frame 120_000_000 (Answer.ok [])) (plugin [])).1
    ≡ some ((2, pos 900_000) ∷ [])
unfolding process_face_frame
within_the_minute = refl

-- While the server cannot be reached, the client answers with the persons that it knows, however long
-- ago it was given them.
known_for_ever :
    (face_frame alike (frame 9_000_000_000 Answer.network_error) (plugin (2 ∷ []))).1
    ≡ some ((2, pos 900_000) ∷ [])
unfolding process_face_frame list_watchlist
known_for_ever = refl

at_most_cached :
    (k at : ℕ) (es : List (ℕ × ℕ))
    → lookup k (plugin []).watchlist_cache ≡ some (at, es)
    → (at ≤ 100_000_000) ⊎ (es ≡ [])
at_most_cached k at es e = ground arith

run_face_frames-consent_example :
    recognized
      (face_frame alike
        (frame 170_000_000 Answer.network_error)
        (run_face_frames alike (frame 120_000_000 (Answer.ok []) ∷ []) (plugin []))).1
    ≡ []
run_face_frames-consent_example =
    run_face_frames-consent alike 100_000_000 (frame 120_000_000 (Answer.ok []) ∷ [])
      (frame 170_000_000 Answer.network_error) (plugin []) refl at_most_cached (refl, tt) tt
      (omega arith)
