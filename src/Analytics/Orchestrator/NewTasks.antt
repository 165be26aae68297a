-- ===== src/Analytics/Orchestrator/NewTasks.antt =====
-- What a new task of analytics/src/analytics/core/orchestrator.py is made with: its stream and its zones.
use next_sec.Prelude.{
  ℕ, ◌≡◌, refl, ◌∙◌, ap, Option, none, some, List, [], ◌∷◌, map, ◌==◌, if◌then◌else◌, sym, ==_iff,
  ◌++◌, ◌&&◌, select, Bool-cases, inl, inr,
}
use mathlib.Core.List.{append-nil, append_assoc}
use next_sec.Prelude.Dict.{Dict, lookup, lookup-insert}
use next_sec.Analytics.Orchestrator.{
  RoiConfig, ApiRoi, ApiCamera, StreamUrl, zones_of, roi_config, add_zone, group_rois, stream_url,
  fetch_zones_config,
}
use next_sec.Analytics.Orchestrator.Discovery.{Content, with_url, first_of, first_stream}

-- The zones that a new task is given: where the API lists none at all, those of the local file, armed or
-- not; else the armed ones that it lists for the camera, in their order.
abbrev pub zones_for : Dict (List RoiConfig) → List ApiRoi → ℕ → List RoiConfig
zones_for local [] k = zones_of (lookup k local)
zones_for local (r ∷ rs) k =
    map
      (λ x. record {
        id = x.id;
        name = x.name;
        ia_type = x.plugin_id;
        polygon_points = x.polygon_points;
        config = x.config;
      })
      (select (λ x. x.is_armed_now && k == x.camera_id) (r ∷ rs))

-- The zones of a camera after one more was added for some camera.
zones_of-add_zone :
    (k cam_id : ℕ) (z : RoiConfig) (config : Dict (List RoiConfig))
    → zones_of (lookup k (add_zone cam_id z config))
      ≡ zones_of (lookup k config) ++ (if k == cam_id then z ∷ [] else [])
zones_of-add_zone k cam_id z config =
    let old = zones_of (lookup cam_id config) in
    ap zones_of (lookup-insert k cam_id (old ++ z ∷ []) config) ∙ elim (Bool-cases (k == cam_id)) [
      | inl own ↦
          rw own (ap (λ j. zones_of (lookup j config) ++ z ∷ []) (sym ((==_iff k cam_id).0 own)))
      | inr other ↦ rw other (sym (append-nil (zones_of (lookup k config))))
    ]

group_rois_lem :
    (k : ℕ) (rois : List ApiRoi) (config : Dict (List RoiConfig))
    → zones_of (lookup k (group_rois rois config))
      ≡ zones_of (lookup k config)
        ++ map roi_config (select (λ x. x.is_armed_now && k == x.camera_id) rois)
group_rois_lem k [] config = sym (append-nil (zones_of (lookup k config)))
group_rois_lem k (r ∷ rs) config = elim (Bool-cases r.is_armed_now) [
  | inr off ↦ simp off (group_rois_lem k rs config)
  | inl on ↦
      let more = map roi_config (select (λ x. x.is_armed_now && k == x.camera_id) rs) in
      let step =
        group_rois_lem k rs (add_zone r.camera_id (roi_config r) config)
        ∙ ap (λ zs. zs ++ more) (zones_of-add_zone k r.camera_id (roi_config r) config)
        ∙ append_assoc (zones_of (lookup k config)) _ more in
      simp on (elim (Bool-cases (k == r.camera_id)) [
        | inl own ↦ rw own (rw own at step)
        | inr other ↦ rw other (rw other at step)
      ])
]

zones_of-fetch_zones_config :
    (local : Dict (List RoiConfig)) (rois : List ApiRoi) (k : ℕ)
    → zones_of (lookup k (fetch_zones_config local rois)) ≡ zones_for local rois k
unfolding fetch_zones_config
zones_of-fetch_zones_config local [] k = refl
zones_of-fetch_zones_config local (r ∷ rs) k = group_rois_lem k (r ∷ rs) []

-- The path in MediaMTX comes first, then the camera's own URL, then that of a token.
abbrev as_url : (ℕ → StreamUrl) → Option ℕ → Option StreamUrl
as_url url none = none
as_url url (some x) = some (url x)

abbrev pub url_for : Option ℕ → Option ℕ → Option ℕ → Option StreamUrl
url_for path url token =
    first_of (as_url StreamUrl.mediamtx path)
      (first_of (as_url StreamUrl.native url) (as_url StreamUrl.by_token token))

stream_url_lem : (path url token : Option ℕ) → stream_url path url token ≡ url_for path url token
stream_url_lem (some p) url token = refl
stream_url_lem none (some u) token = refl
stream_url_lem none none (some t) = refl
stream_url_lem none none none = refl

module _ (token : ℕ → Option ℕ) (local : Dict (List RoiConfig)) where
  -- The specification: the first listed entry of the camera that is online and can be read.
  abbrev pub first_readable : List ApiRoi → ℕ → List ApiCamera → Option Content
  first_readable rois k [] = none
  first_readable rois k (cam ∷ cams) =
      let rest = first_readable rois k cams in
      if k == cam.id && cam.is_online
      then first_of
          (with_url cam.tenant_id (zones_for local rois cam.id)
            (url_for cam.mediamtx_path cam.rtsp_url (token cam.id)))
          rest
      else rest

  pub first_stream-readable :
      (rois : List ApiRoi) (k : ℕ) (cams : List ApiCamera)
      → first_stream token (fetch_zones_config local rois) k cams ≡ first_readable rois k cams
  first_stream-readable rois k [] = refl
  first_stream-readable rois k (cam ∷ cams) =
      rw
        (
          first_stream-readable rois k cams,
          zones_of-fetch_zones_config local rois cam.id,
          stream_url_lem cam.mediamtx_path cam.rtsp_url (token cam.id),
        )
        refl
