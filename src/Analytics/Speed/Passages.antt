-- ===== src/Analytics/Speed/Passages.antt =====
-- Which passages of a vehicle analytics/src/analytics/plugins/speed/plugin.py measures.
use next_sec.Prelude.{
  ℕ, ◌≡◌, Bool, true, false, Option, none, some, List, [], ◌∷◌, ◌++◌, if◌then◌else◌,
}
use next_sec.Analytics.Geometry.{Point, centroid, point_in_polygon}
use next_sec.Analytics.Tracking.{Detection, Track, seen_again}
use next_sec.Analytics.Speed.{
  SpeedZone, Scale, Passage, Measured, try_measure_speed, ignores, visit_at, visit_zone,
}

-- A place and its time.
abbrev pub Stop : Type 0
Stop = Point × ℕ

-- What the zone sees of a sighting: nothing where it ignores the detection or its geometry raises,
-- and else whether the vehicle is inside.
abbrev pub inside_of : SpeedZone → Detection → Option Bool
inside_of z det =
    if ignores z det then none else point_in_polygon (centroid det.bbox) z.polygon_points

abbrev pub extend : Stop → List Stop → List Stop
extend s run = run ++ s ∷ []

-- The reference: the sightings are cut into the maximal runs inside the zone, each run a list of its
-- places in order. A run that is still open at the end is no passage.
abbrev pub close_run : List Stop → List (List Stop) → List (List Stop)
close_run [] runs = runs
close_run (s ∷ run) runs = (s ∷ run) ∷ runs

abbrev pub run_step :
    Stop → List Stop → (List Stop → List (List Stop)) → Option Bool → List (List Stop)
run_step at run rest none = rest run
run_step at run rest (some true) = rest (extend at run)
run_step at run rest (some false) = close_run run (rest [])

abbrev pub runs_inside : SpeedZone → List (ℕ × Detection) → List Stop → List (List Stop)
runs_inside z [] run = []
runs_inside z ((ts, det) ∷ seen) run =
    run_step (centroid det.bbox, ts) run (runs_inside z seen) (inside_of z det)

abbrev pub last_stop : Stop → List Stop → Stop
last_stop s [] = s
last_stop _ (s ∷ run) = last_stop s run

-- The way from the first to the last place of a run.
abbrev pub passage_of : Stop → List Stop → Passage
passage_of s run = record {
  entry_pos = s.0;
  entry_ts = s.1;
  last_pos = (last_stop s run).0;
  last_ts = (last_stop s run).1;
}

abbrev pub cons_measured : Option Measured → List Measured → List Measured
cons_measured none ms = ms
cons_measured (some m) ms = m ∷ ms

abbrev pub measure_runs : Scale → List (List Stop) → List Measured
measure_runs scale [] = []
measure_runs scale ([] ∷ runs) = measure_runs scale runs
measure_runs scale ((s ∷ run) ∷ runs) =
    cons_measured (try_measure_speed scale (passage_of s run)) (measure_runs scale runs)

abbrev pub and_watch :
    Track (Option Passage)
    → Option (Track (Option Passage) × Option Measured)
    → (Track (Option Passage) → List Measured)
    → List Measured
and_watch t none rest = rest t
and_watch t (some (t', m)) rest = cons_measured m (rest t')

-- What one zone measures of a vehicle that is seen again and again. A visit that raises writes
-- nothing.
abbrev pub watch : SpeedZone → Scale → List (ℕ × Detection) → Track (Option Passage) → List Measured
watch z scale [] t = []
watch z scale ((ts, det) ∷ seen) t =
    let t' = seen_again ts det t in and_watch t' (visit_zone z scale ts t') (watch z scale seen)

-- The state of the zone and the open run say the same.
abbrev Open : Option Passage → List Stop → Type 0
Open none [] = Unit
Open none (_ ∷ _) = ⊥
Open (some s) [] = ⊥
Open (some s) (at ∷ run) = s ≡ passage_of at run

-- What the zone does with a vehicle of which it knows the side.
abbrev by_inside :
    SpeedZone
    → Scale
    → ℕ
    → Track (Option Passage)
    → (Track (Option Passage) → List Measured)
    → Option Bool
    → List Measured
by_inside z scale ts t rest none = rest t
by_inside z scale ts t rest (some b) = and_watch t (visit_at z scale ts t (some b)) rest
