-- ===== src/Analytics/Intrusion/Crossings.antt =====
-- The crossings that analytics/src/analytics/plugins/intrusion/plugin.py reports for one object.
use next_sec.Prelude.{
  ℕ, ◌≡◌, refl, Bool, true, false, not, Option, none, some, List, [], ◌∷◌, arith, Bool-cases, inl,
  inr,
}
use mathlib.Core.Path.{subst}
use next_sec.Prelude.Dict.{lookup, lookup-insert}
use next_sec.Analytics.Geometry.{point_in_polygon}
use next_sec.Analytics.Tracking.{Detection, Track, seen_again}
use next_sec.Analytics.Intrusion.{
  RoiConfig, Direction, direction_of, is_ignored, crossing, set_in_roi, visit_in, visit,
}

abbrev pub cons_some : Option Direction → List Direction → List Direction
cons_some none ds = ds
cons_some (some d) ds = d ∷ ds

-- A visit that raises writes nothing, and reports nothing.
abbrev pub and_follow :
    Track Bool
    → Option (Track Bool × Option Direction)
    → (Track Bool → List Direction)
    → List Direction
and_follow t none rest = rest t
and_follow t (some (t', d)) rest = cons_some d (rest t')

-- What one zone reports for an object that is seen again and again, at the times listed.
abbrev pub follow : RoiConfig → List (ℕ × Detection) → Track Bool → List Direction
follow roi [] t = []
follow roi ((now, det) ∷ seen) t =
    let t' = seen_again now det t in and_follow t' (visit roi t') (follow roi seen)

abbrev pub is_enter : Direction → Bool
is_enter Direction.enter = true
is_enter Direction.exit = false

-- From a known side each report is the crossing to the other side, and so on; from an unknown side
-- the first report fixes it.
abbrev pub Alternates : Option Bool → List Direction → Type 0
Alternates side [] = Unit
Alternates none (d ∷ ds) = Alternates (some (is_enter d)) ds
Alternates (some side) (d ∷ ds) = (d ≡ direction_of (not side)) × Alternates (some (not side)) ds

forget_side : (side : Bool) (ds : List Direction) → Alternates (some side) ds → Alternates none ds
forget_side side [] h = tt
forget_side true (d ∷ ds) h = rw h.0 h.1
forget_side false (d ∷ ds) h = rw h.0 h.1

report :
    (prev : Option Bool) (now_in : Bool) (ds : List Direction)
    → Alternates (some now_in) ds
    → Alternates prev (cons_some (crossing prev now_in) ds)
report none now_in ds h = forget_side now_in ds h
report (some true) true ds h = h
report (some true) false ds h = (refl, h)
report (some false) true ds h = (refl, h)
report (some false) false ds h = h

follow_in :
    (roi : RoiConfig) (t : Track Bool) (o : Option Bool) (rest : Track Bool → List Direction)
    → ((t' : Track Bool) → Alternates (lookup roi.id t'.states) (rest t'))
    → Alternates (lookup roi.id t.states) (and_follow t (visit_in roi t o) rest)
follow_in roi t none rest ih = ih t
follow_in roi t (some now_in) rest ih =
    let t' = set_in_roi roi now_in t in
    let stored : lookup roi.id t'.states ≡ some now_in =
      ground (arith, lookup-insert roi.id roi.id now_in t.states) in
    report (lookup roi.id t.states) now_in (rest t')
      (subst (λ s. Alternates s (rest t')) stored (ih t'))

follow_one :
    (roi : RoiConfig) (t : Track Bool) (rest : Track Bool → List Direction)
    → ((t' : Track Bool) → Alternates (lookup roi.id t'.states) (rest t'))
    → Alternates (lookup roi.id t.states) (and_follow t (visit roi t) rest)
unfolding visit
follow_one roi t rest ih = elim (Bool-cases (is_ignored roi t.detection)) [
  | inl e ↦ rw e (ih t)
  | inr e ↦ rw e (follow_in roi t (point_in_polygon t.center roi.polygon_points) rest ih)
]

-- For one object and one zone, however the object moves and whatever is detected, the reports
-- alternate: after an entry comes an exit and after an exit an entry, and the first report is the
-- opposite of the side on which the zone saw the object last.
pub follow-Alternates :
    (roi : RoiConfig) (seen : List (ℕ × Detection)) (t : Track Bool)
    → Alternates (lookup roi.id t.states) (follow roi seen t)
follow-Alternates roi [] t = tt
follow-Alternates roi ((now, det) ∷ seen) t =
    follow_one roi (seen_again now det t) (follow roi seen) (follow-Alternates roi seen)
