-- ===== src/Analytics/Geometry/Tests.antt =====
-- Points and zones of analytics/src/analytics/plugins/intrusion/plugin.py at small coordinates.
use next_sec.Prelude.{ℕ, ◌≡◌, refl, true, false, ◌&&◌, some, none, List, [], ◌∷◌}
use next_sec.Prelude.Int.{pos, ◌+ℤ◌}
use next_sec.Analytics.Geometry.{Point, ltb_ℤ, epsilon, point_in_polygon}
use next_sec.Analytics.Geometry.Rectangles.{rectangle, is_between, point_in_polygon-rectangle}

abbrev at : ℕ → ℕ → Point
at x y = record { x = pos x; y = pos y }

abbrev triangle : List Point
triangle = at 0 0 ∷ at 100 0 ∷ at 0 100 ∷ []

in_triangle :
    (point_in_polygon (at 20 30) triangle ≡ some true)
    × (point_in_polygon (at 80 90) triangle ≡ some false)
unfolding point_in_polygon
in_triangle = (refl, refl)

-- An edge that climbs by exactly 1e-9 makes the source divide by zero.
climbing_edge : point_in_polygon (at 5 8) (at 10 7 ∷ at 0 9 ∷ at 0 0 ∷ []) ≡ none
unfolding point_in_polygon
climbing_edge = refl

tall : ltb_ℤ (pos 10 +ℤ epsilon) (pos 50) ≡ true
unfolding ◌+ℤ◌
tall = refl

point_in_polygon-rectangle_example :
    point_in_polygon (at 20 30) (rectangle (pos 10) (pos 10) (pos 60) (pos 50))
    ≡ some (is_between (pos 10) (pos 20) (pos 60) && is_between (pos 10) (pos 30) (pos 50))
point_in_polygon-rectangle_example =
    point_in_polygon-rectangle (at 20 30) (pos 10) (pos 10) (pos 60) (pos 50) refl tall
