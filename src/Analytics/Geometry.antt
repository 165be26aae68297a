-- ===== src/Analytics/Geometry.antt =====
-- Points and polygons of the plugins: `_centroid` and `_point_in_polygon` of
-- analytics/src/analytics/plugins/intrusion/plugin.py; the speed plugin has a copy of each.
-- The floats are modelled by integers, so that no operation rounds: a corner of a box counts units of
-- 1e-9 of the picture's width, and a centroid or a corner of a polygon counts halves of that unit.
pub mod Quotients
pub mod Rectangles
mod Tests
use next_sec.Prelude.{
  ℕ, suc, zero, ◌*◌, ◌+◌, Bool, true, false, not, ◌&&◌, Option, none, some, List, [], ◌∷◌, leb, ltb,
  if◌then◌else◌,
}
use next_sec.Prelude.Int.{ℤ, pos, negsuc, pos_part, neg_part, sub_ℕ, ◌+ℤ◌, ◌-ℤ◌, leb_ℤ}

pub record Box : Type 0 where
  pub x1 : ℤ
  pub y1 : ℤ
  pub x2 : ℤ
  pub y2 : ℤ

pub record Point : Type 0 where
  pub x : ℤ
  pub y : ℤ

-- The sum of two corners counts halves of the unit.
unfoldable pub centroid : Box → Point
centroid b = record { x = b.x1 +ℤ b.x2; y = b.y1 +ℤ b.y2 }

abbrev pub mul_ℤ : ℤ → ℤ → ℤ
mul_ℤ a b =
    sub_ℕ (pos_part a * pos_part b + neg_part a * neg_part b)
      (pos_part a * neg_part b + neg_part a * pos_part b)

abbrev pub ltb_ℤ : ℤ → ℤ → Bool
ltb_ℤ a b = not (leb_ℤ b a)

-- `a < n / d` over the rationals, without the division. `none` is ZeroDivisionError.
abbrev pub is_below_quotient : ℤ → ℤ → ℤ → Option Bool
is_below_quotient a n (pos zero) = none
is_below_quotient a n (pos (suc k)) = some (ltb_ℤ (mul_ℤ a (pos (suc k))) n)
is_below_quotient a n (negsuc k) = some (ltb_ℤ n (mul_ℤ a (negsuc k)))

-- `1e-9`, in halves of the unit.
abbrev pub epsilon : ℤ
epsilon = pos 2

abbrev pub differs : Bool → Bool → Bool
differs true b = not b
differs false b = b

-- The test of one edge, from `j` to `i`: `x < (xj - xi) * (y - yi) / (yj - yi + 1e-9) + xi` is
-- computed only if the edge straddles the height of the point.
unfoldable pub crosses : Point → Point → Point → Option Bool
unfolding ◌+ℤ◌ ◌-ℤ◌
crosses p i j =
    if differs (ltb_ℤ p.y i.y) (ltb_ℤ p.y j.y)
    then is_below_quotient (p.x -ℤ i.x) (mul_ℤ (j.x -ℤ i.x) (p.y -ℤ i.y)) (j.y -ℤ i.y +ℤ epsilon)
    else some false

-- An exception ends the loop.
abbrev pub and_cast : Option Bool → (Bool → Option Bool) → Option Bool
and_cast none f = none
and_cast (some c) f = f c

-- The loop over the edges: `j` is the corner before.
unfoldable pub cast : Point → Point → Bool → List Point → Option Bool
unfolding crosses
cast p j inside [] = some inside
cast p j inside (i ∷ is) = and_cast (crosses p i j) (λ c. cast p i (differs c inside) is)

-- `polygon[n - 1]`
abbrev pub last_corner : Point → List Point → Point
last_corner p [] = p
last_corner _ (q ∷ qs) = last_corner q qs

unfoldable pub point_in_polygon : Point → List Point → Option Bool
unfolding cast
point_in_polygon p [] = some false
point_in_polygon p (q ∷ qs) = cast p (last_corner q qs) false (q ∷ qs)
