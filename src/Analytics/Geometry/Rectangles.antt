-- ===== src/Analytics/Geometry/Rectangles.antt =====
-- What `_point_in_polygon` of analytics/src/analytics/plugins/intrusion/plugin.py answers for a zone
-- that is a rectangle, and for a point above or below a zone.
use next_sec.Prelude.{
  ◌+◌, ◌<◌, ◌≡◌, ◌≢◌, refl, Bool, true, false, not, ◌&&◌, some, List, [], ◌∷◌, arith, All, inl, inr,
  Bool-cases, ◌∙◌, ap, sym,
}
use next_sec.Prelude.Int.{ℤ, pos, pos_part, neg_part, ◌+ℤ◌, ◌-ℤ◌, -ℤ_parts, +ℤ_parts, eq_of_parts}
use next_sec.Analytics.Geometry.{
  Point, mul_ℤ, ltb_ℤ, is_below_quotient, epsilon, differs, and_cast, crosses, cast, last_corner,
  point_in_polygon,
}
use next_sec.Analytics.Geometry.Quotients.{is_below_quotient-vertical}

-- An edge whose ends lie on one side of the point's height is not crossed.
crosses-level : (p i j : Point) → ltb_ℤ p.y i.y ≡ ltb_ℤ p.y j.y → crosses p i j ≡ some false
unfolding crosses
crosses-level p i j e = elim (Bool-cases (ltb_ℤ p.y j.y)) [
  | inl t ↦ rw (e, t) refl
  | inr f ↦ rw (e, f) refl
]

minus_self : (a : ℤ) → a -ℤ a ≡ pos 0
minus_self a = eq_of_parts (a -ℤ a) (pos 0) (omega (arith, -ℤ_parts a a))

ltb_minus : (a b : ℤ) → ltb_ℤ (a -ℤ b) (pos 0) ≡ ltb_ℤ a b
ltb_minus a b = ground (arith, -ℤ_parts a b)

-- The height of an edge with the source's 1e-9 added.
abbrev height : Point → Point → ℤ
height i j = j.y -ℤ i.y +ℤ epsilon

crosses-vertical :
    (p i j : Point)
    → i.x ≡ j.x
    → height i j ≢ pos 0
    → crosses p i j ≡ some (differs (ltb_ℤ p.y i.y) (ltb_ℤ p.y j.y) && ltb_ℤ p.x i.x)
crosses-vertical p i j e h =
    let quotient : is_below_quotient (p.x -ℤ i.x) (mul_ℤ (j.x -ℤ i.x) (p.y -ℤ i.y)) (height i j)
        ≡ some (ltb_ℤ p.x i.x) =
      ap (λ d. is_below_quotient (p.x -ℤ i.x) (mul_ℤ d (p.y -ℤ i.y)) (height i j))
        (ap (λ d. d -ℤ i.x) (sym e) ∙ minus_self i.x)
      ∙ is_below_quotient-vertical (p.x -ℤ i.x) (p.y -ℤ i.y) (height i j) h
      ∙ ap some (ltb_minus p.x i.x) in
    unfold crosses in
    elim (Bool-cases (differs (ltb_ℤ p.y i.y) (ltb_ℤ p.y j.y))) [
      | inl t ↦ rw (t, quotient) refl
      | inr f ↦ rw f refl
    ]

abbrev pub rectangle : ℤ → ℤ → ℤ → ℤ → List Point
rectangle left top right bottom =
    record { x = left; y = top }
    ∷ record { x = right; y = top }
    ∷ record { x = right; y = bottom }
    ∷ record { x = left; y = bottom }
    ∷ []

-- `lo ≤ a < hi`
abbrev pub is_between : ℤ → ℤ → ℤ → Bool
is_between lo a hi = not (ltb_ℤ a lo) && ltb_ℤ a hi

lt_of_ltb_ℤ : (a b : ℤ) → ltb_ℤ a b ≡ true → pos_part a + neg_part b < pos_part b + neg_part a
lt_of_ltb_ℤ a b h = ground arith

-- One edge of the loop.
cast-cons :
    (p i j : Point) (crossed inside : Bool) (is : List Point)
    → crosses p i j ≡ some crossed
    → cast p j inside (i ∷ is) ≡ cast p i (differs crossed inside) is
unfolding cast
cast-cons p i j crossed inside is e = ap (λ x. and_cast x (λ c. cast p i (differs c inside) is)) e

cast-level :
    (p i j : Point) (inside : Bool) (is : List Point)
    → ltb_ℤ p.y i.y ≡ ltb_ℤ p.y j.y
    → cast p j inside (i ∷ is) ≡ cast p i inside is
cast-level p i j inside is e = cast-cons p i j false inside is (crosses-level p i j e)

cast-vertical :
    (p i j : Point) (inside : Bool) (is : List Point)
    → i.x ≡ j.x
    → height i j ≢ pos 0
    → cast p j inside (i ∷ is)
      ≡ cast p i (differs (differs (ltb_ℤ p.y i.y) (ltb_ℤ p.y j.y) && ltb_ℤ p.x i.x) inside) is
cast-vertical p i j inside is e h = cast-cons p i j _ inside is (crosses-vertical p i j e h)

-- The heights of the two vertical edges, once upwards and once downwards.
heights_nonzero :
    (top bottom : ℤ)
    → ltb_ℤ (top +ℤ epsilon) bottom ≡ true
    → (bottom -ℤ top +ℤ epsilon ≢ pos 0) × (top -ℤ bottom +ℤ epsilon ≢ pos 0)
heights_nonzero top bottom tall =
    let gap = lt_of_ltb_ℤ (top +ℤ epsilon) bottom tall in
    (
      λ e. omega (
        arith,
        gap,
        ap pos_part e,
        ap neg_part e,
        +ℤ_parts (bottom -ℤ top) epsilon,
        -ℤ_parts bottom top,
        +ℤ_parts top epsilon,
      ),
      λ e. omega (
        arith,
        gap,
        ap pos_part e,
        ap neg_part e,
        +ℤ_parts (top -ℤ bottom) epsilon,
        -ℤ_parts top bottom,
        +ℤ_parts top epsilon,
      ),
    )

-- The two sides of the ray agree except between them.
sides :
    (x y left top right bottom : ℤ)
    → ltb_ℤ left right ≡ true
    → ltb_ℤ (top +ℤ epsilon) bottom ≡ true
    → differs
        (differs (ltb_ℤ y bottom) (ltb_ℤ y top) && ltb_ℤ x right)
        (differs (differs (ltb_ℤ y top) (ltb_ℤ y bottom) && ltb_ℤ x left) false)
      ≡ (is_between left x right && is_between top y bottom)
sides x y left top right bottom wide tall = ground (arith, +ℤ_parts top epsilon)

-- A rectangle, higher than 1e-9, contains exactly the points between its sides, its left and upper
-- sides included: the 1e-9 that the source adds to a height moves no vertical side.
pub point_in_polygon-rectangle :
    (p : Point) (left top right bottom : ℤ)
    → ltb_ℤ left right ≡ true
    → ltb_ℤ (top +ℤ epsilon) bottom ≡ true
    → point_in_polygon p (rectangle left top right bottom)
      ≡ some (is_between left p.x right && is_between top p.y bottom)
unfolding point_in_polygon
point_in_polygon-rectangle p left top right bottom wide tall =
    let a : Point = record { x = left; y = top } in
    let b : Point = record { x = right; y = top } in
    let c : Point = record { x = right; y = bottom } in
    let d : Point = record { x = left; y = bottom } in
    let h = heights_nonzero top bottom tall in
    let left_side = differs (differs (ltb_ℤ p.y top) (ltb_ℤ p.y bottom) && ltb_ℤ p.x left) false in
    let right_side =
      differs (differs (ltb_ℤ p.y bottom) (ltb_ℤ p.y top) && ltb_ℤ p.x right) left_side in
    cast-vertical p a d false (b ∷ c ∷ d ∷ []) refl h.0
    ∙ cast-level p b a left_side (c ∷ d ∷ []) refl
    ∙ cast-vertical p c b left_side (d ∷ []) refl h.1
    ∙ cast-level p d c right_side [] refl
    ∙ ap some (sides p.x p.y left top right bottom wide tall)

-- All the corners lie on one side of the point's height.
abbrev pub OneSide : Bool → ℤ → List Point → Type 0
OneSide b y = All (λ q. ltb_ℤ y q.y ≡ b)

cast-OneSide :
    (b : Bool) (p j : Point) (inside : Bool) (is : List Point)
    → ltb_ℤ p.y j.y ≡ b
    → OneSide b p.y is
    → cast p j inside is ≡ some inside
unfolding cast
cast-OneSide b p j inside [] h k = refl
cast-OneSide b p j inside (i ∷ is) h k =
    cast-level p i j inside is (k.0 ∙ sym h) ∙ cast-OneSide b p i inside is k.0 k.1

last_corner-OneSide :
    (b : Bool) (y : ℤ) (q : Point) (qs : List Point)
    → OneSide b y (q ∷ qs)
    → ltb_ℤ y (last_corner q qs).y ≡ b
last_corner-OneSide b y q [] h = h.0
last_corner-OneSide b y q (r ∷ qs) h = last_corner-OneSide b y r qs h.1

-- A point above all corners of a zone, or below all of them, is outside, whatever the zone's shape.
pub point_in_polygon-OneSide :
    (b : Bool) (p : Point) (polygon : List Point)
    → OneSide b p.y polygon
    → point_in_polygon p polygon ≡ some false
unfolding point_in_polygon
point_in_polygon-OneSide b p [] h = refl
point_in_polygon-OneSide b p (q ∷ qs) h =
    cast-OneSide b p (last_corner q qs) false (q ∷ qs) (last_corner-OneSide b p.y q qs h) h
