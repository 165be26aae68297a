-- ===== src/Analytics/Geometry/Quotients.antt =====
-- The comparison with a quotient in `_point_in_polygon` of
-- analytics/src/analytics/plugins/intrusion/plugin.py, where the numerator is zero.
use next_sec.Prelude.{ℕ, zero, suc, ◌≡◌, ◌≢◌, refl, some, arith}
use next_sec.Prelude.Int.{ℤ, pos, negsuc}
use next_sec.Analytics.Geometry.{mul_ℤ, ltb_ℤ, is_below_quotient}

mul_zero : (a : ℤ) → mul_ℤ (pos 0) a ≡ pos 0
mul_zero (pos n) = grind arith
mul_zero (negsuc n) = grind arith

sign_pos : (a : ℤ) (k : ℕ) → ltb_ℤ (mul_ℤ a (pos (suc k))) (pos 0) ≡ ltb_ℤ a (pos 0)
sign_pos (pos zero) k = grind arith
sign_pos (pos (suc n)) k = grind arith
sign_pos (negsuc n) k = grind arith

sign_neg : (a : ℤ) (k : ℕ) → ltb_ℤ (pos 0) (mul_ℤ a (negsuc k)) ≡ ltb_ℤ a (pos 0)
sign_neg (pos zero) k = grind arith
sign_neg (pos (suc n)) k = grind arith
sign_neg (negsuc n) k = grind arith

-- Beside a vertical edge only the side of the point counts, whatever the height of the edge.
pub is_below_quotient-vertical :
    (a m d : ℤ) → d ≢ pos 0 → is_below_quotient a (mul_ℤ (pos 0) m) d ≡ some (ltb_ℤ a (pos 0))
is_below_quotient-vertical a m (pos zero) h = absurd (h refl)
is_below_quotient-vertical a m (pos (suc k)) h = rw (mul_zero m, sign_pos a k) refl
is_below_quotient-vertical a m (negsuc k) h = rw (mul_zero m, sign_neg a k) refl
