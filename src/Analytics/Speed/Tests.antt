-- ===== src/Analytics/Speed/Tests.antt =====
-- A car through a calibrated zone: analytics/src/analytics/plugins/speed/plugin.py.
use next_sec.Prelude.{ℕ, ◌*◌, ◌≡◌, refl, some, Option, List, [], ◌∷◌}
use next_sec.Prelude.Int.{ℤ, pos, ◌+ℤ◌}
use next_sec.Analytics.Geometry.{centroid}
use next_sec.Analytics.Tracking.{Detection, Track}
use next_sec.Analytics.Speed.{
  SpeedZone, Scale, Passage, meters_per_norm_unit, try_measure_speed, visit_zone,
}
use next_sec.Analytics.Speed.Passages.{watch}

-- Thousandths of the picture's width, in halves of 1e-9.
abbrev thousandths : ℕ → ℤ
thousandths n = pos (n * 2_000_000)

abbrev road : SpeedZone
road = record {
  id = 2;
  polygon_points =
      record { x = thousandths 100; y = thousandths 0 }
      ∷ record { x = thousandths 900; y = thousandths 0 }
      ∷ record { x = thousandths 900; y = thousandths 500 }
      ∷ record { x = thousandths 100; y = thousandths 500 }
      ∷ [];
  classes = 2 ∷ [];
  min_confidence = 500;
  calib_point_a = some (record { x = thousandths 100; y = thousandths 0 });
  calib_point_b = some (record { x = thousandths 200; y = thousandths 0 });
  calib_distance_mm = some 5000;
}

abbrev scale : Scale
scale = record { millimetres = 5000; length_square = 200_000_000 * 200_000_000 }

calibrated : meters_per_norm_unit road ≡ some scale
unfolding meters_per_norm_unit
calibrated = refl

abbrev car : ℕ → Detection
car n = record {
  bbox = record {
    x1 = pos (n * 1_000_000);
    y1 = pos 200_000_000;
    x2 = pos (n * 1_000_000);
    y2 = pos 200_000_000;
  };
  class_id = 2;
  confidence = 900;
}

abbrev new_car : Track (Option Passage)
new_car = record {
  center = record { x = thousandths 50; y = thousandths 200 };
  bbox = (car 50).bbox;
  last_seen = 0;
  detection = car 50;
  states = [];
}

-- 600 thousandths in two seconds, at fifty metres to a thousand.
abbrev drive : List (ℕ × Detection)
drive =
    (1_000_000, car 150) ∷ (2_000_000, car 450) ∷ (3_000_000, car 750) ∷ (4_000_000, car 950) ∷ []

one_measurement :
    watch road scale drive new_car
    ≡ record { way_square = 1_200_000_000 * 1_200_000_000; elapsed = 2_000_000; scale = scale } ∷ []
unfolding visit_zone try_measure_speed centroid ◌+ℤ◌
one_measurement = refl
