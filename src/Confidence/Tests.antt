-- ===== src/Confidence/Tests.antt =====
-- The curves at concrete values.
use infra_twin.Prelude.{◌*◌, ◌<◌, ◌≡◌, ◌⊎◌, refl, true, false, some, none, arith}
use infra_twin.Prelude.Ints.{pos, negsuc}
use infra_twin.Float.Fixed.{Fixed, fixed_float, Fixed-laws}
use infra_twin.Confidence.{
  day, freshness_window, stale_floor, confidence_cap, raw_confidence, confidence_for_observations,
  decayed_confidence,
}
use infra_twin.Confidence.Curve.{
  confidence_for_observations_mono, confidence_for_observations_plateau, decayed_confidence_bounds,
  decayed_confidence_raises, decayed_confidence_mono,
}

machinery : Unit {0}
unfolding infra_twin.Confidence.fmin infra_twin.Confidence.fmax infra_twin.Confidence.decay_power
    infra_twin.Confidence.raw_confidence infra_twin.Confidence.confidence_for_observations
    infra_twin.Confidence.decay_past infra_twin.Confidence.decayed_confidence
machinery = tt

-- 0.6 and 0.8 for one and two observations, and a refusal for none
first_counts :
    (confidence_for_observations {W = Fixed} 0 ≡ none)
    × (confidence_for_observations {W = Fixed} 1 ≡ some 600000000000000)
    × (confidence_for_observations {W = Fixed} 2 ≡ some 800000000000000)
unfolding machinery
first_counts = (refl, refl, refl)

-- 0.05 is lost after the eighth day.
ninth_day :
    (decayed_confidence {W = Fixed} 800000000000000 (pos (8 * day)) ≡ some 750000000000000)
    × (decayed_confidence {W = Fixed} 800000000000000 (negsuc 0) ≡ none)
unfolding machinery
ninth_day = (refl, refl)

confidence_for_observations_mono_example :
    (c d : Fixed) × (confidence_for_observations {W = Fixed} 1 ≡ some c)
    × (confidence_for_observations {W = Fixed} 3 ≡ some d)
    × (fixed_float.le c d ≡ true)
    × (fixed_float.le d confidence_cap ≡ true)
confidence_for_observations_mono_example =
    confidence_for_observations_mono Fixed-laws 0 2 (omega arith)

past_cap : fixed_float.le (raw_confidence 60) confidence_cap ≡ false
unfolding machinery
past_cap = refl

confidence_for_observations_plateau_example :
    confidence_for_observations {W = Fixed} 71 ≡ confidence_for_observations 61
confidence_for_observations_plateau_example =
    confidence_for_observations_plateau Fixed-laws 60 70 (omega arith) past_cap

decayed_confidence_bounds_example :
    (d : Fixed) × (decayed_confidence {W = Fixed} 800000000000000 (pos (8 * day)) ≡ some d)
    × (fixed_float.le stale_floor d ≡ true)
    × (fixed_float.le d 800000000000000 ≡ true)
    × ((d ≡ 800000000000000) ⊎ (freshness_window < 8 * day))
decayed_confidence_bounds_example =
    decayed_confidence_bounds Fixed-laws 800000000000000 (8 * day) refl

decayed_confidence_raises_example :
    decayed_confidence {W = Fixed} 100000000000000 (pos (8 * day)) ≡ some stale_floor
decayed_confidence_raises_example =
    decayed_confidence_raises Fixed-laws 100000000000000 (8 * day) (omega arith) refl

decayed_confidence_mono_example :
    (d e : Fixed) × (decayed_confidence {W = Fixed} 800000000000000 (pos (8 * day)) ≡ some d)
    × (decayed_confidence {W = Fixed} 800000000000000 (pos (9 * day)) ≡ some e)
    × (fixed_float.le e d ≡ true)
decayed_confidence_mono_example =
    decayed_confidence_mono Fixed-laws 800000000000000 (8 * day) (9 * day) (omega arith) refl
