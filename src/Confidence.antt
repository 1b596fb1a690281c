-- ===== src/Confidence.antt =====
-- packages/core-model confidence.py: the confidence of inferred edges. An age is a `timedelta`, a
-- signed number of microseconds.
pub mod Curve
mod Tests
use infra_twin.Prelude.{ℕ, zero, suc, ◌-◌, ◌*◌, Bool, Option, none, some, ltb, leb, if◌then◌else◌}
use infra_twin.Prelude.Ints.{ℤ, pos, negsuc}
use infra_twin.Float.{Float, of_int}

-- The microseconds of a day.
abbrev pub day : ℕ
day = 86400 * 1000000

abbrev pub freshness_window : ℕ
freshness_window = 7 * day

abbrev pub edge_ttl : ℕ
edge_ttl = 30 * day

module _ {W : Type 0} ⦃f : Float W⦄ where
  -- Python's `min` and `max` of two floats: the first unless the second is strictly better.
  unfoldable pub fmin : W → W → W
  fmin a b = if f.le a b then a else b

  unfoldable pub fmax : W → W → W
  fmax a b = if f.le b a then a else b

  abbrev pub baseline_confidence : W
  baseline_confidence = f.lit 6 1

  abbrev pub stale_floor : W
  stale_floor = f.lit 2 1

  -- `1.0 - 1e-15`
  abbrev pub confidence_cap : W
  confidence_cap = f.sub (of_int 1) (f.lit 1 15)

  -- `INFERRED_CONFIDENCE_DECAY ** n`, a power of 0.5
  unfoldable pub decay_power : ℕ → W
  decay_power zero = of_int 1
  decay_power (suc n) = f.mul (decay_power n) (f.lit 5 1)

  -- `raw`, of the number of observations less one
  unfoldable pub raw_confidence : ℕ → W
  raw_confidence n = f.sub (of_int 1) (f.mul (f.sub (of_int 1) baseline_confidence) (decay_power n))

  -- `none` is the `ValueError` of a count below 1.
  unfoldable pub confidence_for_observations : ℕ → Option W
  confidence_for_observations zero = none
  confidence_for_observations (suc n) = some (fmin (raw_confidence n) confidence_cap)

  -- what is left of a confidence after the time past the window
  unfoldable pub decay_past : W → ℕ → W
  decay_past current stale =
      let days_stale = f.div (f.div (of_int stale) (of_int 1000000)) (of_int 86400) in
      let raw = f.sub current (f.mul (f.lit 5 2) days_stale) in fmax stale_floor (fmin current raw)

  -- `none` is the `ValueError` of a negative age.
  unfoldable pub decayed_confidence : W → ℤ → Option W
  decayed_confidence current (negsuc _) = none
  decayed_confidence current (pos age) =
      some
        (if leb age freshness_window then current else decay_past current (age - freshness_window))
