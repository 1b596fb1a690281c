-- ===== src/Confidence/Curve.antt =====
-- The shape of the two confidence curves.
use infra_twin.Prelude.{
  ℕ, zero, suc, ◌-◌, ◌≤◌, ◌<◌, ◌≡◌, ◌⊎◌, inl, inr, refl, ap, subst, true, false, some, leb, arith,
  Bool-cases,
}
use infra_twin.Prelude.Ints.{pos}
use infra_twin.Float.{Float, FloatLaws, of_int}
use infra_twin.Confidence.{
  freshness_window, fmin, fmax, stale_floor, confidence_cap, decay_power, raw_confidence,
  confidence_for_observations, decay_past, decayed_confidence,
}

window_cases :
    (n : ℕ)
    → ((leb n freshness_window ≡ true) × (n ≤ freshness_window))
      ⊎ ((leb n freshness_window ≡ false) × (freshness_window < n))
window_cases n = ground arith

module _ {W : Type 0} ⦃f : Float W⦄ (laws : FloatLaws W) where
  le_of_not : (a b : W) → f.le a b ≡ false → f.le b a ≡ true
  le_of_not a b h = elim (laws.le_total a b) [ inl e ↦ cc | inr e ↦ e ]

  fmin-le_left : (a b : W) → f.le (fmin a b) a ≡ true
  unfolding fmin
  fmin-le_left a b = elim (Bool-cases (f.le a b)) [
    | inl e ↦ rw (e, fmin) (laws.le_refl a)
    | inr e ↦ rw (e, fmin) (le_of_not a b e)
  ]

  fmin-le_right : (a b : W) → f.le (fmin a b) b ≡ true
  unfolding fmin
  fmin-le_right a b = elim (Bool-cases (f.le a b)) [
    | inl e ↦ rw (e, fmin) e
    | inr e ↦ rw (e, fmin) (laws.le_refl b)
  ]

  le-fmin : (c a b : W) → f.le c a ≡ true → f.le c b ≡ true → f.le c (fmin a b) ≡ true
  unfolding fmin
  le-fmin c a b p q = elim (Bool-cases (f.le a b)) [
    | inl e ↦ rw (e, fmin) p
    | inr e ↦ rw (e, fmin) q
  ]

  fmax-le : (a b c : W) → f.le a c ≡ true → f.le b c ≡ true → f.le (fmax a b) c ≡ true
  unfolding fmax
  fmax-le a b c p q = elim (Bool-cases (f.le b a)) [
    | inl e ↦ rw (e, fmax) p
    | inr e ↦ rw (e, fmax) q
  ]

  le-fmax_left : (a b : W) → f.le a (fmax a b) ≡ true
  unfolding fmax
  le-fmax_left a b = elim (Bool-cases (f.le b a)) [
    | inl e ↦ rw (e, fmax) (laws.le_refl a)
    | inr e ↦ rw (e, fmax) (le_of_not b a e)
  ]

  le-fmax_right : (a b : W) → f.le b (fmax a b) ≡ true
  unfolding fmax
  le-fmax_right a b = elim (Bool-cases (f.le b a)) [
    | inl e ↦ rw (e, fmax) e
    | inr e ↦ rw (e, fmax) (laws.le_refl b)
  ]

  fmin_mono : (a b c : W) → f.le a b ≡ true → f.le (fmin a c) (fmin b c) ≡ true
  fmin_mono a b c h =
      le-fmin (fmin a c) b c (laws.le_trans (fmin a c) a b (fmin-le_left a c) h) (fmin-le_right a c)

  decay_power_nonneg : (n : ℕ) → f.le (of_int 0) (decay_power n) ≡ true
  unfolding decay_power
  decay_power_nonneg zero = laws.int_mono 0 1 (omega arith)
  decay_power_nonneg (suc n) = laws.mul_nonneg _ _ (decay_power_nonneg n) (laws.lit_nonneg 5 1)

  decay_power_step : (n : ℕ) → f.le (decay_power (suc n)) (decay_power n) ≡ true
  unfolding decay_power
  decay_power_step n =
      subst (λ (x : W). f.le (decay_power (suc n)) x ≡ true) (laws.mul_one (decay_power n))
        (laws.mul_mono (decay_power n) (f.lit 5 1) (of_int 1) (decay_power_nonneg n)
          (laws.lit_le_one 5 1 (omega arith)))

  raw_step : (n : ℕ) → f.le (raw_confidence n) (raw_confidence (suc n)) ≡ true
  unfolding raw_confidence
  raw_step n = laws.sub_anti (of_int 1) _ _ (
      laws.mul_mono _ _ _ (laws.sub_nonneg _ _ (laws.lit_le_one 6 1 (omega arith)))
        (decay_power_step n))

  raw_mono : (n m : ℕ) → n ≤ m → f.le (raw_confidence n) (raw_confidence m) ≡ true
  raw_mono n zero h =
      subst (λ (k : ℕ). f.le (raw_confidence k) (raw_confidence 0) ≡ true) (zero_of n h)
        (laws.le_refl _)
    where
      zero_of : (n : ℕ) → n ≤ 0 → 0 ≡ n
      zero_of n h = omega arith
  raw_mono n (suc m) h = elim (last_or_before n m h) [
    | inl e ↦
        subst (λ (k : ℕ). f.le (raw_confidence k) (raw_confidence (suc m)) ≡ true) e
          (laws.le_refl _)
    | inr le ↦ laws.le_trans _ _ _ (raw_mono n m le) (raw_step m)
  ]
    where
      last_or_before : (n m : ℕ) → n ≤ suc m → (suc m ≡ n) ⊎ (n ≤ m)
      last_or_before n m h = omega arith

  -- Under the laws of floats, more observations never lower the confidence, every count from 1 has
  -- one, and it is at most the cap.
  pub confidence_for_observations_mono :
      (n m : ℕ)
      → n ≤ m
      → (c d : W) × (confidence_for_observations (suc n) ≡ some c)
        × (confidence_for_observations (suc m) ≡ some d)
        × (f.le c d ≡ true)
        × (f.le d confidence_cap ≡ true)
  unfolding confidence_for_observations
  confidence_for_observations_mono n m h = (
    fmin (raw_confidence n) confidence_cap,
    fmin (raw_confidence m) confidence_cap,
    refl,
    refl,
    fmin_mono _ _ _ (raw_mono n m h),
    fmin-le_right _ _,
  )

  -- Under the laws of floats, once the curve has passed the cap, further observations leave the
  -- confidence as it is.
  pub confidence_for_observations_plateau :
      (n m : ℕ)
      → n ≤ m
      → f.le (raw_confidence n) confidence_cap ≡ false
      → confidence_for_observations {W = W} (suc m) ≡ confidence_for_observations (suc n)
  unfolding confidence_for_observations fmin
  confidence_for_observations_plateau n m h above =
      elim (Bool-cases (f.le (raw_confidence m) confidence_cap)) [
        | inl e ↦ let below = laws.le_trans _ _ _ (raw_mono n m h) e in absurd cc
        | inr e ↦ rw (above, e, fmin) refl
      ]

  past-le :
      (c : W) (n : ℕ)
      → f.le stale_floor c ≡ true
      → f.le (decay_past c (n - freshness_window)) c ≡ true
  unfolding decay_past
  past-le c n floor_le = fmax-le _ _ c floor_le (fmin-le_left c _)

  -- Under the laws of floats, for an age that is not negative, what is left of a confidence of at
  -- least the floor lies between the floor and the confidence, and up to the window it is the
  -- confidence itself.
  pub decayed_confidence_bounds :
      (c : W) (n : ℕ)
      → f.le stale_floor c ≡ true
      → (d : W) × (decayed_confidence c (pos n) ≡ some d)
        × (f.le stale_floor d ≡ true)
        × (f.le d c ≡ true)
        × ((d ≡ c) ⊎ (freshness_window < n))
  unfolding decayed_confidence decay_past
  decayed_confidence_bounds c n floor_le = elim (window_cases n) [
    | inl (e, _) ↦ rw (e, decayed_confidence) (c, refl, floor_le, laws.le_refl c, inl refl)
    | inr (e, past) ↦
        rw (e, decayed_confidence)
          (
            decay_past c (n - freshness_window),
            refl,
            le-fmax_left _ _,
            past-le c n floor_le,
            inr past,
          )
  ]

  -- Under the laws of floats, a confidence below the floor is raised to the floor once the age is
  -- past the window.
  pub decayed_confidence_raises :
      (c : W) (n : ℕ)
      → freshness_window < n
      → f.le stale_floor c ≡ false
      → decayed_confidence c (pos n) ≡ some stale_floor
  unfolding decayed_confidence decay_past fmax
  decayed_confidence_raises c n past low =
      rw (past_window, decayed_confidence) (ap some (fmax_of_below (fmin c _) (below_floor _)))
    where
      past_window : leb n freshness_window ≡ false
      past_window = ground arith

      below_floor : (x : W) → f.le (fmin c x) stale_floor ≡ true
      below_floor x = laws.le_trans _ _ _ (fmin-le_left c x) (le_of_not _ _ low)

      fmax_of_below : (x : W) → f.le x stale_floor ≡ true → fmax stale_floor x ≡ stale_floor
      fmax_of_below x h = rw (h, fmax) refl

  decay_past_mono : (c : W) (a b : ℕ) → a ≤ b → f.le (decay_past c b) (decay_past c a) ≡ true
  unfolding decay_past
  decay_past_mono c a b h =
      let seconds = laws.div_mono _ _ _ (laws.lit_nonneg 1000000 0) (laws.int_mono a b h) in
      let days = laws.div_mono _ _ _ (laws.lit_nonneg 86400 0) seconds in
      let left = laws.sub_anti c _ _ (laws.mul_mono _ _ _ (laws.lit_nonneg 5 2) days) in
      fmax-le _ _ _ (le-fmax_left _ _) (
        laws.le_trans _ _ _
          (le-fmin _ c _ (fmin-le_left c _) (laws.le_trans _ _ _ (fmin-le_right c _) left))
          (le-fmax_right _ _))

  -- Under the laws of floats, the older an observation is, the lower or equal is what it leaves of
  -- a confidence that is at least the floor.
  pub decayed_confidence_mono :
      (c : W) (n m : ℕ)
      → n ≤ m
      → f.le stale_floor c ≡ true
      → (d e : W) × (decayed_confidence c (pos n) ≡ some d)
        × (decayed_confidence c (pos m) ≡ some e)
        × (f.le e d ≡ true)
  unfolding decayed_confidence
  decayed_confidence_mono c n m h floor_le = elim (window_cases m) [
    | inl (e, le) ↦
        rw (e, window_le n m h le, decayed_confidence) (c, c, refl, refl, laws.le_refl c)
    | inr (e, lt) ↦ elim (window_cases n) [
      | inl (g, _) ↦
          rw (e, g, decayed_confidence)
            (c, decay_past c (m - freshness_window), refl, refl, past-le c m floor_le)
      | inr (g, _) ↦
          rw (e, g, decayed_confidence)
            (
              decay_past c (n - freshness_window),
              decay_past c (m - freshness_window),
              refl,
              refl,
              decay_past_mono c _ _ (omega arith),
            )
    ]
  ]
    where
      window_le : (n m : ℕ) → n ≤ m → m ≤ freshness_window → leb n freshness_window ≡ true
      window_le n m h le = ground arith
