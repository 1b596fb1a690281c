-- ===== src/Prelude/Dicts.antt =====
-- Python's `dict` with identifiers for keys, as an association list. `first_of_key` keeps the first
-- entry of each key, which is what `dict.fromkeys` and the loops `if k not in seen` leave.
use Prim.Native.Nat.{ℕ}
use mathlib.Core.Path.{◌≡◌, refl, subst, sym}
use mathlib.Core.Logic.{◌⊎◌, inl, inr, ◌↔◌}
use mathlib.Core.Bool.{Bool, true, false}
use mathlib.Core.Option.{Option, none, some}
use mathlib.Core.List.{List, [], ◌∷◌, Memᴰ, map}
use native.Mathlib.Omega.{arith}
use infra_twin.Prelude.Tests.{◌==◌, if◌then◌else◌, Option-cases}
use infra_twin.Prelude.Lists.{Memᴰ-cons, mem-map}

-- A dict's entries, the newest binding of a key first.
abbrev pub Dict {ℓ} : Type ℓ → Type ℓ
Dict V = List (ℕ × V)

module _ {ℓ} {V : Type ℓ} where
  unfoldable pub get : Dict V → ℕ → Option V
  get [] k = none
  get ((j, v) ∷ m) k = if j == k then some v else get m k

  pub get-cons :
      (m : Dict V) (j k : ℕ) (v : V) → get ((j, v) ∷ m) k ≡ (if j == k then some v else get m k)
  unfolding get
  get-cons m j k v = refl

  unfoldable pub has : Dict V → ℕ → Bool
  has m k = elim (get m k) [ none ↦ false | some _ ↦ true ]

  pub has-cases :
      (m : Dict V) (k : ℕ)
      → (has m k ≡ false) × (get m k ≡ none) ⊎ ((v : V) × (has m k ≡ true) × (get m k ≡ some v))
  unfolding has
  has-cases m k = elim (Option-cases (get m k)) [
    | inl e ↦ inl (rw (e, has), e)
    | inr (v, e) ↦ inr (v, rw (e, has), e)
  ]

  pub mem_of_get : (m : Dict V) (k : ℕ) (v : V) → get m k ≡ some v → Memᴰ (k, v) m
  unfolding get
  mem_of_get [] k v h = cc
  mem_of_get ((j, w) ∷ m) k v h = ground (arith, mem_of_get m k v, Memᴰ-cons (k, v) (j, w) m)

  abbrev pub keys : List (ℕ × V) → List ℕ
  keys = map (λ e. e.0)

  pub mem-keys : (k : ℕ) (m : List (ℕ × V)) → Memᴰ k (keys m) ↔ ((v : V) × Memᴰ (k, v) m)
  mem-keys k m = (
    λ i.
        let (e, j, p) = (mem-map {A = ℕ × V} (λ e. e.0) m k).0 i in
        (e.1, subst (λ (k : ℕ). Memᴰ (k, e.1) m) (sym p) j),
    λ h. (mem-map {A = ℕ × V} (λ e. e.0) m k).1 ((k, h.0), h.1, refl),
  )
