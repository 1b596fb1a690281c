-- ===== src/Prelude/Sort.antt =====
-- Python's `list.sort(key=…)`: a stable insertion sort by a test on two elements.
use mathlib.Core.Path.{◌≡◌, refl}
use mathlib.Core.Bool.{Bool, true, false}
use mathlib.Core.Logic.{◌↔◌, ◌⊎◌, inl, inr}
use mathlib.Core.List.{List, [], ◌∷◌, Memᴰ, Permᴰ}
use mathlib.Core.List.Permᴰ
use native.Mathlib.Omega.{arith}
use infra_twin.Prelude.Tests.{if◌then◌else◌, Bool-cases}
use infra_twin.Prelude.Lists.{Memᴰ-cons}

abbrev pub All {ℓ κ} : {A : Type ℓ} → (A → Type κ) → List A → Type κ
All P [] = Unit
All P (x ∷ xs) = P x × All P xs

-- Every element stands in the relation to all that follow it.
abbrev pub IsOrdered {ℓ κ} : {A : Type ℓ} → (A → A → Type κ) → List A → Type κ
IsOrdered R [] = Unit
IsOrdered R (x ∷ xs) = All (R x) xs × IsOrdered R xs

pub All-map {ℓ κ} :
    {A : Type ℓ} {P Q : A → Type κ} (xs : List A) → ((a : A) → P a → Q a) → All P xs → All Q xs
All-map [] f h = tt
All-map (x ∷ xs) f h = (f x h.0, All-map xs f h.1)

module _ {ℓ} {A : Type ℓ} (le : A → A → Bool) where
  unfoldable pub insert : A → List A → List A
  insert x [] = x ∷ []
  insert x (y ∷ ys) = if le x y then x ∷ y ∷ ys else y ∷ insert x ys

  unfoldable pub sort : List A → List A
  unfolding insert
  sort [] = []
  sort (x ∷ xs) = insert x (sort xs)

  pub insert-perm : (x : A) (ys : List A) → Permᴰ (insert x ys) (x ∷ ys)
  unfolding insert
  insert-perm x [] = Permᴰ.refl (x ∷ [])
  insert-perm x (y ∷ ys) = elim (Bool-cases (le x y)) [
    | inl e ↦ rw (e, insert) (Permᴰ.refl (x ∷ y ∷ ys))
    | inr e ↦
        rw (e, insert) (Permᴰ.trans (Permᴰ.cons refl (insert-perm x ys)) (Permᴰ.swap refl refl))
  ]

  -- A sorted list holds what the list held, as often.
  pub sort-perm : (xs : List A) → Permᴰ (sort xs) xs
  unfolding sort
  sort-perm [] = Permᴰ.refl []
  sort-perm (x ∷ xs) = Permᴰ.trans (insert-perm x (sort xs)) (Permᴰ.cons refl (sort-perm xs))

  mem-insert : (a x : A) (ys : List A) → Memᴰ a (insert x ys) ↔ ((a ≡ x) ⊎ Memᴰ a ys)
  unfolding insert
  mem-insert a x [] = Memᴰ-cons a x []
  mem-insert a x (y ∷ ys) = ground (
    arith,
    mem-insert a x ys,
    Memᴰ-cons a x (y ∷ ys),
    Memᴰ-cons a y ys,
    Memᴰ-cons a y (insert x ys),
  )

  pub mem-sort : (a : A) (xs : List A) → Memᴰ a (sort xs) ↔ Memᴰ a xs
  unfolding sort
  mem-sort a [] = (λ m. m, λ m. m)
  mem-sort a (x ∷ xs) = ground (arith, mem-insert a x (sort xs), mem-sort a xs, Memᴰ-cons a x xs)

-- A transitive relation that the test decides, one way or the other, orders the result.
module _ {ℓ κ} {A : Type ℓ} (le : A → A → Bool) (R : A → A → Type κ)
    (yes_case : (x y : A) → le x y ≡ true → R x y) (no_case : (x y : A) → le x y ≡ false → R y x)
    (R_trans : (x y z : A) → R x y → R y z → R x z) where
  All-insert : (P : A → Type κ) (x : A) (ys : List A) → P x → All P ys → All P (insert le x ys)
  unfolding insert
  All-insert P x [] px h = (px, tt)
  All-insert P x (y ∷ ys) px h = elim (Bool-cases (le x y)) [
    | inl e ↦ rw (e, insert) (px, h)
    | inr e ↦ rw (e, insert) (h.0, All-insert P x ys px h.1)
  ]

  insert-IsOrdered : (x : A) (ys : List A) → IsOrdered R ys → IsOrdered R (insert le x ys)
  unfolding insert
  insert-IsOrdered x [] h = (tt, tt)
  insert-IsOrdered x (y ∷ ys) h = elim (Bool-cases (le x y)) [
    | inl e ↦
        let xy = yes_case x y e in rw (e, insert) ((xy, All-map ys (λ z. R_trans x y z xy) h.0), h)
    | inr e ↦ rw (e, insert) (All-insert (R y) x ys (no_case x y e) h.0, insert-IsOrdered x ys h.1)
  ]

  pub sort-IsOrdered : (xs : List A) → IsOrdered R (sort le xs)
  unfolding sort
  sort-IsOrdered [] = tt
  sort-IsOrdered (x ∷ xs) = insert-IsOrdered x (sort le xs) (sort-IsOrdered xs)
