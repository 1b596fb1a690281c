-- ===== src/Prelude/Lists.antt =====
-- Lists measured by native numbers, and membership.
use Prim.Native.Nat.{ℕ, zero, suc, ◌+◌, ◌≤◌}
use mathlib.Core.Path.{◌≡◌, refl, ap, sym, ◌∙◌}
use mathlib.Core.Logic.{◌↔◌, ◌⊎◌, inl, inr, ⊎_elim}
use mathlib.Core.List.{List, [], ◌∷◌, ◌++◌, map, Memᴰ}
use mathlib.Core.List.Memᴰ
use mathlib.Core.Option.{Option, none, some}
use mathlib.Core.Bool.{Bool, true, false}
use native.Mathlib.Omega.{arith}
use infra_twin.Prelude.Tests.{if◌then◌else◌, Bool-cases, Option-cases}

module _ {ℓ} {A : Type ℓ} where
  abbrev pub length : List A → ℕ
  length [] = 0
  length (x ∷ xs) = suc (length xs)

  abbrev pub take : ℕ → List A → List A
  take zero xs = []
  take (suc n) [] = []
  take (suc n) (x ∷ xs) = x ∷ take n xs

  pub List-cases : (xs : List A) → (xs ≡ []) ⊎ ((x : A) × (rest : List A) × (xs ≡ x ∷ rest))
  List-cases [] = inl refl
  List-cases (x ∷ xs) = inr (x, xs, refl)

  pub length-append : (xs ys : List A) → length (xs ++ ys) ≡ length xs + length ys
  length-append [] ys = omega arith
  length-append (x ∷ xs) ys = omega (arith, length-append xs ys)

  take_nil : (k : ℕ) → take k [] ≡ []
  take_nil zero = refl
  take_nil (suc k) = refl

  pub take_of_length-le : (k : ℕ) (ys : List A) → length ys ≤ k → take k ys ≡ ys
  take_of_length-le k [] enough = take_nil k
  take_of_length-le zero (y ∷ ys) enough = absurd (omega arith)
  take_of_length-le (suc k) (y ∷ ys) enough = ap (◌∷◌ y) (take_of_length-le k ys (omega arith))

  pub mem-take : (n : ℕ) (xs : List A) (a : A) → Memᴰ a (take n xs) → Memᴰ a xs
  mem-take zero xs a m = absurd (Memᴰ.not-nil m)
  mem-take (suc n) [] a m = m
  mem-take (suc n) (x ∷ xs) a m =
      ⊎_elim Memᴰ.head (λ r. Memᴰ.tail (mem-take n xs a r)) (Memᴰ.cases_cons m)

  pub Memᴰ-nil : (a : A) → Memᴰ a [] ↔ ⊥
  Memᴰ-nil a = (Memᴰ.not-nil, λ e. absurd e)

  pub Memᴰ-cons : (a x : A) (xs : List A) → Memᴰ a (x ∷ xs) ↔ ((a ≡ x) ⊎ Memᴰ a xs)
  Memᴰ-cons a x xs = (Memᴰ.cases_cons, ⊎_elim Memᴰ.head Memᴰ.tail)

  pub Memᴰ-append : (a : A) (xs ys : List A) → Memᴰ a (xs ++ ys) ↔ (Memᴰ a xs ⊎ Memᴰ a ys)
  Memᴰ-append a xs ys = (Memᴰ.append_cases xs, ⊎_elim (Memᴰ.append_left ys) (Memᴰ.append_right xs))

  pub Memᴰ-snoc : (a x : A) (xs : List A) → Memᴰ a (xs ++ x ∷ []) ↔ (Memᴰ a xs ⊎ (a ≡ x))
  Memᴰ-snoc a x xs = (
    λ m. ⊎_elim inl (λ last. inr (Memᴰ.eq_of_singleton last)) (Memᴰ.append_cases xs m),
    ⊎_elim (Memᴰ.append_left _) (λ e. Memᴰ.append_right xs (Memᴰ.head e)),
  )

pub no_members {ℓ} : {A : Type ℓ} (xs : List A) → ((a : A) → Memᴰ a xs → ⊥) → xs ≡ []
no_members [] h = refl
no_members (x ∷ xs) h = absurd (h x (Memᴰ.head refl))

module _ {ℓ} {A : Type ℓ} where
  -- The elements that pass a test, a `WHERE` clause.
  unfoldable pub select : (A → Bool) → List A → List A
  select p [] = []
  select p (x ∷ xs) = if p x then x ∷ select p xs else select p xs

  pub mem-select :
      (p : A → Bool) (xs : List A) (a : A) → Memᴰ a (select p xs) ↔ (Memᴰ a xs × (p a ≡ true))
  unfolding select
  mem-select p [] a = (λ m. absurd (Memᴰ.not-nil m), λ m. absurd (Memᴰ.not-nil m.0))
  mem-select p (x ∷ xs) a = elim (Bool-cases (p x)) [
    | inl e ↦
        rw (e, select)
          (ground (arith, mem-select p xs a, Memᴰ-cons a x (select p xs), Memᴰ-cons a x xs))
    | inr e ↦ rw (e, select) (ground (arith, mem-select p xs a, Memᴰ-cons a x xs))
  ]

-- A row that the test rejects can be appended.
pub select-append_no {ℓ} :
    {A : Type ℓ} (p : A → Bool) (xs : List A) (y : A)
    → p y ≡ false
    → select p (xs ++ y ∷ []) ≡ select p xs
unfolding select
select-append_no p [] y h = rw (h, select) refl
select-append_no p (x ∷ xs) y h = elim (Bool-cases (p x)) [
  | inl e ↦ rw (e, select) (ap (◌∷◌ x) (select-append_no p xs y h))
  | inr e ↦ rw (e, select) (select-append_no p xs y h)
]

pub select-append {ℓ} :
    {A : Type ℓ} (p : A → Bool) (xs ys : List A) → select p (xs ++ ys) ≡ select p xs ++ select p ys
unfolding select
select-append p [] ys = refl
select-append p (x ∷ xs) ys = elim (Bool-cases (p x)) [
  | inl e ↦ rw (e, select) (ap (◌∷◌ x) (select-append p xs ys))
  | inr e ↦ rw (e, select) (select-append p xs ys)
]

-- Rewriting rows that a test rejects, to rows that it rejects, changes nothing that it selects.
pub select-map_rejected {ℓ} :
    {A : Type ℓ} (p : A → Bool) (g : A → A)
    → ((a : A) → p (g a) ≡ p a)
    → ((a : A) → p a ≡ true → g a ≡ a)
    → (xs : List A) → select p (map g xs) ≡ select p xs
unfolding select
select-map_rejected p g same kept [] = refl
select-map_rejected p g same kept (x ∷ xs) = elim (Bool-cases (p x)) [
  | inl e ↦
      rw (e, same x ∙ e, select)
        (ap (◌∷◌ (g x)) (select-map_rejected p g same kept xs)
          ∙ ap (λ b. b ∷ select p xs) (kept x e))
  | inr e ↦ rw (e, same x ∙ e, select) (select-map_rejected p g same kept xs)
]

-- Rewriting rows changes neither which are selected nor what is read of them, if it changes
-- neither of each row.
pub select-map_same {ℓ κ} :
    {A : Type ℓ} {B : Type κ} (p : A → Bool) (g : A → A) (k : A → B)
    → ((a : A) → p (g a) ≡ p a)
    → ((a : A) → k (g a) ≡ k a)
    → (xs : List A) → map k (select p (map g xs)) ≡ map k (select p xs)
unfolding select
select-map_same p g k same_p same_k [] = refl
select-map_same p g k same_p same_k (x ∷ xs) = elim (Bool-cases (p x)) [
  | inl e ↦
      rw (e, same_p x ∙ e, select)
        (ap (◌∷◌ (k (g x))) (select-map_same p g k same_p same_k xs)
          ∙ ap (λ b. b ∷ map k (select p xs)) (same_k x))
  | inr e ↦ rw (e, same_p x ∙ e, select) (select-map_same p g k same_p same_k xs)
]

module _ {ℓ κ} {A : Type ℓ} {B : Type κ} where
  -- A loop that appends at most one element for each that it meets.
  unfoldable pub gather : (A → Option B) → List A → List B
  gather f [] = []
  gather f (x ∷ xs) = elim (f x) [ none ↦ gather f xs | some y ↦ y ∷ gather f xs ]

  pub mem_of_gather :
      (f : A → Option B) (xs : List A) (b : B)
      → Memᴰ b (gather f xs)
      → (a : A) × Memᴰ a xs × (f a ≡ some b)
  unfolding gather
  mem_of_gather f [] b m = absurd (Memᴰ.not-nil m)
  mem_of_gather f (x ∷ xs) b m = elim (Option-cases (f x)) [
    | inl e ↦ let (a, i, h) = mem_of_gather f xs b (rw (e, gather) at m) in (a, Memᴰ.tail i, h)
    | inr (y, e) ↦ elim (Memᴰ.cases_cons (rw (e, gather) at m)) [
      | inl s ↦ (x, Memᴰ.head refl, rw s e)
      | inr r ↦ let (a, i, h) = mem_of_gather f xs b r in (a, Memᴰ.tail i, h)
    ]
  ]

  pub gather_of_mem :
      (f : A → Option B) (xs : List A) (a : A) (b : B)
      → Memᴰ a xs
      → f a ≡ some b
      → Memᴰ b (gather f xs)
  unfolding gather
  gather_of_mem f [] a b i h = absurd (Memᴰ.not-nil i)
  gather_of_mem f (x ∷ xs) a b i h = elim (Memᴰ.cases_cons i) [
    | inl s ↦ rw (ap f (sym s) ∙ h, gather) (Memᴰ.head refl)
    | inr r ↦ elim (Option-cases (f x)) [
      | inl e ↦ rw (e, gather) (gather_of_mem f xs a b r h)
      | inr (y, e) ↦ rw (e, gather) (Memᴰ.tail (gather_of_mem f xs a b r h))
    ]
  ]

  pub mem-gather :
      (f : A → Option B) (xs : List A) (b : B)
      → Memᴰ b (gather f xs) ↔ ((a : A) × Memᴰ a xs × (f a ≡ some b))
  mem-gather f xs b = (mem_of_gather f xs b, λ m. gather_of_mem f xs m.0 b m.1 m.2)

  pub mem-map :
      (f : A → B) (xs : List A) (b : B) → Memᴰ b (map f xs) ↔ ((a : A) × Memᴰ a xs × (b ≡ f a))
  mem-map f [] b = (λ m. absurd (Memᴰ.not-nil m), λ m. absurd (Memᴰ.not-nil m.1))
  mem-map f (x ∷ xs) b = (
    λ m.
        ⊎_elim (λ e. (x, Memᴰ.head refl, e))
          (λ r. let (a, i, e) = (mem-map f xs b).0 r in (a, Memᴰ.tail i, e)) (Memᴰ.cases_cons m),
    λ m.
        let (a, i, e) = m in
        ⊎_elim (λ s. Memᴰ.head (e ∙ ap f s)) (λ r. Memᴰ.tail ((mem-map f xs b).1 (a, r, e)))
          (Memᴰ.cases_cons i),
  )

pub length-map {ℓ κ} :
    {A : Type ℓ} {B : Type κ} (f : A → B) (xs : List A) → length (map f xs) ≡ length xs
length-map f [] = refl
length-map f (x ∷ xs) = ap suc (length-map f xs)
