-- ===== src/Query/Bfs/Keys.antt =====
-- `first_of_key` keeps one entry of each key, and `capped` keeps entries of its list.
use mathlib.Core.List.Memᴰ
use infra_twin.Prelude.{
  ℕ, ◌≡◌, refl, ◌⊎◌, inl, inr, List, [], ◌∷◌, foldl, Option, none, some, Dict, has-cases,
  mem_of_get, length, mem-take, Memᴰ, Memᴰ-cons, Memᴰ-snoc, arith, ltb, Bool-cases, false,
}
use infra_twin.Query.Bfs.{note, first_of_key, capped, exceeds}

module _ {ℓ} {V : Type ℓ} where
  mem-note : (seen : Dict V) (p e : ℕ × V) → Memᴰ e (note seen p) → Memᴰ e seen ⊎ (e ≡ p)
  unfolding note
  mem-note seen p e m = ground (arith, Memᴰ-snoc e p seen)

  mem-fold :
      (xs seen : List (ℕ × V)) (e : ℕ × V) → Memᴰ e (foldl note seen xs) → Memᴰ e seen ⊎ Memᴰ e xs
  mem-fold [] seen e m = inl m
  mem-fold (x ∷ xs) seen e m =
      ground (arith, mem-fold xs (note seen x) e m, mem-note seen x e, Memᴰ-cons e x xs)

  -- Nothing is added.
  pub mem-first_of_key : (xs : List (ℕ × V)) (e : ℕ × V) → Memᴰ e (first_of_key xs) → Memᴰ e xs
  unfolding first_of_key
  mem-first_of_key xs e m = ground (arith, mem-fold xs [] e m, Memᴰ.not-nil {a = e})

  abbrev HasKey : ℕ → List (ℕ × V) → Type ℓ
  HasKey k xs = (v : V) × Memᴰ (k, v) xs

  note-keeps : (seen : Dict V) (p : ℕ × V) (k : ℕ) → HasKey k seen → HasKey k (note seen p)
  unfolding note
  note-keeps seen p k (v, m) = (v, ground (arith, Memᴰ-snoc (k, v) p seen))

  note-has : (seen : Dict V) (k : ℕ) (v : V) → HasKey k (note seen (k, v))
  unfolding note
  note-has seen k v = elim (has-cases seen k) [
    | inl (e, _) ↦ (v, rw (e, note) ((Memᴰ-snoc (k, v) (k, v) seen).1 (inr refl)))
    | inr (w, e, g) ↦ (w, rw (e, note) (mem_of_get seen k w g))
  ]

  fold_keeps : (xs seen : List (ℕ × V)) (k : ℕ) → HasKey k seen → HasKey k (foldl note seen xs)
  fold_keeps [] seen k h = h
  fold_keeps (x ∷ xs) seen k h = fold_keeps xs (note seen x) k (note-keeps seen x k h)

  fold_has :
      (xs seen : List (ℕ × V)) (k : ℕ) (v : V) → Memᴰ (k, v) xs → HasKey k (foldl note seen xs)
  fold_has [] seen k v m = absurd (Memᴰ.not-nil m)
  fold_has (x ∷ xs) seen k v m = elim (Memᴰ.cases_cons m) [
    | inl e ↦ fold_keeps xs (note seen x) k (rw (← e) (note-has seen k v))
    | inr r ↦ fold_has xs (note seen x) k v r
  ]

  -- No key is lost.
  pub first_of_key-has :
      (xs : List (ℕ × V)) (k : ℕ) (v : V) → Memᴰ (k, v) xs → HasKey k (first_of_key xs)
  unfolding first_of_key
  first_of_key-has xs k v m = fold_has xs [] k v m

module _ {ℓ} {A : Type ℓ} where
  pub mem-capped : (c : Option ℕ) (xs : List A) (a : A) → Memᴰ a (capped c xs) → Memᴰ a xs
  unfolding capped
  mem-capped none xs a m = m
  mem-capped (some n) xs a m = elim (Bool-cases (ltb n (length xs))) [
    | inl e ↦ mem-take n xs a (rw (e, capped) at m)
    | inr e ↦ rw (e, capped) at m
  ]

  pub capped_whole : (c : Option ℕ) (xs : List A) → exceeds c (length xs) ≡ false → capped c xs ≡ xs
  unfolding capped exceeds
  capped_whole none xs e = refl
  capped_whole (some n) xs e = rw e

  pub capped-none : (xs : List A) → capped none xs ≡ xs
  unfolding capped
  capped-none xs = refl
