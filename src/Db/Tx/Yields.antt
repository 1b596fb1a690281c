-- ===== src/Db/Tx/Yields.antt =====
-- What holds of the value that a transaction returns when it succeeds.
use infra_twin.Prelude.{ℕ, suc, ◌≡◌, refl, List, [], ◌∷◌, length, arith, subst, ◌+◌}
use infra_twin.Db.Tx.{Failure, TxOutcome, done, raised, Tx, pure, raise, and_rest, ◌>>=◌, fold_tx}

pub record Yields {S A : Type 0} (P : A → Type 0) (m : Tx S A) : Type 0 where
  pub returned : (s : S) (a : A) (t : S) → m s ≡ done a t → P a

module _ {S A : Type 0} {P : A → Type 0} where
  pub Yields-pure : (a : A) → P a → Yields {S = S} P (pure a)
  Yields-pure a h = record {
    returned = λ s b t e. let same : a ≡ b = ground arith in subst P same h;
  }

  pub Yields-raise : (f : Failure) → Yields {S = S} P (raise f)
  Yields-raise f = record { returned = λ s b t e. cc }

module _ {S A B : Type 0} {P : B → Type 0} where
  rest_returned :
      (o : TxOutcome S A) (f : A → Tx S B) (b : B) (u : S)
      → ((a : A) (t : S) → o ≡ done a t → Yields P (f a))
      → and_rest o f ≡ done b u
      → P b
  rest_returned (done a t) f b u k e = (k a t refl).returned t b u e
  rest_returned (raised x) f b u k e = cc

  -- the rest of a block, for every value of a statement
  pub Yields-then : (m : Tx S A) (f : A → Tx S B) → ((a : A) → Yields P (f a)) → Yields P (m >>= f)
  unfolding ◌>>=◌
  Yields-then m f k = record { returned = λ s b u e. rest_returned (m s) f b u (λ a t _. k a) e }

  -- the rest of a block, for the values that a statement can return
  pub Yields-bind :
      {Q : A → Type 0} (m : Tx S A) (f : A → Tx S B)
      → Yields Q m
      → ((a : A) → Q a → Yields P (f a))
      → Yields P (m >>= f)
  unfolding ◌>>=◌
  Yields-bind m f h k = record {
    returned = λ s b u e. rest_returned (m s) f b u (λ a t g. k a (h.returned s a t g)) e;
  }

-- A loop whose every round counts one more has counted its list.
pub Yields-fold :
    {S A X : Type 0} (count : A → ℕ) (step : A → X → Tx S A)
    → ((a : A) (x : X) → Yields (λ b. count b ≡ suc (count a)) (step a x))
    → (a : A) (xs : List X) → Yields (λ b. count b ≡ count a + length xs) (fold_tx step a xs)
unfolding fold_tx
Yields-fold count step k a [] = Yields-pure a (omega arith)
Yields-fold count step k a (x ∷ xs) =
    Yields-bind (step a x) (λ b. fold_tx step b xs) (k a x)
      λ b h. record {
        returned =
            λ s c t e. let rest = (Yields-fold count step k b xs).returned s c t e in omega arith;
      }
