-- ===== src/Db/Tx/Steps.antt =====
-- What holds between the tables before and after a transaction that succeeds, one rule for each way
-- to build a transaction.
use infra_twin.Prelude.{
  ◌≡◌, refl, Bool, true, false, Option, none, some, List, [], ◌∷◌, if◌then◌else◌, arith, subst,
}
use infra_twin.Db.Tx.{
  Failure, TxOutcome, done, raised, Tx, pure, raise, gets, and_rest, ◌>>=◌, modify, fold_tx,
}

pub record Steps {S A : Type 0} (R : S → S → Type 0) (m : Tx S A) : Type 0 where
  pub between : (s : S) (a : A) (t : S) → m s ≡ done a t → R s t

pub record Preorder {S : Type 0} (R : S → S → Type 0) : Type 0 where
  pub same : (s : S) → R s s
  pub then_also : (s t u : S) → R s t → R t u → R s u

module _ {S A : Type 0} {R : S → S → Type 0} where
  pub Steps-pure : Preorder R → (a : A) → Steps R (pure a)
  Steps-pure p a = record {
    between = λ s b t e. let st : s ≡ t = ground arith in subst (R s) st (p.same s);
  }

  pub Steps-raise : (f : Failure) → Steps R (raise {A = A} f)
  Steps-raise f = record { between = λ s b t e. cc }

  pub Steps-gets : Preorder R → (f : S → A) → Steps R (gets f)
  Steps-gets p f = record {
    between = λ s b t e. let st : s ≡ t = ground arith in subst (R s) st (p.same s);
  }

  pub Steps-if : (b : Bool) (m n : Tx S A) → Steps R m → Steps R n → Steps R (if b then m else n)
  Steps-if true m n km kn = km
  Steps-if false m n km kn = kn

  pub Steps-option :
      {X : Type 0} (o : Option X) (m : Tx S A) (n : X → Tx S A)
      → Steps R m
      → ((x : X) → Steps R (n x))
      → Steps R (elim o [ none ↦ m | some x ↦ n x ])
  Steps-option none m n km kn = km
  Steps-option (some x) m n km kn = kn x

pub Steps-modify :
    {S : Type 0} {R : S → S → Type 0} (f : S → S) → ((s : S) → R s (f s)) → Steps R (modify f)
Steps-modify {R = R} f h = record {
  between = λ s b t e. let st : f s ≡ t = ground arith in subst (R s) st (h s);
}

module _ {S A B : Type 0} {R : S → S → Type 0} where
  rest_between :
      (o : TxOutcome S A) (f : A → Tx S B) (s : S) (b : B) (u : S)
      → Preorder R
      → ((a : A) (t : S) → o ≡ done a t → R s t)
      → ((a : A) → Steps R (f a))
      → and_rest o f ≡ done b u
      → R s u
  rest_between (done a t) f s b u p h k e = p.then_also s t u (h a t refl) ((k a).between t b u e)
  rest_between (raised x) f s b u p h k e = cc

  pub Steps-bind :
      Preorder R
      → (m : Tx S A) (f : A → Tx S B) → Steps R m
      → ((a : A) → Steps R (f a))
      → Steps R (m >>= f)
  unfolding ◌>>=◌
  Steps-bind p m f km kf = record {
    between = λ s b u e. rest_between (m s) f s b u p (km.between s) kf e;
  }

pub Steps-fold :
    {S X A : Type 0} {R : S → S → Type 0}
    → Preorder R
    → (step : A → X → Tx S A) → ((a : A) (x : X) → Steps R (step a x))
    → (a : A) (xs : List X) → Steps R (fold_tx step a xs)
unfolding fold_tx
Steps-fold p step k a [] = Steps-pure p a
Steps-fold p step k a (x ∷ xs) =
    Steps-bind p (step a x) (λ b. fold_tx step b xs) (k a x) (λ b. Steps-fold p step k b xs)

module _ {S A B : Type 0} where
  rest_done :
      (o : TxOutcome S A) (f : A → Tx S B) (b : B) (u : S)
      → and_rest o f ≡ done b u
      → (a : A) × (t : S) × (o ≡ done a t) × (f a t ≡ done b u)
  rest_done (done a t) f b u e = (a, t, refl, e)
  rest_done (raised x) f b u e = absurd cc

  -- A block that succeeds has a first statement that succeeds.
  pub bind_done :
      (m : Tx S A) (f : A → Tx S B) (s : S) (b : B) (u : S)
      → (m >>= f) s ≡ done b u
      → (a : A) × (t : S) × (m s ≡ done a t) × (f a t ≡ done b u)
  unfolding ◌>>=◌
  bind_done m f s b u e = rest_done (m s) f b u e

pub done_state : {S A : Type 0} (a b : A) (s t : S) → done a s ≡ done b t → s ≡ t
done_state a b s t e = ground arith

-- A first statement that keeps one relation, before a rest with another.
pub Steps-before :
    {S A B : Type 0} {Q R : S → S → Type 0}
    → ((s t u : S) → Q s t → R t u → R s u)
    → (m : Tx S A) (f : A → Tx S B) → Steps Q m
    → ((a : A) → Steps R (f a))
    → Steps R (m >>= f)
Steps-before join m f km kf = record {
  between = λ s b u e.
      let (a, t, first, rest) = bind_done m f s b u e in
      join s t u (km.between s a t first) ((kf a).between t b u rest);
}
