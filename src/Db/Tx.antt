-- ===== src/Db/Tx.antt =====
-- A transaction (session.py, `tenant_session`): statements that change the tables or raise. A raise
-- ends the transaction and rolls its tables back, so it leaves none.
pub mod Steps
pub mod Yields
use infra_twin.Prelude.{Bool, Option, none, some, List, [], ◌∷◌}
use infra_twin.Db.CiRepository.{Written, written, refused, duplicate_key}

pub data Failure : Type 0 where
  value_error unique_violation : Failure
  merge_not_found merge_already_reversed unmerge_error : Failure
  candidate_not_found candidate_already_resolved candidate_error : Failure

pub data TxOutcome (S A : Type 0) : Type 0 where
  done : A → S → TxOutcome S A
  raised : Failure → TxOutcome S A

abbrev pub Tx : Type 0 → Type 0 → Type 0
Tx S A = S → TxOutcome S A

module _ {S A : Type 0} where
  abbrev pub pure : A → Tx S A
  pure a s = done a s

  abbrev pub raise : Failure → Tx S A
  raise e s = raised e

  abbrev pub gets : (S → A) → Tx S A
  gets f s = done (f s) s

  -- the rest of a block, after a statement
  abbrev pub and_rest : {B : Type 0} → TxOutcome S A → (A → Tx S B) → TxOutcome S B
  and_rest (done a s) f = f a s
  and_rest (raised e) f = raised e

infixl 5 ◌>>=◌ ◌>>◌
unfoldable pub ◌>>=◌ : {S A B : Type 0} → Tx S A → (A → Tx S B) → Tx S B
◌>>=◌ m f s = and_rest (m s) f

abbrev pub ◌>>◌ : {S A B : Type 0} → Tx S A → Tx S B → Tx S B
m >> k = m >>= λ _. k

abbrev pub modify : {S : Type 0} → (S → S) → Tx S Unit
modify f s = done tt (f s)

module _ {S X : Type 0} where
  -- a loop that carries a value
  unfoldable pub fold_tx : {A : Type 0} → (A → X → Tx S A) → A → List X → Tx S A
  fold_tx step a [] = pure a
  fold_tx step a (x ∷ xs) = step a x >>= λ b. fold_tx step b xs

-- a write to one table of the state
abbrev pub lift_written : {S A : Type 0} → (List A → S) → Written A → TxOutcome S A
lift_written put (written row table) = done row (put table)
lift_written put refused = raised value_error
lift_written put duplicate_key = raised unique_violation
