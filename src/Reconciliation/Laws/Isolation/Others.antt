-- ===== src/Reconciliation/Laws/Isolation/Others.antt =====
-- What the statements leave of the rows of other tenants.
use infra_twin.Prelude.{
  ℕ, ◌≡◌, inl, inr, Bool, true, false, not, String, List, [], ◌∷◌, map, select, select-append_no,
  select-map_rejected, ◌==◌, arith, refl, ◌∙◌, ap, Bool-cases, if◌then◌else◌,
}
use infra_twin.Model.{Ci, Edge}
use infra_twin.Db.CiRepository.{close_row, touch_row}
use infra_twin.Db.CiRepository.Writes.{CiWrites}
use infra_twin.Db.EdgeRepository.{close_edge_row}
use infra_twin.Db.EdgeRepository.Upsert.Writes.{EdgeWrites}
use infra_twin.Reconciliation.Tables.{AliasKey, insert_or_update, register_rows}

-- the rows of other tenants
abbrev pub others {ℓ} : {A : Type ℓ} → (A → ℕ) → ℕ → List A → List A
others owner tenant xs = select (λ r. not (owner r == tenant)) xs

-- A row of the tenant that takes the place of another or comes last.
pub others-insert_or_update :
    {A : Type 0} (owner : A → ℕ) (tenant : ℕ) (same_key : A → Bool) (row : A) (xs : List A)
    → owner row ≡ tenant
    → ((r : A) → same_key r ≡ true → owner r ≡ tenant)
    → others owner tenant (insert_or_update same_key row xs) ≡ others owner tenant xs
unfolding insert_or_update select
others-insert_or_update owner tenant same_key row [] own keyed =
    let mine : not (owner row == tenant) ≡ false = ground arith in rw (mine, select) refl
others-insert_or_update owner tenant same_key row (r ∷ xs) own keyed =
    let mine : not (owner row == tenant) ≡ false = ground arith in
    elim (Bool-cases (same_key r)) [
      | inl e ↦
          let its = keyed r e in
          let also : not (owner r == tenant) ≡ false = ground arith in
          rw (e, insert_or_update, mine, also, select) refl
      | inr e ↦ elim (Bool-cases (not (owner r == tenant))) [
        | inl o ↦
            rw (e, o, insert_or_update, select)
              (ap (◌∷◌ r) (others-insert_or_update owner tenant same_key row xs own keyed))
        | inr o ↦
            rw (e, o, insert_or_update, select)
              (others-insert_or_update owner tenant same_key row xs own keyed)
      ]
    ]

-- Changing only rows of the tenant, and not their tenant.
pub others-map :
    {A : Type 0} (owner : A → ℕ) (tenant : ℕ) (test : A → Bool) (g : A → A) (xs : List A)
    → ((r : A) → owner (g r) ≡ owner r)
    → ((r : A) → test r ≡ true → owner r ≡ tenant)
    → others owner tenant (map (λ r. if test r then g r else r) xs) ≡ others owner tenant xs
others-map owner tenant test g xs same own =
    select-map_rejected (λ r. not (owner r == tenant)) (λ r. if test r then g r else r)
      (λ r. elim (Bool-cases (test r)) [
        | inl e ↦ rw e (ap (λ o. not (o == tenant)) (same r))
        | inr e ↦ rw e refl
      ])
      (λ r h. elim (Bool-cases (test r)) [
        | inl e ↦ let its = own r e in absurd (ground arith)
        | inr e ↦ rw e refl
      ])
      xs

module _ {W J : Type 0} (tenant now : ℕ) where
  abbrev pub SameOthers : List (Ci W J) → List (Ci W J) → Type 0
  SameOthers before after =
      others (λ r. r.tenant_id) tenant after ≡ others (λ r. r.tenant_id) tenant before

  pub others-CiWrites : CiWrites tenant now SameOthers
  unfolding close_row touch_row
  others-CiWrites = record {
    same = λ xs. refl;
    then_also = λ xs ys zs h k. k ∙ h;
    closes = λ test own xs. others-map _ tenant test _ xs (λ r. refl) (λ r h. (own r h).0);
    touches = λ test own xs. others-map _ tenant test _ xs (λ r. refl) (λ r h. (own r h).0);
    appends = λ r own at_now xs. select-append_no _ xs r (ground arith);
  }

module _ {W : Type 0} (tenant now : ℕ) where
  abbrev pub SameOtherEdges : List (Edge W) → List (Edge W) → Type 0
  SameOtherEdges before after =
      others (λ r. r.tenant_id) tenant after ≡ others (λ r. r.tenant_id) tenant before

  pub others-EdgeWrites : EdgeWrites tenant now SameOtherEdges
  unfolding close_edge_row
  others-EdgeWrites = record {
    same = λ xs. refl;
    then_also = λ xs ys zs h k. k ∙ h;
    closes = λ test own xs. others-map _ tenant test _ xs (λ r. refl) (λ r h. (own r h).0);
    appends = λ r own at_now xs. select-append_no _ xs r (ground arith);
  }

pub others-register_rows :
    (tenant now : ℕ) (keys : List String) (ci_id : ℕ) (ci_type source : String)
    (rows : List AliasKey)
    → others (λ a. a.tenant_id) tenant (register_rows tenant now keys ci_id ci_type source rows)
      ≡ others (λ a. a.tenant_id) tenant rows
unfolding register_rows
others-register_rows tenant now [] ci_id ci_type source rows = refl
others-register_rows tenant now (k ∷ keys) ci_id ci_type source rows =
    others-register_rows tenant now keys ci_id ci_type source _
    ∙ others-insert_or_update (λ (a : AliasKey). a.tenant_id) tenant _ _ rows refl
        (λ r h. ground arith)
