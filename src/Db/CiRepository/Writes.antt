-- ===== src/Db/CiRepository/Writes.antt =====
-- A relation between the table before and after that closing, touching and inserting keep is kept by
-- the repository's writes.
use infra_twin.Prelude.{
  ℕ, ◌≡◌, inl, inr, Bool, true, String, List, [], ◌∷◌, ◌++◌, map, select, ◌==◌, arith, refl, subst,
  Bool-cases, Option-cases,
}
use infra_twin.Float.{Float}
use infra_twin.Model.{Ci, CiType}
use infra_twin.Db.{is_open}
use infra_twin.Db.Policies.{first_row}
use infra_twin.Db.CiRepository.{
  written, is_current, is_open_version, close_row, touch_row, close_ci, ci_changed, new_version,
  insert_row, update_ci, upsert_ci,
}

-- the open rows of the tenant are the only ones that a test may select
abbrev pub IsOwnOpen : {W J : Type 0} → ℕ → (Ci W J → Bool) → Type 0
IsOwnOpen {W = W} {J = J} tenant test =
    (r : Ci W J) → test r ≡ true → (r.tenant_id ≡ tenant) × (is_open r.valid_to ≡ true)

pub record CiWrites {W J : Type 0} (tenant now : ℕ) (Q : List (Ci W J) → List (Ci W J) → Type 0)
    : Type 0 where
  pub same : (xs : List (Ci W J)) → Q xs xs
  pub then_also : (xs ys zs : List (Ci W J)) → Q xs ys → Q ys zs → Q xs zs
  pub closes :
      (test : Ci W J → Bool)
      → IsOwnOpen tenant test
      → (xs : List (Ci W J)) → Q xs (map (close_row tenant now test) xs)
  pub touches :
      (test : Ci W J → Bool)
      → IsOwnOpen tenant test
      → (xs : List (Ci W J)) → Q xs (map (touch_row tenant now test) xs)
  pub appends :
      (r : Ci W J)
      → r.tenant_id ≡ tenant
      → r.valid_from ≡ now
      → (xs : List (Ci W J)) → Q xs (xs ++ r ∷ [])

module _ {W J : Type 0} (tenant now : ℕ) (Q : List (Ci W J) → List (Ci W J) → Type 0)
    (writes : CiWrites tenant now Q) where
  pub close_ci-kept :
      (type : CiType) (external_id : String) (table : List (Ci W J))
      → Q table (close_ci tenant now type external_id table).1
  unfolding close_ci is_current
  close_ci-kept type external_id table =
      writes.closes (is_current tenant type external_id) (λ r h. (ground arith, ground arith)) table

module _ {W J : Type 0} ⦃f : Float W⦄ (same_json : J → J → Bool) (tenant now : ℕ)
    (Q : List (Ci W J) → List (Ci W J) → Type 0) (writes : CiWrites tenant now Q) where
  insert_row-kept :
      (r : Ci W J) (table : List (Ci W J)) (out : Ci W J) (after : List (Ci W J))
      → r.tenant_id ≡ tenant
      → r.valid_from ≡ now
      → insert_row r table ≡ written out after
      → Q table after
  unfolding insert_row
  insert_row-kept r table out after own at_now done =
      let appended : table ++ r ∷ [] ≡ after = ground arith in
      subst (Q table) appended (writes.appends r own at_now table)

  own_version : (id : ℕ) → IsOwnOpen {W = W} {J = J} tenant (is_open_version tenant id)
  unfolding is_open_version
  own_version id r h = (ground arith, ground arith)

  pub upsert_ci-kept :
      (ci : Ci W J) (table : List (Ci W J)) (out : Ci W J) (after : List (Ci W J))
      → upsert_ci same_json tenant now ci table ≡ written out after
      → Q table after
  unfolding upsert_ci update_ci new_version
  upsert_ci-kept ci table out after done = elim (Bool-cases (ci.tenant_id == tenant)) [
    | inr e ↦ let never = rw (e, upsert_ci) at done in absurd cc
    | inl e ↦
        elim (Option-cases (first_row (select (is_current tenant ci.type ci.external_id) table))) [
          | inl g ↦ insert_row-kept _ table out after refl refl (rw (e, g, upsert_ci) at done)
          | inr (current, g) ↦ elim (Bool-cases (ci_changed same_json current ci)) [
            | inl c ↦
                writes.then_also table _ after
                  (writes.closes (is_open_version tenant current.id) (own_version current.id) table)
                  (insert_row-kept _ _ out after refl refl
                    (rw (e, g, c, upsert_ci, update_ci) at done))
            | inr c ↦
                let touched : map (touch_row tenant now (is_open_version tenant current.id)) table
                    ≡ after =
                  let d = rw (e, g, c, upsert_ci, update_ci) at done in ground arith in
                subst (Q table) touched (
                  writes.touches (is_open_version tenant current.id) (own_version current.id) table)
          ]
        ]
  ]
