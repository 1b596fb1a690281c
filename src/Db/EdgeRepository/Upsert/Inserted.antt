-- ===== src/Db/EdgeRepository/Upsert/Inserted.antt =====
-- What an insertion of an edge that succeeds did.
use infra_twin.Prelude.{
  ◌≡◌, inl, inr, true, false, List, [], ◌∷◌, ◌++◌, select, arith, refl, ◌∙◌, ap, Bool-cases,
  text_eq_refl, select-append,
}
use infra_twin.Model.{Edge}
use infra_twin.Db.{is_open}
use infra_twin.Db.Policies.{first_row}
use infra_twin.Db.CiRepository.{written, is_some, has_key}
use infra_twin.Db.EdgeRepository.{is_current_edge}
use infra_twin.Db.EdgeRepository.Upsert.{insert_edge}

pub no_row : {A : Type 0} (xs : List A) → is_some (first_row xs) ≡ false → xs ≡ []
no_row [] h = refl
no_row (x ∷ xs) h = cc

module _ {W : Type 0} where
  -- What an insertion that succeeds did.
  pub record Inserted (r : Edge W) (table : List (Edge W)) (out : Edge W) (after : List (Edge W))
      : Type 0 where
    pub is_row : out ≡ r
    pub appended : after ≡ table ++ r ∷ []
    pub no_other :
        select (is_current_edge r.tenant_id r.type r.from_id r.to_id r.edge_key) table ≡ []

  pub insert_edge-Inserted :
      (r : Edge W) (table : List (Edge W)) (out : Edge W) (after : List (Edge W))
      → insert_edge r table ≡ written out after
      → Inserted r table out after
  unfolding insert_edge
  insert_edge-Inserted r table out after done =
      elim (Bool-cases (has_key (λ r. r.id) (λ r. r.valid_from) r.id r.valid_from table)) [
        | inl e ↦ let never = rw (e, insert_edge) at done in absurd cc
        | inr e ↦
            elim (Bool-cases (
              is_some (
                first_row (
                  select (is_current_edge r.tenant_id r.type r.from_id r.to_id r.edge_key)
                    table)))) [
                      | inl g ↦ let never = rw (e, g, insert_edge) at done in absurd cc
                      | inr g ↦
                          let d = rw (e, g, insert_edge) at done in
                          record {
                            is_row = ground arith;
                            appended = ground arith;
                            no_other = no_row _ g;
                          }
                    ]
      ]

  open_row :
      (r : Edge W)
      → is_open r.valid_to ≡ true
      → is_current_edge r.tenant_id r.type r.from_id r.to_id r.edge_key r ≡ true
  unfolding is_current_edge
  open_row r o = ground (arith, text_eq_refl r.edge_key)

  -- The row of an insertion is the one that the next upsert of its pair finds.
  pub found_next :
      (r : Edge W) (table : List (Edge W)) (out : Edge W) (after : List (Edge W))
      → is_open r.valid_to ≡ true
      → Inserted r table out after
      → select (is_current_edge r.tenant_id r.type r.from_id r.to_id r.edge_key) after ≡ out ∷ []
  unfolding select
  found_next r table out after o ins =
      let test = is_current_edge r.tenant_id r.type r.from_id r.to_id r.edge_key in
      ap (select test) ins.appended
      ∙ select-append test table (r ∷ [])
      ∙ ap (λ (xs : List (Edge W)). xs ++ select test (r ∷ [])) ins.no_other
      ∙ rw (open_row r o, ins.is_row, select) refl
