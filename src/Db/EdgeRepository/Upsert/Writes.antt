-- ===== src/Db/EdgeRepository/Upsert/Writes.antt =====
-- A relation between the table before and after that closing and inserting keep is kept by the
-- repository's writes.
use infra_twin.Prelude.{
  ℕ, suc, ◌≡◌, inl, inr, Bool, true, String, List, [], ◌∷◌, ◌++◌, map, select, ◌==◌, ◌&&◌, arith,
  refl, subst, Bool-cases, Option-cases, List-cases,
}
use infra_twin.Prelude.Ints.{ℤ, pos, negsuc}
use infra_twin.Float.{Float}
use infra_twin.Confidence.{confidence_for_observations}
use infra_twin.Model.{Edge, EdgeType, is_inferred, Evidence}
use infra_twin.Db.{is_open}
use infra_twin.Db.Policies.{first_row}
use infra_twin.Db.CiRepository.{written}
use infra_twin.Db.EdgeRepository.{is_current_edge, close_edge_row, close_edge}
use infra_twin.Db.EdgeRepository.Upsert.{
  insert_edge, edge_version, close_version, first_evidence, next_evidence, prior_count,
  edge_changed, reobserve_with, reobserve, update_edge, upsert_with, upsert_edge,
}

abbrev pub IsOwnOpenEdge : {W : Type 0} → ℕ → (Edge W → Bool) → Type 0
IsOwnOpenEdge {W = W} tenant test =
    (r : Edge W) → test r ≡ true → (r.tenant_id ≡ tenant) × (is_open r.valid_to ≡ true)

pub record EdgeWrites {W : Type 0} (tenant now : ℕ) (Q : List (Edge W) → List (Edge W) → Type 0)
    : Type 0 where
  pub same : (xs : List (Edge W)) → Q xs xs
  pub then_also : (xs ys zs : List (Edge W)) → Q xs ys → Q ys zs → Q xs zs
  pub closes :
      (test : Edge W → Bool)
      → IsOwnOpenEdge tenant test
      → (xs : List (Edge W)) → Q xs (map (close_edge_row tenant now test) xs)
  pub appends :
      (r : Edge W)
      → r.tenant_id ≡ tenant
      → r.valid_from ≡ now
      → (xs : List (Edge W)) → Q xs (xs ++ r ∷ [])

module _ {W : Type 0} (tenant now : ℕ) (Q : List (Edge W) → List (Edge W) → Type 0)
    (writes : EdgeWrites tenant now Q) where
  pub close_edge-kept :
      (type : EdgeType) (from_id to_id : ℕ) (edge_key : String) (table : List (Edge W))
      → Q table (close_edge tenant now type from_id to_id edge_key table).1
  unfolding close_edge is_current_edge
  close_edge-kept type from_id to_id edge_key table =
      writes.closes (is_current_edge tenant type from_id to_id edge_key)
        (λ r h. (ground arith, ground arith)) table

module _ {W : Type 0} ⦃f : Float W⦄ (tenant now : ℕ) (Q : List (Edge W) → List (Edge W) → Type 0)
    (writes : EdgeWrites tenant now Q) where
  insert_edge-kept :
      (r : Edge W) (table : List (Edge W)) (out : Edge W) (after : List (Edge W))
      → r.tenant_id ≡ tenant
      → r.valid_from ≡ now
      → insert_edge r table ≡ written out after
      → Q table after
  unfolding insert_edge
  insert_edge-kept r table out after own at_now done =
      let appended : table ++ r ∷ [] ≡ after = ground arith in
      subst (Q table) appended (writes.appends r own at_now table)

  version-kept :
      (id i : ℕ) (c : W) (evidence : List Evidence) (edge : Edge W) (table : List (Edge W))
      (out : Edge W) (after : List (Edge W))
      → insert_edge (edge_version tenant now i c evidence edge) (close_version tenant now id table)
        ≡ written out after
      → Q table after
  unfolding edge_version close_version
  version-kept id i c evidence edge table out after done =
      writes.then_also table _ after
        (writes.closes (λ r. r.tenant_id == tenant && r.id == id && is_open r.valid_to)
          (λ r h. (ground arith, ground arith)) table)
        (insert_edge-kept (edge_version tenant now i c evidence edge)
          (close_version tenant now id table) out after refl refl done)

  reobserve-kept :
      (count : ℤ) (current edge : Edge W) (ev : Evidence) (more : List Evidence)
      (table : List (Edge W)) (out : Edge W) (after : List (Edge W))
      → reobserve tenant now count current edge ev more table ≡ written out after
      → Q table after
  unfolding reobserve reobserve_with
  reobserve-kept (negsuc n) current edge ev more table out after done = absurd cc
  reobserve-kept (pos n) current edge ev more table out after done =
      elim (Option-cases (confidence_for_observations {W = W} (suc n))) [
        | inl e ↦ let never = rw (e, reobserve) at done in absurd cc
        | inr (c, e) ↦
            version-kept current.id current.id c (next_evidence (suc n) current.evidence ev more)
              edge table out after (rw (e, reobserve) at done)
      ]

  update_edge-kept :
      (current edge : Edge W) (ev : Evidence) (more : List Evidence) (table : List (Edge W))
      (out : Edge W) (after : List (Edge W))
      → update_edge tenant now current edge ev more table ≡ written out after
      → Q table after
  unfolding update_edge
  update_edge-kept current edge ev more table out after done =
      elim (Bool-cases (is_inferred current.source && is_inferred edge.source)) [
        | inl e ↦
            reobserve-kept (prior_count current.evidence) current edge ev more table out after
              (rw (e, update_edge) at done)
        | inr e ↦ elim (Bool-cases (edge_changed current edge)) [
          | inl c ↦
              version-kept current.id current.id edge.confidence edge.evidence edge table out after
                (rw (e, c, update_edge) at done)
          | inr c ↦
              let d = rw (e, c, update_edge) at done in
              let same : table ≡ after = ground arith in subst (Q table) same (writes.same table)
        ]
      ]

  pub upsert_edge-kept :
      (edge : Edge W) (table : List (Edge W)) (out : Edge W) (after : List (Edge W))
      → upsert_edge tenant now edge table ≡ written out after
      → Q table after
  unfolding upsert_edge upsert_with edge_version
  upsert_edge-kept edge table out after done = elim (Bool-cases (edge.tenant_id == tenant)) [
    | inr e ↦ let never = rw (e, upsert_edge) at done in absurd cc
    | inl e ↦ elim (List-cases edge.evidence) [
      | inl g ↦ let never = rw (e, g, upsert_edge, upsert_with) at done in absurd cc
      | inr (ev, more, g) ↦
          elim (Option-cases (
            first_row (
              select (is_current_edge tenant edge.type edge.from_id edge.to_id edge.edge_key)
                table))) [
                  | inl h ↦
                      insert_edge-kept
                        (edge_version tenant now edge.id edge.confidence
                          (first_evidence edge.source ev more) edge)
                        table out after refl refl (rw (e, g, h, upsert_edge, upsert_with) at done)
                  | inr (current, h) ↦
                      update_edge-kept current edge ev more table out after
                        (rw (e, g, h, upsert_edge, upsert_with) at done)
                ]
    ]
  ]
