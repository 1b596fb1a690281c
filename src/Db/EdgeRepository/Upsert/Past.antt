-- ===== src/Db/EdgeRepository/Upsert/Past.antt =====
-- What the writes of edges leave of the past.
use infra_twin.Prelude.{
  ℕ, ◌<◌, ◌≡◌, inl, inr, Bool, true, false, none, String, List, [], ◌∷◌, ◌++◌, map,
  select-append_no, select-map_same, ◌==◌, ◌&&◌, arith, refl, ◌∙◌, ap, Bool-cases,
}
use infra_twin.Float.{Float}
use infra_twin.Model.{Edge, EdgeType}
use infra_twin.Db.{is_open}
use infra_twin.Db.CiRepository.{written, is_valid_at}
use infra_twin.Db.CiRepository.Past.{valid_same}
use infra_twin.Db.EdgeRepository.{edges_as_of, close_edge_row, close_edge}
use infra_twin.Db.EdgeRepository.Upsert.Writes.{EdgeWrites, close_edge-kept, upsert_edge-kept}
use infra_twin.Db.EdgeRepository.Upsert.{upsert_edge}

-- A row without the column that is updated in place.
abbrev pub edge_facts : {W : Type 0} → Edge W → Edge W
edge_facts r = record r { valid_to = none }

module _ {W : Type 0} (tenant now ts : ℕ) (past : ts < now) where
  abbrev edge_view : List (Edge W) → List (Edge W)
  edge_view table = map edge_facts (edges_as_of tenant ts table)

  edge_view-close :
      (test : Edge W → Bool)
      → ((r : Edge W) → test r ≡ true → is_open r.valid_to ≡ true)
      → (table : List (Edge W))
      → edge_view (map (close_edge_row tenant now test) table) ≡ edge_view table
  unfolding edges_as_of close_edge_row is_valid_at
  edge_view-close test opened table = select-map_same _ _ edge_facts same_p same_k table
    where
      same_p :
          (r : Edge W)
          → ((close_edge_row tenant now test r).tenant_id == tenant
              && is_valid_at ts
                  (close_edge_row tenant now test r).valid_from
                  (close_edge_row tenant now test r).valid_to)
            ≡ (r.tenant_id == tenant && is_valid_at ts r.valid_from r.valid_to)
      same_p r = elim (Bool-cases (test r)) [
        | inl e ↦
            rw (e, close_edge_row)
              (ap (λ (b : Bool). r.tenant_id == tenant && b)
                (valid_same now ts r.valid_from r.valid_to past (opened r e)))
        | inr e ↦ rw (e, close_edge_row) refl
      ]

      same_k : (r : Edge W) → edge_facts (close_edge_row tenant now test r) ≡ edge_facts r
      same_k r = elim (Bool-cases (test r)) [
        | inl e ↦ rw (e, close_edge_row) refl
        | inr e ↦ rw (e, close_edge_row) refl
      ]

  edge_view-append :
      (r : Edge W) (table : List (Edge W))
      → r.valid_from ≡ now
      → edge_view (table ++ r ∷ []) ≡ edge_view table
  unfolding edges_as_of is_valid_at
  edge_view-append r table at_now =
      ap (map edge_facts) (select-append_no _ table r (unseen r.valid_from at_now))
    where
      unseen :
          (from : ℕ)
          → from ≡ now
          → (r.tenant_id == tenant && is_valid_at ts from r.valid_to) ≡ false
      unseen from e = ground arith

  abbrev SameView : List (Edge W) → List (Edge W) → Type 0
  SameView before after = edge_view after ≡ edge_view before

  edge_view-EdgeWrites : EdgeWrites tenant now SameView
  edge_view-EdgeWrites = record {
    same = λ xs. refl;
    then_also = λ xs ys zs h k. k ∙ h;
    closes = λ test own xs. edge_view-close test (λ r h. (own r h).1) xs;
    appends = λ r own at_now xs. edge_view-append r xs at_now;
  }

module _ {W : Type 0} (tenant now ts : ℕ) (past : ts < now) where
  -- Closing an edge leaves what an earlier time sees, but for the column `valid_to`.
  pub close_edge_past :
      (type : EdgeType) (from_id to_id : ℕ) (edge_key : String) (table : List (Edge W))
      → map edge_facts
          (edges_as_of tenant ts (close_edge tenant now type from_id to_id edge_key table).1)
        ≡ map edge_facts (edges_as_of tenant ts table)
  close_edge_past = close_edge-kept tenant now _ (edge_view-EdgeWrites tenant now ts past)

module _ {W : Type 0} ⦃f : Float W⦄ (tenant now ts : ℕ) (past : ts < now) where
  -- A successful upsert of an edge leaves what an earlier time sees, but for the column
  -- `valid_to`: neither a new version nor a raised confidence rewrites a fact of the past.
  pub upsert_edge_past :
      (edge : Edge W) (table : List (Edge W)) (out : Edge W) (after : List (Edge W))
      → upsert_edge tenant now edge table ≡ written out after
      → map edge_facts (edges_as_of tenant ts after) ≡ map edge_facts (edges_as_of tenant ts table)
  upsert_edge_past = upsert_edge-kept tenant now _ (edge_view-EdgeWrites tenant now ts past)
