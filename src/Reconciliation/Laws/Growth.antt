-- ===== src/Reconciliation/Laws/Growth.antt =====
-- What a reconciliation never takes away.
use infra_twin.Prelude.{
  ℕ, ◌≡◌, ◌⊎◌, inl, inr, Bool, true, List, [], ◌∷◌, ◌++◌, map, Memᴰ, mem-map, Memᴰ-snoc, ⊎_elim,
  refl, sym, ◌∙◌, ap, subst, Bool-cases, if◌then◌else◌,
}
use mathlib.Core.List.{append-nil, append_assoc}
use infra_twin.Float.{Float}
use infra_twin.Model.{Ci, Edge}
use infra_twin.Db.{is_open}
use infra_twin.Db.CiRepository.{close_row, touch_row}
use infra_twin.Db.CiRepository.Past.{facts}
use infra_twin.Db.CiRepository.Writes.{CiWrites, close_ci-kept, upsert_ci-kept}
use infra_twin.Db.EdgeRepository.{close_edge_row}
use infra_twin.Db.EdgeRepository.Upsert.Past.{edge_facts}
use infra_twin.Db.EdgeRepository.Upsert.Writes.{EdgeWrites, close_edge-kept, upsert_edge-kept}
use infra_twin.Db.Tx.Steps.{Preorder}
use infra_twin.Reconciliation.Tables.{
  Tables, CiMerge, draw_id, move_source_keys, move_alias_keys, write_unmerge, write_ci, write_edge,
  end_ci, end_edge, bind_source_key, register_alias_keys, record_merge, write_graph, write_runs,
  write_facts,
}
use infra_twin.Reconciliation.Laws.{TableLaws, RunLaws, MergeLaws}
use infra_twin.Reconciliation.Laws.Past.{Steps-done, Steps-written}

-- Every row is still there, with its facts; a row that was closed is there as it was.
module _ {A : Type 0} (facts_of : A → A) (open_row : A → Bool) where
  abbrev pub StillThere : A → List A → Type 0
  StillThere r ys =
      (k : A) × Memᴰ k ys × (facts_of k ≡ facts_of r) × ((k ≡ r) ⊎ (open_row r ≡ true))

  abbrev pub NoneLost : List A → List A → Type 0
  NoneLost xs ys = (r : A) → Memᴰ r xs → StillThere r ys

  there_same : (xs : List A) → NoneLost xs xs
  there_same xs r m = (r, m, refl, inl refl)

  there_append : (x : A) (xs : List A) → NoneLost xs (xs ++ x ∷ [])
  there_append x xs r m = (r, (Memᴰ-snoc r x xs).1 (inl m), refl, inl refl)

  there_later : (ys zs : List A) (r : A) → StillThere r ys → NoneLost ys zs → StillThere r zs
  there_later ys zs r (k, m, e, inl same) h =
      let (j, i, g, s) = h k m in
      (j, i, g ∙ e, ⊎_elim (λ a. inl (a ∙ same)) (λ o. inr (ap open_row (sym same) ∙ o)) s)
  there_later ys zs r (k, m, e, inr o) h = let (j, i, g, s) = h k m in (j, i, g ∙ e, inr o)

  there_map :
      (test : A → Bool) (g : A → A) (xs : List A)
      → ((r : A) → facts_of (g r) ≡ facts_of r)
      → ((r : A) → test r ≡ true → open_row r ≡ true)
      → NoneLost xs (map (λ r. if test r then g r else r) xs)
  there_map test g xs same opened r m = elim (Bool-cases (test r)) [
    | inl e ↦ (g r, (mem-map _ xs (g r)).1 (r, m, rw e refl), same r, inr (opened r e))
    | inr e ↦ (r, (mem-map _ xs r).1 (r, m, rw e refl), refl, inl refl)
  ]

module _ {W J : Type 0} (tenant now : ℕ) where
  abbrev AllCisThere : List (Ci W J) → List (Ci W J) → Type 0
  AllCisThere = NoneLost facts (λ r. is_open r.valid_to)

  growing-CiWrites : CiWrites tenant now AllCisThere
  unfolding close_row touch_row
  growing-CiWrites = record {
    same = there_same _ _;
    then_also = λ xs ys zs h k r m. there_later _ _ ys zs r (h r m) k;
    closes = λ test own xs. there_map _ _ test _ xs (λ r. refl) (λ r h. (own r h).1);
    touches = λ test own xs. there_map _ _ test _ xs (λ r. refl) (λ r h. (own r h).1);
    appends = λ r own at_now xs. there_append _ _ r xs;
  }

module _ {W : Type 0} (tenant now : ℕ) where
  abbrev AllEdgesThere : List (Edge W) → List (Edge W) → Type 0
  AllEdgesThere = NoneLost edge_facts (λ r. is_open r.valid_to)

  growing-EdgeWrites : EdgeWrites tenant now AllEdgesThere
  unfolding close_edge_row
  growing-EdgeWrites = record {
    same = there_same _ _;
    then_also = λ xs ys zs h k r m. there_later _ _ ys zs r (h r m) k;
    closes = λ test own xs. there_map _ _ test _ xs (λ r. refl) (λ r h. (own r h).1);
    appends = λ r own at_now xs. there_append _ _ r xs;
  }

module _ {W J : Type 0} where
  -- No row of the CIs or the edges is lost or rewritten, and the merges are only appended to.
  pub record Grown (s t : Tables W J) : Type 0 where
    pub cis_there : NoneLost facts (λ r. is_open r.valid_to) s.cis t.cis
    pub edges_there : NoneLost edge_facts (λ r. is_open r.valid_to) s.edges t.edges
    pub merges_there : (more : List (CiMerge W)) × (t.merges ≡ s.merges ++ more)

  grown :
      (s : Tables W J) (cis : List (Ci W J)) (edges : List (Edge W))
      → NoneLost facts (λ r. is_open r.valid_to) s.cis cis
      → NoneLost edge_facts (λ r. is_open r.valid_to) s.edges edges
      → (t : Tables W J) → t.cis ≡ cis
      → t.edges ≡ edges
      → t.merges ≡ s.merges
      → Grown s t
  grown s cis edges h k t c e m = record {
    cis_there =
        subst (λ (x : List (Ci W J)). NoneLost facts (λ r. is_open r.valid_to) s.cis x) (sym c) h;
    edges_there =
        subst (λ (x : List (Edge W)). NoneLost edge_facts (λ r. is_open r.valid_to) s.edges x)
          (sym e) k;
    merges_there = ([], m ∙ sym (append-nil s.merges));
  }

  pub same_tables :
      (s t : Tables W J) → t.cis ≡ s.cis → t.edges ≡ s.edges → t.merges ≡ s.merges → Grown s t
  same_tables s t c e m =
      grown s s.cis s.edges (there_same _ _ s.cis) (there_same _ _ s.edges) t c e m

  pub Grown-Preorder : Preorder Grown
  Grown-Preorder = record {
    same = λ s. same_tables s s refl refl refl;
    then_also = λ s t u h k. record {
      cis_there = λ r m. there_later _ _ t.cis u.cis r (h.cis_there r m) k.cis_there;
      edges_there = λ r m. there_later _ _ t.edges u.edges r (h.edges_there r m) k.edges_there;
      merges_there =
          let (a, p) = h.merges_there in
          let (b, q) = k.merges_there in
          (a ++ b, q ∙ ap (λ (x : List (CiMerge W)). x ++ b) p ∙ append_assoc s.merges a b);
    };
  }

module _ {W J : Type 0} (tenant now : ℕ) where
  pub Grown-TableLaws :
      ⦃f : Float W⦄ (same_json : J → J → Bool) (draw : ℕ → ℕ)
      → TableLaws same_json draw tenant now (Grown {W = W} {J = J})
  unfolding draw_id write_ci write_edge end_ci end_edge bind_source_key register_alias_keys
      record_merge write_graph
  Grown-TableLaws same_json draw = record {
    preorder = Grown-Preorder;
    draws = Steps-done _ _ λ s. same_tables s _ refl refl refl;
    writes_ci = λ ci. Steps-written _ _ λ s out cis e.
        grown s cis s.edges
          (upsert_ci-kept same_json tenant now _ (growing-CiWrites tenant now) ci s.cis out cis e)
          (there_same _ _ s.edges) _ refl refl refl;
    writes_edge = λ edge. Steps-written _ _ λ s out edges e.
        grown s s.cis edges (there_same _ _ s.cis)
          (upsert_edge-kept tenant now _ (growing-EdgeWrites tenant now) edge s.edges out edges e) _
          refl refl refl;
    ends_ci = λ ci_type external_id. Steps-done _ _ λ s.
        grown s _ s.edges
          (close_ci-kept tenant now _ (growing-CiWrites tenant now) ci_type external_id s.cis)
          (there_same _ _ s.edges) _ refl refl refl;
    ends_edge = λ edge_type from_id to_id key. Steps-done _ _ λ s.
        grown s s.cis _ (there_same _ _ s.cis)
          (close_edge-kept tenant now _ (growing-EdgeWrites tenant now) edge_type from_id to_id key
            s.edges)
          _ refl refl refl;
    binds = λ source native_id id. Steps-done _ _ λ s. same_tables s _ refl refl refl;
    registers = λ keys id ci_type source. Steps-done _ _ λ s. same_tables s _ refl refl refl;
    merges = λ id source external_id key evidence. Steps-done _ _ λ s. record {
      cis_there = there_same _ _ s.cis;
      edges_there = there_same _ _ s.edges;
      merges_there = (_, refl);
    };
    projects = λ cis edges closed closed_edges. Steps-done _ _ λ s. same_tables s _ refl refl refl;
  }

module _ {W J : Type 0} where
  pub Grown-RunLaws : RunLaws (Grown {W = W} {J = J})
  unfolding write_runs write_facts
  Grown-RunLaws = record {
    runs = λ change. Steps-done _ _ λ s. same_tables s _ refl refl refl;
    facts = λ change. Steps-done _ _ λ s. same_tables s _ refl refl refl;
  }

module _ {W J : Type 0} (tenant now : ℕ) where
  pub Grown-MergeLaws : MergeLaws tenant now (Grown {W = W} {J = J})
  unfolding move_source_keys move_alias_keys write_unmerge
  Grown-MergeLaws = record {
    moves_source_keys = λ test id. Steps-done _ _ λ s. same_tables s _ refl refl refl;
    moves_alias_keys = λ test id. Steps-done _ _ λ s. same_tables s _ refl refl refl;
    unmerges = λ row. Steps-done _ _ λ s. same_tables s _ refl refl refl;
  }
