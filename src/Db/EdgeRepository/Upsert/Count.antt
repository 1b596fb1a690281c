-- ===== src/Db/EdgeRepository/Upsert/Count.antt =====
-- How the observations of an edge are counted.
use infra_twin.Prelude.{
  ℕ, zero, suc, ◌-◌, ◌≤◌, ◌≡◌, inl, inr, true, not, Option, none, some, String, List, [], ◌∷◌, ◌++◌,
  select, length, ◌==◌, arith, refl, sym, ◌∙◌, ap, subst, List-cases,
}
use infra_twin.Prelude.Ints.{ℤ, pos}
use infra_twin.Prelude.Decimal.{to_decimal, read_int-to_decimal}
use mathlib.Core.Option
use infra_twin.Float.{Float}
use infra_twin.Confidence.{confidence_for_observations}
use infra_twin.Model.{Edge, EdgeType, inferred, is_inferred, Evidence}
use infra_twin.Db.Policies.{first_row}
use infra_twin.Db.CiRepository.{written}
use infra_twin.Db.EdgeRepository.{is_current_edge}
use infra_twin.Db.EdgeRepository.Upsert.{
  evidence_window_cap, is_count_marker, count_marker, count_of_detail, prior_count, drop, last_of,
  combined_obs, edge_version, close_version, first_evidence, next_evidence, reobserve_with,
  reobserve, update_edge, upsert_with, upsert_edge, newest, last_time,
}
use infra_twin.Db.EdgeRepository.Upsert.Inserted.{Inserted, insert_edge-Inserted, found_next}

length-drop : {A : Type 0} (n : ℕ) (xs : List A) → length (drop n xs) ≡ length xs - n
unfolding drop
length-drop zero xs = omega arith
length-drop (suc n) [] = omega arith
length-drop (suc n) (x ∷ xs) = length-drop n xs ∙ omega arith

length-last_of : {A : Type 0} (n : ℕ) (xs : List A) → length (last_of n xs) ≤ n
unfolding last_of
length-last_of n xs = omega (arith, length-drop (length xs - n) xs)

printed_count : (n : ℕ) → count_of_detail (some (to_decimal n)) ≡ pos n
printed_count n =
    ap (λ (o : Option ℤ). elim o [ none ↦ pos 1 | some m ↦ m ]) (read_int-to_decimal n)

prior_count-marker :
    (n t : ℕ) (evidence : List Evidence) → prior_count (count_marker n t ∷ evidence) ≡ pos n
unfolding prior_count
prior_count-marker n t evidence = printed_count n

module _ {W : Type 0} ⦃f : Float W⦄ (tenant : ℕ) (type : EdgeType) (from_id to_id : ℕ)
    (edge_key : String) where
  -- An edge as an inferred edge of the pair.
  abbrev pub of_pair : Edge W → Edge W
  of_pair edge = record edge {
    tenant_id = tenant;
    type = type;
    from_id = from_id;
    to_id = to_id;
    edge_key = edge_key;
    source = inferred;
  }

  -- The tables after a number of successful upserts of inferred edges of the pair, of which the
  -- first found no open row. In between, other writes leave the open rows of the pair as they were.
  pub data Observed : ℕ → List (Edge W) → Type 0 where
    seen_first :
        (now : ℕ) (edge : Edge W) (table : List (Edge W)) (out : Edge W) (after : List (Edge W))
        → first_row (select (is_current_edge tenant type from_id to_id edge_key) table) ≡ none
        → upsert_edge tenant now (of_pair edge) table ≡ written out after
        → Observed 1 after
    seen_again :
        (n now : ℕ) (edge : Edge W) (table : List (Edge W)) (out : Edge W) (after : List (Edge W))
        → Observed n table
        → upsert_edge tenant now (of_pair edge) table ≡ written out after
        → Observed (suc n) after
    others_written :
        (n : ℕ) (table after : List (Edge W))
        → Observed n table
        → select (is_current_edge tenant type from_id to_id edge_key) after
          ≡ select (is_current_edge tenant type from_id to_id edge_key) table
        → Observed n after

  -- What the open row of the pair holds after a number of observations.
  pub record Counted (n : ℕ) (table : List (Edge W)) : Type 0 where
    pub row : Edge W
    pub found : select (is_current_edge tenant type from_id to_id edge_key) table ≡ row ∷ []
    pub inferred_row : is_inferred row.source ≡ true
    pub counted : prior_count row.evidence ≡ pos n

  -- What a re-observation adds to that.
  pub record Recounted (n : ℕ) (table : List (Edge W)) : Type 0 where
    pub state : Counted n table
    pub confidence : some state.row.confidence ≡ Option.map f.single (confidence_for_observations n)
    pub window : length state.row.evidence ≤ suc evidence_window_cap

  Inserted-Counted :
      (n now id t : ℕ) (c : W) (evidence : List Evidence) (edge : Edge W) (table : List (Edge W))
      (out : Edge W) (after : List (Edge W))
      → Inserted
          (edge_version tenant now id c (count_marker n t ∷ evidence) (of_pair edge))
          table
          out
          after
      → (k : Counted n after) × (k.row.confidence ≡ f.single c)
        × (k.row.evidence ≡ count_marker n t ∷ evidence)
  unfolding edge_version
  Inserted-Counted n now id t c evidence edge table out after ins =
      let row = edge_version tenant now id c (count_marker n t ∷ evidence) (of_pair edge) in
      (
        record {
          row = row;
          found = found_next row table out after refl ins ∙ ap (λ (x : Edge W). x ∷ []) ins.is_row;
          inferred_row = refl;
          counted = prior_count-marker n t evidence;
        },
        refl,
        refl,
      )

  first_count :
      (now : ℕ) (edge : Edge W) (table : List (Edge W)) (out : Edge W) (after : List (Edge W))
      → first_row (select (is_current_edge tenant type from_id to_id edge_key) table) ≡ none
      → upsert_edge tenant now (of_pair edge) table ≡ written out after
      → Counted 1 after
  unfolding upsert_edge upsert_with first_evidence
  first_count now edge table out after absent done =
      let same_tenant : (tenant == tenant) ≡ true = ground arith in
      elim (List-cases edge.evidence) [
        | inl g ↦ let never = rw (same_tenant, g, upsert_edge, upsert_with) at done in absurd cc
        | inr (ev, more, g) ↦
            (Inserted-Counted 1 now edge.id (newest ev.observed_at more) edge.confidence (ev ∷ more)
              edge table out after
              (insert_edge-Inserted _ table out after
                (rw (same_tenant, g, absent, upsert_edge, upsert_with) at done))).0
      ]

  recount :
      (n now : ℕ) (o : Option W) (current edge : Edge W) (ev : Evidence) (more : List Evidence)
      (table : List (Edge W)) (out : Edge W) (after : List (Edge W))
      → o ≡ confidence_for_observations n
      → reobserve_with tenant now n o current (of_pair edge) ev more table ≡ written out after
      → Recounted n after
  unfolding reobserve_with next_evidence combined_obs
  recount n now none current edge ev more table out after e done = absurd cc
  recount n now (some c) current edge ev more table out after e done =
      let obs = combined_obs current.evidence (ev ∷ more) in
      let (k, same_confidence, same_evidence) =
        Inserted-Counted n now current.id (last_time ev.observed_at obs) c obs edge
          (close_version tenant now current.id table) out after
          (insert_edge-Inserted _ (close_version tenant now current.id table) out after done) in
      record {
        state = k;
        confidence = ap some same_confidence ∙ ap (Option.map f.single) e;
        window =
            subst (λ (xs : List Evidence). length xs ≤ suc evidence_window_cap) (sym same_evidence)
              (omega (
                arith,
                length-last_of evidence_window_cap (
                    select (λ ev. not (is_count_marker ev)) current.evidence
                    ++ select (λ ev. not (is_count_marker ev)) (ev ∷ more)),
              ));
      }

  next_count :
      (n now : ℕ) (edge : Edge W) (table : List (Edge W)) (out : Edge W) (after : List (Edge W))
      → Counted n table
      → upsert_edge tenant now (of_pair edge) table ≡ written out after
      → Recounted (suc n) after
  unfolding upsert_edge upsert_with update_edge reobserve
  next_count n now edge table out after k done =
      let same_tenant : (tenant == tenant) ≡ true = ground arith in
      elim (List-cases edge.evidence) [
        | inl g ↦ let never = rw (same_tenant, g, upsert_edge, upsert_with) at done in absurd cc
        | inr (ev, more, g) ↦
            recount (suc n) now (confidence_for_observations (suc n)) k.row edge ev more table out
              after refl
              (rw
                (
                  same_tenant, g, k.found, k.inferred_row, k.counted, upsert_edge, upsert_with,
                  update_edge, reobserve,
                )
                at done)
      ]

  Counted-same :
      (n : ℕ) (table after : List (Edge W))
      → select (is_current_edge tenant type from_id to_id edge_key) after
        ≡ select (is_current_edge tenant type from_id to_id edge_key) table
      → Counted n table
      → Counted n after
  Counted-same n table after same k = record {
    row = k.row;
    found = same ∙ k.found;
    inferred_row = k.inferred_row;
    counted = k.counted;
  }

  pub Observed-Counted : (n : ℕ) (table : List (Edge W)) → Observed n table → Counted n table
  Observed-Counted _ _ (seen_first now edge before out after absent done) =
      first_count now edge before out after absent done
  Observed-Counted _ _ (seen_again m now edge before out after h done) =
      (next_count m now edge before out after (Observed-Counted m before h) done).state
  Observed-Counted n _ (others_written _ before after h same) =
      Counted-same n before after same (Observed-Counted n before h)

  -- After two or more successful upserts of inferred edges of one pair, of which the first found no
  -- open row, with any writes in between that leave the pair's open rows as they were: the pair has
  -- exactly one open row. Its count marker reads as the number of these upserts, its confidence is
  -- what the column holds of the curve's for that number, and it keeps at most twenty pieces of
  -- evidence behind the marker.
  pub Observed-Recounted :
      (n : ℕ) (table : List (Edge W)) → Observed (suc (suc n)) table → Recounted (suc (suc n)) table
  Observed-Recounted n _ (seen_again m now edge before out after h done) =
      next_count m now edge before out after (Observed-Counted m before h) done
  Observed-Recounted n _ (others_written _ before after h same) =
      let r = Observed-Recounted n before h in
      record {
        state = record {
          row = r.state.row;
          found = same ∙ r.state.found;
          inferred_row = r.state.inferred_row;
          counted = r.state.counted;
        };
        confidence = r.confidence;
        window = r.window;
      }
