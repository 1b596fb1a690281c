-- ===== src/Db/EdgeRepository/Upsert/Succeeds.antt =====
-- What the next observation of an edge does.
use infra_twin.Prelude.{
  ℕ, suc, ◌≡◌, inl, inr, Bool, true, false, none, some, String, List, [], ◌∷◌, ◌++◌, Memᴰ,
  no_members, map, select, mem-select, mem-map, ◌==◌, ◌&&◌, arith, refl, sym, ap, ◌∙◌, ◌⊎◌, subst,
  Bool-cases, Option-cases,
}
use mathlib.Core.List.Memᴰ
use infra_twin.Float.{Float}
use infra_twin.Confidence.{confidence_for_observations}
use infra_twin.Model.{Edge, EdgeType, Evidence}
use infra_twin.Db.{is_open}
use infra_twin.Db.CiRepository.{written, duplicate_key, has_key}
use infra_twin.Db.EdgeRepository.{is_current_edge, close_edge_row}
use infra_twin.Db.EdgeRepository.Upsert.{
  insert_edge, edge_version, close_version, next_evidence, reobserve_with, reobserve, update_edge,
  upsert_with, upsert_edge,
}
use infra_twin.Db.EdgeRepository.Upsert.Count.{of_pair, Observed, Observed-Counted}

module _ {W : Type 0} (tenant now : ℕ) where
  -- A key that is taken is that of a row.
  taken_key :
      (id : ℕ) (table : List (Edge W))
      → has_key (λ r. r.id) (λ r. r.valid_from) id now table ≡ true
      → (r : Edge W) × Memᴰ r table × (r.id ≡ id) × (r.valid_from ≡ now)
  unfolding has_key
  taken_key id [] h = absurd cc
  taken_key id (r ∷ table) h = elim (Bool-cases (r.id == id && r.valid_from == now)) [
    | inl e ↦ (r, Memᴰ.head refl, ground arith, ground arith)
    | inr e ↦ let (s, m, p, q) = taken_key id table (rw (e, has_key) at h) in (s, Memᴰ.tail m, p, q)
  ]

  -- Closing rows changes no key.
  taken_before :
      (test : Edge W → Bool) (id : ℕ) (table : List (Edge W))
      → has_key (λ r. r.id) (λ r. r.valid_from) id now (map (close_edge_row tenant now test) table)
        ≡ true
      → (r : Edge W) × Memᴰ r table × (r.id ≡ id) × (r.valid_from ≡ now)
  unfolding close_edge_row
  taken_before test id table h =
      let (r, m, p, q) = taken_key id (map (close_edge_row tenant now test) table) h in
      let (s, i, e) = (mem-map (close_edge_row tenant now test) table r).0 m in
      elim (Bool-cases (test s)) [
        | inl t ↦
            let same : r ≡ record s { valid_to = some now } = e ∙ rw (t, close_edge_row) refl in
            (
              s,
              i,
              sym (ap (λ (x : Edge W). x.id) same) ∙ p,
              sym (ap (λ (x : Edge W). x.valid_from) same) ∙ q,
            )
        | inr t ↦
            let same : r ≡ s = e ∙ rw (t, close_edge_row) refl in
            (
              s,
              i,
              sym (ap (λ (x : Edge W). x.id) same) ∙ p,
              sym (ap (λ (x : Edge W). x.valid_from) same) ∙ q,
            )
      ]

  -- A row that is still open after an entity was closed was open before, and of another entity.
  still_open :
      (id : ℕ) (type : EdgeType) (from_id to_id : ℕ) (edge_key : String) (r : Edge W)
      → is_current_edge tenant type from_id to_id edge_key (
          close_edge_row tenant now
            (λ r. r.tenant_id == tenant && r.id == id && is_open r.valid_to)
            r)
        ≡ true
      → (is_current_edge tenant type from_id to_id edge_key r ≡ true) × ((r.id == id) ≡ false)
  unfolding is_current_edge close_edge_row
  still_open id type from_id to_id edge_key r h = ground arith

  -- Closing the one open row of a pair leaves none.
  none_open :
      (type : EdgeType) (from_id to_id : ℕ) (edge_key : String) (table : List (Edge W))
      (current : Edge W)
      → select (is_current_edge tenant type from_id to_id edge_key) table ≡ current ∷ []
      → select
          (is_current_edge tenant type from_id to_id edge_key)
          (close_version tenant now current.id table)
        ≡ []
  unfolding close_version
  none_open type from_id to_id edge_key table current found = no_members _ λ a m.
      let test = is_current_edge tenant type from_id to_id edge_key in
      let (i, t) = (mem-select test (close_version tenant now current.id table) a).0 m in
      let (s, j, e) = (mem-map _ table a).0 i in
      let (was, other) =
        still_open current.id type from_id to_id edge_key s
          (subst (λ (x : Edge W). test x ≡ true) e t) in
      let is_current_row : s ≡ current =
        Memᴰ.eq_of_singleton (subst (Memᴰ s) found ((mem-select test table s).1 (j, was))) in
      absurd (same_id s current is_current_row other)
    where
      same_id : (s c : Edge W) → s ≡ c → (s.id == c.id) ≡ false → ⊥
      same_id s c e h = let ids : s.id ≡ c.id = ap (λ (x : Edge W). x.id) e in ground arith

has_confidence :
    {W : Type 0} ⦃f : Float W⦄ (n : ℕ) → confidence_for_observations {W = W} (suc n) ≡ none → ⊥
unfolding confidence_for_observations
has_confidence n h = cc

module _ {W : Type 0} ⦃f : Float W⦄ (tenant : ℕ) (type : EdgeType) (from_id to_id : ℕ)
    (edge_key : String) where
  -- What the next upsert of the pair does: it writes a version, or a version of the same edge was
  -- opened at this very time and the primary key is met.
  abbrev pub NextOutcome : ℕ → Edge W → List (Edge W) → Type 0
  NextOutcome now edge table =
      let next = upsert_edge tenant now (of_pair tenant type from_id to_id edge_key edge) table in
      ((out : Edge W) × (after : List (Edge W)) × (next ≡ written out after))
      ⊎ ((next ≡ duplicate_key)
          × ((current : Edge W) × (r : Edge W) × (select
                  (is_current_edge tenant type from_id to_id edge_key) table
                ≡ current ∷ [])
              × Memᴰ r table
              × (r.id ≡ current.id)
              × (r.valid_from ≡ now)))

  -- After successful upserts of inferred edges of one pair, of which the first found no open row,
  -- with any writes in between that leave the pair's open rows as they were: the upsert of another
  -- inferred edge of the pair with evidence writes a version, unless a version of the edge was
  -- opened at the same time, in which case it fails with the violation of the primary key.
  pub Observed-outcome :
      (n now : ℕ) (edge : Edge W) (ev : Evidence) (more : List Evidence) (table : List (Edge W))
      → Observed tenant type from_id to_id edge_key n table
      → edge.evidence ≡ ev ∷ more
      → NextOutcome now edge table
  unfolding upsert_edge upsert_with update_edge reobserve reobserve_with insert_edge edge_version
      close_version
  Observed-outcome n now edge ev more table h has_evidence =
      let k = Observed-Counted tenant type from_id to_id edge_key n table h in
      let same_tenant : (tenant == tenant) ≡ true = ground arith in
      let closed = none_open tenant now type from_id to_id edge_key table k.row k.found in
      elim (Option-cases (confidence_for_observations {W = W} (suc n))) [
        | inl none_c ↦ absurd (has_confidence n none_c)
        | inr (c, has_c) ↦
            elim (Bool-cases (
              has_key (λ r. r.id) (λ r. r.valid_from) k.row.id now
                (close_version tenant now k.row.id table))) [
                  | inl taken ↦
                      let (r, m, p, q) = taken_before tenant now _ k.row.id table taken in
                      inr (
                        rw
                            (
                              same_tenant, has_evidence, k.found, k.inferred_row, k.counted, has_c,
                              taken, upsert_edge, upsert_with, update_edge, reobserve,
                              reobserve_with, insert_edge,
                            )
                            refl,
                        (k.row, r, k.found, m, p, q),
                      )
                  | inr fresh ↦
                      let row =
                        edge_version tenant now k.row.id c
                          (next_evidence (suc n) k.row.evidence ev more)
                          (of_pair tenant type from_id to_id edge_key edge) in
                      inl (
                        row,
                        close_version tenant now k.row.id table ++ row ∷ [],
                        rw
                            (
                              same_tenant, has_evidence, k.found, k.inferred_row, k.counted, has_c,
                              fresh, closed, upsert_edge, upsert_with, update_edge, reobserve,
                              reobserve_with, insert_edge,
                            )
                            refl,
                      )
                ]
      ]
