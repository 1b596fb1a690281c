-- ===== src/Query/Blast/Reach.antt =====
-- What `blast_radius` reports.
use infra_twin.Prelude.{
  ℕ, ◌≤◌, ◌<◌, ◌≡◌, ◌↔◌, List, [], ◌∷◌, Option, none, some, Memᴰ, String, get, gather, mem-gather,
  mem-map, arith, keys, mem-keys, refl, subst, sym, ◌∙◌, ap,
}
use infra_twin.Prelude.Sort.{sort, mem-sort}
use infra_twin.Model.{Ci, CiType}
use infra_twin.Float.{Float}
use infra_twin.Db.{Conn, current_cis, dict_of, any_of}
use infra_twin.Db.Rows.{mem-current_cis, dict_of_sound, dict_of-select, any_of-mem}
use infra_twin.Query.Bfs.{Search}
use infra_twin.Query.Bfs.Walk.{Chain, Distance, Shortest-iff-Distance, Chain-of_Walk}
use infra_twin.Query.Bfs.Result.{discovered-raw, discovered_sound}
use infra_twin.Query.Blast.{
  BlastRadius, ImpactedCi, impact_neighbors, unlabelled, details_of, impacted_entry, resolve,
  blast_search, blast_radius, by_distance,
}
use infra_twin.Query.Blast.Impact.{Impacts, mem-impact_neighbors}

module _ {W J : Type 0} (conn : Conn W J) where
  -- The type and name of a current CI, `none` if there is no such CI.
  abbrev pub current_detail : ℕ → Option (CiType × Option String)
  current_detail n = get (dict_of (λ r. r.id) (λ r. (r.type, r.name)) (current_cis conn)) n

  -- A detail comes from an open row of the session's tenant.
  pub current_detail_sound :
      (n : ℕ) (t : CiType) (name : Option String)
      → current_detail n ≡ some (t, name)
      → (r : Ci W J) × Memᴰ r conn.cis
        × (r.tenant_id ≡ conn.tenant)
        × (r.valid_to ≡ none)
        × (r.id ≡ n)
        × (r.type ≡ t)
        × (r.name ≡ name)
  current_detail_sound n t name e =
      let (r, i, k, v) =
        dict_of_sound (λ (r : Ci W J). r.id) (λ (r : Ci W J). (r.type, r.name)) (current_cis conn) n
          (t, name) e in
      let (j, own, open_row) = (mem-current_cis conn r).0 i in
      (
        r,
        j,
        own,
        open_row,
        k,
        ap (λ (p : CiType × Option String). p.0) v,
        ap (λ (p : CiType × Option String). p.1) v,
      )

  pub details-current :
      (ids : List ℕ) (n : ℕ) → Memᴰ n ids → get (details_of conn ids) n ≡ current_detail n
  unfolding details_of
  details-current ids n m =
      dict_of-select (λ (r : Ci W J). r.id) (λ (r : Ci W J). (r.type, r.name))
        (λ (r : Ci W J). any_of ids r.id) (current_cis conn) n (λ r e. rw e (any_of-mem ids n m))

  entry_iff :
      (ids : List ℕ) (n d : ℕ) (i : ImpactedCi)
      → Memᴰ n ids
      → (impacted_entry (details_of conn ids) (n, d) ≡ some i)
        ↔ ((i.id ≡ n) × (i.distance ≡ d) × (current_detail n ≡ some (i.type, i.name)))
  unfolding impacted_entry
  entry_iff ids n d i m = rw (details-current ids n m, impacted_entry) (ground arith)

  -- The loop that resolves the discovered nodes.
  pub mem-resolved :
      (discovered : List (ℕ × ℕ)) (i : ImpactedCi)
      → Memᴰ i (
          sort by_distance (gather (impacted_entry (details_of conn (keys discovered))) discovered))
        ↔ (Memᴰ (i.id, i.distance) discovered × (current_detail i.id ≡ some (i.type, i.name)))
  mem-resolved discovered i =
      let ids = keys discovered in
      let entries = gather (impacted_entry (details_of conn ids)) discovered in
      (
        λ m.
            let ((n, d), found, e) =
              (mem-gather _ discovered i).0 ((mem-sort by_distance i entries).0 m) in
            let (a, b, c) = (entry_iff ids n d i ((mem-keys n discovered).1 (d, found))).0 e in
            (rw (a, b) found, rw a c),
        λ m. (mem-sort by_distance i entries).1 (
            (mem-gather _ discovered i).1 (
              (i.id, i.distance),
              m.0,
              (entry_iff ids i.id i.distance i ((mem-keys i.id discovered).1 (i.distance, m.0))).1
                  (refl, refl, m.1),
            )),
      )

  resolve-impacted :
      (result : BlastRadius) (discovered : List (ℕ × ℕ))
      → result.impacted ≡ []
      → (resolve conn result discovered).impacted
        ≡ sort by_distance (gather (impacted_entry (details_of conn (keys discovered))) discovered)
  unfolding resolve gather sort
  resolve-impacted result [] e = e
  resolve-impacted result (x ∷ rest) e = refl

  resolve-supernodes :
      (result : BlastRadius) (discovered : List (ℕ × ℕ))
      → (resolve conn result discovered).truncated_supernodes ≡ result.truncated_supernodes
  unfolding resolve
  resolve-supernodes result [] = refl
  resolve-supernodes result (x ∷ rest) = refl

pub mem-unlabelled : (xs : List ℕ) (n : ℕ) → Memᴰ (n, tt) (unlabelled xs) ↔ Memᴰ n xs
mem-unlabelled xs n = (
  λ m.
      let (k, i, e) = (mem-map (λ k. (k, tt)) xs (n, tt)).0 m in
      subst (λ z. Memᴰ z xs) (sym (ap (λ (p : ℕ × Unit {0}). p.0) e)) i,
  λ m. (mem-map (λ k. (k, tt)) xs (n, tt)).1 (n, m, refl),
)

-- The sort key decides by the distance first.
module _ {W J : Type 0} ⦃f : Float W⦄ (conn : Conn W J) (tenant_id source max_depth : ℕ) (min : W)
    (max_fanout : ℕ) where
  abbrev found : Search (Unit {0})
  found = blast_search conn tenant_id source max_depth min max_fanout

  abbrev report : BlastRadius
  report = blast_radius conn tenant_id source max_depth min max_fanout

  report-impacted :
      report.impacted
      ≡ sort by_distance
          (gather (impacted_entry (details_of conn (keys found.discovered))) found.discovered)
  unfolding blast_radius
  report-impacted = resolve-impacted conn _ found.discovered refl

  report-supernodes : report.truncated_supernodes ≡ found.supernodes
  unfolding blast_radius
  report-supernodes = resolve-supernodes conn _ found.discovered

  agree :
      (a b : ℕ)
      → ((l : Unit {0}) × Memᴰ (b, l) (unlabelled (impact_neighbors conn tenant_id a min)))
        ↔ Impacts conn tenant_id min a b
  agree a b =
      let m = mem-unlabelled (impact_neighbors conn tenant_id a min) b in
      let n = mem-impact_neighbors conn tenant_id min a b in
      (λ h. n.0 (m.0 h.1), λ h. (tt, m.1 (n.1 h)))

  -- Every reported CI is a current CI of the session's tenant with a path of impact from the
  -- source of as many steps as its distance, which lies between 1 and `max_depth`.
  pub blast_radius_sound :
      (i : ImpactedCi)
      → Memᴰ i report.impacted
      → Chain (Impacts conn tenant_id min) source i.id i.distance
        × (0 < i.distance)
        × (i.distance ≤ max_depth)
        × ((r : Ci W J) × Memᴰ r conn.cis
            × (r.tenant_id ≡ conn.tenant)
            × (r.valid_to ≡ none)
            × (r.id ≡ i.id)
            × (r.type ≡ i.type)
            × (r.name ≡ i.name))
  unfolding blast_search
  blast_radius_sound i m =
      let (d, e) = (mem-resolved conn found.discovered i).0 (subst (Memᴰ i) report-impacted m) in
      let (w, pos, le) = discovered_sound _ (some max_fanout) source max_depth i.id i.distance d in
      (Chain-of_Walk agree w, pos, le, current_detail_sound conn i.id i.type i.name e)

  -- When no node was truncated, the report holds exactly the current CIs whose distance along the
  -- impact relation is between 1 and `max_depth`, each with that distance.
  pub blast_radius_exact :
      report.truncated_supernodes ≡ []
      → (i : ImpactedCi)
      → Memᴰ i report.impacted ↔ (
          Distance (Impacts conn tenant_id min) source i.id i.distance
          × (0 < i.distance)
          × (i.distance ≤ max_depth)
          × (current_detail conn i.id ≡ some (i.type, i.name)))
  unfolding blast_search
  blast_radius_exact none_cut i =
      let r = mem-resolved conn found.discovered i in
      let d =
        discovered-raw _ (some max_fanout) source max_depth (sym report-supernodes ∙ none_cut) i.id
          i.distance in
      let s = Shortest-iff-Distance agree i.id i.distance in
      (
        λ m.
            let (x, e) = r.0 (subst (Memᴰ i) report-impacted m) in
            let (w, pos, le) = d.0 x in (s.0 w, pos, le, e),
        λ h.
            let (w, pos, le, e) = h in
            subst (Memᴰ i) (sym report-impacted) (r.1 (d.1 (s.1 w, pos, le), e)),
      )
