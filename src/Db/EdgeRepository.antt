-- ===== src/Db/EdgeRepository.antt =====
-- packages/db repositories.py: the bitemporal store of edges, less its `upsert`. `now` is the
-- transaction's timestamp. The column of a confidence is a `REAL`, which holds `single` of it.
pub mod Decay
pub mod Upsert
use infra_twin.Prelude.{
  ℕ, Bool, not, Option, none, some, String, List, [], ◌∷◌, ◌++◌, map, select, ◌==◌, ◌&&◌, ◌||◌,
  text_eq, if◌then◌else◌,
}
use infra_twin.Float.{Float}
use infra_twin.Model.{Edge, EdgeType, same_edge_type, is_inferred, Evidence}
use infra_twin.Db.{is_open}
use infra_twin.Db.Policies.{first_row}
use infra_twin.Db.CiRepository.{
  Written, written, refused, duplicate_key, when, is_some, is_valid_at, has_key,
}

-- `observed_at` of the first count marker
unfoldable pub last_observed_at_of : List Evidence → Option ℕ
last_observed_at_of [] = none
last_observed_at_of (ev ∷ evidence) =
    let rest = last_observed_at_of evidence in
    if text_eq ev.source "aws-flowlogs-count" then some ev.observed_at else rest

module _ {W : Type 0} (tenant : ℕ) where
  unfoldable pub get_current_edges : Option ℕ → List (Edge W) → List (Edge W)
  get_current_edges from_id table =
      select
        (λ r. r.tenant_id == tenant && is_open r.valid_to && when from_id (λ n. r.from_id == n))
        table

  unfoldable pub edges_as_of : ℕ → List (Edge W) → List (Edge W)
  edges_as_of ts table =
      select (λ r. r.tenant_id == tenant && is_valid_at ts r.valid_from r.valid_to) table

  unfoldable pub is_current_edge : EdgeType → ℕ → ℕ → String → Edge W → Bool
  is_current_edge type from_id to_id edge_key r =
      r.tenant_id == tenant
      && same_edge_type r.type type
      && r.from_id == from_id
      && r.to_id == to_id
      && text_eq r.edge_key edge_key
      && is_open r.valid_to

  unfoldable pub close_edge_row : ℕ → (Edge W → Bool) → Edge W → Edge W
  close_edge_row now test r = if test r then record r { valid_to = some now } else r

  -- whether a row was open, and the table
  unfoldable pub close_edge : ℕ → EdgeType → ℕ → ℕ → String → List (Edge W) → Bool × List (Edge W)
  close_edge now type from_id to_id edge_key table =
      let test = is_current_edge type from_id to_id edge_key in
      (is_some (first_row (select test table)), map (close_edge_row now test) table)

module _ {W : Type 0} ⦃f : Float W⦄ (tenant now : ℕ) where
  unfoldable pub write_decayed_version : Edge W → W → Evidence → List (Edge W) → Written (Edge W)
  write_decayed_version current new_confidence decay_evidence table =
      let row = record current {
        confidence = f.single new_confidence;
        evidence = current.evidence ++ decay_evidence ∷ [];
        valid_from = now;
        valid_to = none;
      } in
      let closed =
        map
          (close_edge_row tenant now
            (λ r. r.tenant_id == tenant && r.id == current.id && is_open r.valid_to))
          table in
      if not (is_inferred current.source)
      then refused
      else (if f.le current.confidence new_confidence
          then refused
          else (if has_key (λ r. r.id) (λ r. r.valid_from) current.id now closed
                || is_some (
                    first_row (
                      select
                        (is_current_edge current.tenant_id current.type current.from_id
                          current.to_id current.edge_key)
                        closed))
              then duplicate_key
              else written row (closed ++ row ∷ [])))
