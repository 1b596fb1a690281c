-- ===== src/Reconciliation/Aging.antt =====
-- services/reconciliation aging.py: the sweep that weakens and closes unobserved inferred edges.
-- The projection of its changes into the graph is an argument, and so is the sentence that records
-- a decay.
pub mod Kept
use infra_twin.Prelude.{
  ℕ, ◌+◌, Bool, true, false, not, Option, none, some, String, List, [], ◌∷◌, ◌++◌, ◌==◌, ◌&&◌, ◌||◌,
  ltb, text_eq, if◌then◌else◌,
}
use infra_twin.Prelude.Ints.{ℤ, pos, negsuc, diff}
use infra_twin.Float.{Float}
use infra_twin.Model.{Edge, Evidence, is_inferred}
use infra_twin.Db.CiRepository.{Written, written, refused, duplicate_key}
use infra_twin.Db.EdgeRepository.{
  last_observed_at_of, get_current_edges, close_edge, write_decayed_version,
}
use infra_twin.Db.Runs.{ConnectorRun, start_run, finish_ok}
use infra_twin.Confidence.{freshness_window, edge_ttl, decayed_confidence}

-- `connector_run_id`, which the source adds, is the argument `fresh` of `run_aging`.
pub record AgingResult : Type 0 where
  pub decayed : ℕ
  pub closed : ℕ
  pub untouched : ℕ

-- What the loop over the edges changes.
pub record Aging (W : Type 0) : Type 0 where
  pub table : List (Edge W)
  pub decayed_edges : List (Edge W)
  pub closed_edges : List (Edge W)
  pub result : AgingResult

-- A decay was recorded at this time.
unfoldable pub is_already_decayed : ℕ → List Evidence → Bool
is_already_decayed now [] = false
is_already_decayed now (ev ∷ evidence) =
    (text_eq ev.source "inferred-edge-decay" && ev.observed_at == now)
    || is_already_decayed now evidence

module _ {W : Type 0} where
  unfoldable pub count_untouched : Aging W → Aging W
  count_untouched s =
      let r = s.result in record s { result = record r { untouched = r.untouched + 1 } }

  unfoldable pub close_expired : ℕ → ℕ → Edge W → Aging W → Aging W
  close_expired tenant started edge s =
      let r = s.result in
      record s {
        table =
            (close_edge tenant started edge.type edge.from_id edge.to_id edge.edge_key s.table).1;
        closed_edges = s.closed_edges ++ edge ∷ [];
        result = record r { closed = r.closed + 1 };
      }

-- the state after `write_decayed_version`; `none` is its exception
unfoldable pub record_decay : {W : Type 0} → Written (Edge W) → Aging W → Option (Aging W)
record_decay refused s = none
record_decay duplicate_key s = none
record_decay (written new_edge table) s =
    let r = s.result in
    some (record s {
      table = table;
      decayed_edges = s.decayed_edges ++ new_edge ∷ [];
      result = record r { decayed = r.decayed + 1 };
    })

module _ {W : Type 0} ⦃f : Float W⦄ (sentence : W → W → ℕ → String) (tenant started now : ℕ) where
  -- `none` is an exception, upon which the transaction is rolled back.
  unfoldable pub write_decay : Edge W → ℕ → W → Aging W → Option (Aging W)
  write_decay edge age new_conf s =
      let ev : Evidence = record {
        source = "inferred-edge-decay";
        observed_at = now;
        detail = some (sentence edge.confidence new_conf age);
      } in
      record_decay (write_decayed_version tenant started edge new_conf ev s.table) s

  -- the branch of an age between the window and the limit
  unfoldable pub decay_edge : Edge W → ℕ → Aging W → Option (Aging W)
  decay_edge edge age s =
      if is_already_decayed now edge.evidence
      then some (count_untouched s)
      else elim (decayed_confidence edge.confidence (pos age)) [
        | none ↦ none
        | some new_conf ↦
            let changed = write_decay edge age new_conf s in
            if f.le edge.confidence new_conf then some (count_untouched s) else changed
      ]

  -- an inferred edge by its age
  unfoldable pub age_by : Edge W → ℤ → Aging W → Option (Aging W)
  age_by edge (negsuc _) s = some (count_untouched s)
  age_by edge (pos age) s =
      let weakened = decay_edge edge age s in
      if ltb edge_ttl age
      then some (close_expired tenant started edge s)
      else (if ltb freshness_window age then weakened else some (count_untouched s))

  -- the body of the loop
  unfoldable pub age_edge : Edge W → Aging W → Option (Aging W)
  age_edge edge s =
      if not (is_inferred edge.source) then some s else elim (last_observed_at_of edge.evidence) [
        | none ↦ some (count_untouched s)
        | some last ↦ age_by edge (diff now last) s
      ]

  unfoldable pub age_edges : List (Edge W) → Aging W → Option (Aging W)
  age_edges [] s = some s
  age_edges (edge ∷ edges) s = elim (age_edge edge s) [ none ↦ none | some t ↦ age_edges edges t ]

  unfoldable pub age_inferred_edges : List (Edge W) → Option (Aging W)
  age_inferred_edges table = age_edges (get_current_edges tenant none table) (record {
    table = table;
    decayed_edges = [];
    closed_edges = [];
    result = record { decayed = 0; closed = 0; untouched = 0 };
  })

-- The whole sweep, with the run that records it and the projection of its changes.
unfoldable pub run_aging :
    {W G : Type 0} ⦃f : Float W⦄ (sentence : W → W → ℕ → String)
    (project : List (Edge W) → List (Edge W) → G → G) (tenant started now fresh : ℕ)
    → List ConnectorRun
    → G
    → List (Edge W)
    → Option (Aging W × List ConnectorRun × G)
run_aging sentence project tenant started now fresh runs graph table =
    let begun = start_run tenant started fresh "inferred-edge-aging" none runs in
    elim (age_inferred_edges sentence tenant started now table) [
      | none ↦ none
      | some s ↦
          some
            (s, finish_ok tenant started fresh begun, project s.decayed_edges s.closed_edges graph)
    ]
