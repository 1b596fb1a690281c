-- ===== src/Db/EdgeRepository/Upsert.antt =====
-- packages/db repositories.py: EdgeRepository.upsert. `now` is the transaction's timestamp. The
-- timestamps of two pieces of evidence are compared as times, not by their ISO texts.
pub mod Past
pub mod Writes
pub mod Inserted
pub mod Count
pub mod Succeeds
use infra_twin.Prelude.{
  ℕ, zero, suc, ◌-◌, Bool, true, false, not, Option, none, some, String, List, [], ◌∷◌, ◌++◌, map,
  select, length, ◌==◌, ◌&&◌, ◌||◌, leb, text_eq, if◌then◌else◌,
}
use infra_twin.Prelude.Ints.{ℤ, pos, negsuc}
use infra_twin.Prelude.Decimal.{to_decimal, read_int}
use infra_twin.Float.{Float}
use infra_twin.Confidence.{confidence_for_observations}
use infra_twin.Model.{Edge, EdgeSource, is_inferred, Evidence}
use infra_twin.Db.{is_open}
use infra_twin.Db.Policies.{first_row}
use infra_twin.Db.CiRepository.{
  Written, written, refused, duplicate_key, is_some, has_key, is_apart, same_name,
}
use infra_twin.Db.EdgeRepository.{is_current_edge, close_edge_row}

abbrev pub evidence_window_cap : ℕ
evidence_window_cap = 20

-- `ev.source == FLOWLOG_COUNT_EVIDENCE_SOURCE`
abbrev pub is_count_marker : Evidence → Bool
is_count_marker ev = text_eq ev.source "aws-flowlogs-count"

abbrev pub count_marker : ℕ → ℕ → Evidence
count_marker count observed_at = record {
  source = "aws-flowlogs-count";
  observed_at = observed_at;
  detail = some (to_decimal count);
}

-- `max` of the times of the first piece of evidence and of the others
unfoldable pub newest : ℕ → List Evidence → ℕ
newest t [] = t
newest t (ev ∷ evidence) = newest (if leb ev.observed_at t then t else ev.observed_at) evidence

-- `int(ev["detail"])`, 1 where it raises
abbrev pub count_of_detail : Option String → ℤ
count_of_detail none = pos 1
count_of_detail (some text) = elim (read_int text) [ none ↦ pos 1 | some n ↦ n ]

unfoldable pub prior_count : List Evidence → ℤ
prior_count [] = pos 1
prior_count (ev ∷ evidence) =
    let rest = prior_count evidence in
    if is_count_marker ev then count_of_detail ev.detail else rest

unfoldable pub drop {ℓ} : {A : Type ℓ} → ℕ → List A → List A
drop zero xs = xs
drop (suc n) [] = []
drop (suc n) (x ∷ xs) = drop n xs

-- `xs[-n:]` of a positive `n`
unfoldable pub last_of {ℓ} : {A : Type ℓ} → ℕ → List A → List A
unfolding drop
last_of n xs = drop (length xs - n) xs

unfoldable pub combined_obs : List Evidence → List Evidence → List Evidence
combined_obs current incoming = last_of evidence_window_cap (
    select (λ ev. not (is_count_marker ev)) current
    ++ select (λ ev. not (is_count_marker ev)) incoming)

-- the time of the last piece of evidence, or the other time where there is none
unfoldable pub last_time : ℕ → List Evidence → ℕ
last_time t [] = t
last_time t (ev ∷ evidence) = last_time ev.observed_at evidence

-- the evidence of an edge that is seen for the first time
unfoldable pub first_evidence : EdgeSource → Evidence → List Evidence → List Evidence
first_evidence source ev more =
    if is_inferred source
    then count_marker 1 (newest ev.observed_at more) ∷ ev ∷ more
    else ev ∷ more

-- the evidence of an edge that is seen again, for its new count
unfoldable pub next_evidence : ℕ → List Evidence → Evidence → List Evidence → List Evidence
next_evidence count current ev more =
    let obs = combined_obs current (ev ∷ more) in
    count_marker count (last_time ev.observed_at obs) ∷ obs

abbrev pub same_evidence : Evidence → Evidence → Bool
same_evidence a b =
    text_eq a.source b.source && a.observed_at == b.observed_at && same_name a.detail b.detail

unfoldable pub same_evidences : List Evidence → List Evidence → Bool
same_evidences [] [] = true
same_evidences (a ∷ as_) (b ∷ bs) = same_evidence a b && same_evidences as_ bs
same_evidences [] (b ∷ bs) = false
same_evidences (a ∷ as_) [] = false

module _ {W : Type 0} where
  unfoldable pub insert_edge : Edge W → List (Edge W) → Written (Edge W)
  insert_edge r table =
      if has_key (λ r. r.id) (λ r. r.valid_from) r.id r.valid_from table
        || is_some (
            first_row
              (select (is_current_edge r.tenant_id r.type r.from_id r.to_id r.edge_key) table))
      then duplicate_key
      else written r (table ++ r ∷ [])

  -- the row of the three insertions, as the columns hold it
  unfoldable pub edge_version : ⦃f : Float W⦄ → ℕ → ℕ → ℕ → W → List Evidence → Edge W → Edge W
  edge_version ⦃f⦄ tenant now id confidence evidence edge = record edge {
    id = id;
    tenant_id = tenant;
    confidence = f.single confidence;
    evidence = evidence;
    valid_from = now;
    valid_to = none;
  }

  unfoldable pub close_version : ℕ → ℕ → ℕ → List (Edge W) → List (Edge W)
  close_version tenant now id table =
      map
        (close_edge_row tenant now (λ r. r.tenant_id == tenant && r.id == id && is_open r.valid_to))
        table

module _ {W : Type 0} ⦃f : Float W⦄ where
  unfoldable pub edge_changed : Edge W → Edge W → Bool
  edge_changed current edge =
      not (
        if is_inferred current.source
        then is_inferred edge.source
        else not (is_inferred edge.source))
      || is_apart current.confidence edge.confidence
      || not (same_evidences current.evidence edge.evidence)

module _ {W : Type 0} ⦃f : Float W⦄ (tenant now : ℕ) where
  -- the new version of an edge with the confidence of its new count
  unfoldable pub reobserve_with :
      ℕ → Option W → Edge W → Edge W → Evidence → List Evidence → List (Edge W) → Written (Edge W)
  reobserve_with count none current edge ev more table = refused
  reobserve_with count (some confidence) current edge ev more table =
      insert_edge
        (edge_version tenant now current.id confidence
          (next_evidence count current.evidence ev more) edge)
        (close_version tenant now current.id table)

  -- Of a prior count below zero the new count is below one, which has no confidence.
  unfoldable pub reobserve :
      ℤ → Edge W → Edge W → Evidence → List Evidence → List (Edge W) → Written (Edge W)
  unfolding reobserve_with
  reobserve (negsuc _) current edge ev more table = refused
  reobserve (pos n) current edge ev more table =
      reobserve_with (suc n) (confidence_for_observations (suc n)) current edge ev more table

  unfoldable pub update_edge :
      Edge W → Edge W → Evidence → List Evidence → List (Edge W) → Written (Edge W)
  unfolding reobserve
  update_edge current edge ev more table =
      if is_inferred current.source && is_inferred edge.source
      then reobserve (prior_count current.evidence) current edge ev more table
      else (if edge_changed current edge
          then insert_edge (edge_version tenant now current.id edge.confidence edge.evidence edge)
              (close_version tenant now current.id table)
          else written current table)

  -- the incoming edge, with its evidence
  unfoldable pub upsert_with : Edge W → List Evidence → List (Edge W) → Written (Edge W)
  unfolding update_edge
  upsert_with edge [] table = refused
  upsert_with edge (ev ∷ more) table =
      elim (first_row
        (select (is_current_edge tenant edge.type edge.from_id edge.to_id edge.edge_key) table)) [
          | none ↦
              insert_edge
                (edge_version tenant now edge.id edge.confidence
                  (first_evidence edge.source ev more) edge)
                table
          | some current ↦ update_edge current edge ev more table
        ]

  unfoldable pub upsert_edge : Edge W → List (Edge W) → Written (Edge W)
  unfolding upsert_with
  upsert_edge edge table =
      if not (edge.tenant_id == tenant) then refused else upsert_with edge edge.evidence table
