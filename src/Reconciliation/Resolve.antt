-- ===== src/Reconciliation/Resolve.antt =====
-- reconciliation/reconcile.py: the lookups of identities, `_resolve_canonical_ci` and the function
-- `_resolve` of `reconcile` and of `apply_delta`. A set of rows comes in the order of its table.

pub mod Canonical
use infra_twin.Prelude.{
  ℕ, Bool, true, false, not, Option, none, some, String, List, [], ◌∷◌, ◌++◌, map, select, foldl,
  ◌==◌, ◌&&◌, ◌||◌, has, text_eq, text_order, not_after, if◌then◌else◌,
}
use infra_twin.Prelude.Sort.{sort}
use infra_twin.Model.{Ci, CiType, ci_type_value}
use infra_twin.Db.Policies.{first_row}
use infra_twin.Db.CiRepository.{get_current, get_current_by_id, same_ci_type}
use infra_twin.Reconciliation.Events.{DiscoveredCi, CiRef}
use infra_twin.Reconciliation.Tables.{Tables, AliasKey, SourceKey}

-- `alias_key = ANY(keys)`
unfoldable pub any_text : List String → String → Bool
any_text [] x = false
any_text (k ∷ ks) x = text_eq k x || any_text ks x

-- The rows that a merge may use: of a listed key, of the type and of another source.
abbrev pub is_match : ℕ → String → String → List String → AliasKey → Bool
is_match tenant ci_type source keys a =
    a.tenant_id == tenant
    && any_text keys a.alias_key
    && text_eq a.ci_type ci_type
    && not (text_eq a.source source)

-- The first key of every CI that the rows name.
unfoldable pub candidates_of : List AliasKey → List (ℕ × String) → List (ℕ × String)
candidates_of [] found = found
candidates_of (a ∷ rows) found =
    let known = candidates_of rows found in
    let next = candidates_of rows (found ++ (a.ci_id, a.alias_key) ∷ []) in
    if has found a.ci_id then known else next

-- the smallest of the matched keys, or the tentative one
unfoldable pub smallest_key : String → List String → String
smallest_key tentative keys = elim (first_row (sort (λ s t. not_after (text_order s t)) keys)) [
  | none ↦ tentative
  | some key ↦ key
]

abbrev pub matched_rows : {J : Type 0} → ℕ → DiscoveredCi J → String → List AliasKey → List AliasKey
matched_rows tenant dci source rows =
    select (is_match tenant (ci_type_value dci.type) source dci.alias_keys) rows

module _ {W J : Type 0} (tenant : ℕ) where
  -- the test that the one candidate still is a current CI of the type
  unfoldable pub confirm :
      DiscoveredCi J → List AliasKey → ℕ → String → Option (Ci W J) → Option (Ci W J × String)
  unfolding smallest_key
  confirm dci rows ci_id tentative none = none
  confirm dci rows ci_id tentative (some canonical) =
      if not (same_ci_type canonical.type dci.type)
      then none
      else some (
        canonical,
        smallest_key tentative (map (λ a. a.alias_key) (select (λ a. a.ci_id == ci_id) rows)),
      )

  unfoldable pub pick_candidate :
      DiscoveredCi J → List AliasKey → List (Ci W J) → List (ℕ × String) → Option (Ci W J × String)
  unfolding confirm
  pick_candidate dci rows cis [] = none
  pick_candidate dci rows cis ((ci_id, tentative) ∷ []) =
      confirm dci rows ci_id tentative (get_current_by_id tenant ci_id cis)
  pick_candidate dci rows cis (c ∷ d ∷ _) = none

  -- `_resolve_canonical_ci`
  unfoldable pub resolve_canonical_ci :
      DiscoveredCi J → String → Tables W J → Option (Ci W J × String)
  unfolding candidates_of pick_candidate
  resolve_canonical_ci dci source s =
      let rows = matched_rows tenant dci source s.alias_keys in
      elim dci.alias_keys [
        | [] ↦ none
        | ◌∷◌ _ _ ↦ pick_candidate dci rows s.cis (candidates_of rows [])
      ]

-- A dict with the keys `(type, external_id)`: of two entries of a key the first stands.
abbrev pub Keyed : Type 0
Keyed = List ((CiType × String) × ℕ)

abbrev pub same_key : CiType × String → CiType × String → Bool
same_key a b = same_ci_type a.0 b.0 && text_eq a.1 b.1

unfoldable pub get_id : Keyed → CiType × String → Option ℕ
get_id [] key = none
get_id ((k, id) ∷ m) key = let rest = get_id m key in if same_key k key then some id else rest

abbrev pub first_some {ℓ} : {A : Type ℓ} → Option A → Option A → Option A
first_some (some a) other = some a
first_some none other = other

module _ {W J : Type 0} (tenant : ℕ) where
  abbrev pub id_of : Option (Ci W J) → Option ℕ
  id_of none = none
  id_of (some r) = some r.id

  -- the CI that a source key names, if it is current
  unfoldable pub bound_id : String → Tables W J → Option ℕ
  bound_id external_id s =
      elim (first_row
        (select (λ k. k.tenant_id == tenant && text_eq k.native_id external_id) s.source_keys)) [
          | none ↦ none
          | some k ↦ id_of (get_current_by_id tenant k.ci_id s.cis)
        ]

  -- `_resolve`
  unfoldable pub resolve_ref : Keyed → CiRef → Tables W J → Option ℕ
  unfolding bound_id get_id
  resolve_ref id_by_key ref s = first_some (get_id id_by_key (ref.type, ref.external_id)) (
      first_some
        (id_of (first_row (get_current tenant (some ref.type) (some ref.external_id) s.cis)))
        (bound_id ref.external_id s))
