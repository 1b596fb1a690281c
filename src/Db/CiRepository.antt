-- ===== src/Db/CiRepository.antt =====
-- packages/db repositories.py: the bitemporal store of CIs. `now` is the transaction's timestamp.
-- A statement sees the rows of the session's tenant; the primary key `(id, valid_from)` is one for
-- the whole table. Equality of JSON values is the driver's and an argument. The column of a
-- confidence is a `REAL`, which holds `single` of it. Texts are ordered
-- by code points, as the collation `C` orders them.
pub mod Past
pub mod Writes
pub mod Current
use Prim.Native.Nat.{compare}
use infra_twin.Prelude.{
  ℕ, Bool, true, false, not, Option, none, some, String, List, [], ◌∷◌, ◌++◌, map, select, ◌==◌,
  ◌&&◌, ◌||◌, ltb, leb, and_then, not_after, text_order, text_eq, if◌then◌else◌,
}
use infra_twin.Prelude.Sort.{sort}
use infra_twin.Float.{Float, of_int}
use infra_twin.Model.{Ci, CiType, ci_type_value}
use infra_twin.Db.{is_open}
use infra_twin.Db.Policies.{first_row}

-- What a write returns: its row and the table, or the exception.
pub data Written (A : Type 0) : Type 0 where
  written : A → List A → Written A
  -- the `ValueError` of a refused argument
  refused : Written A
  -- the `UniqueViolation` of the primary key or of the index of the open rows
  duplicate_key : Written A

abbrev pub same_ci_type : CiType → CiType → Bool
same_ci_type a b = text_eq (ci_type_value a) (ci_type_value b)

-- a test of an optional filter
abbrev pub when {ℓ} : {A : Type ℓ} → Option A → (A → Bool) → Bool
when none test = true
when (some a) test = test a

-- `valid_from <= ts AND (valid_to IS NULL OR valid_to > ts)`
unfoldable pub is_valid_at : ℕ → ℕ → Option ℕ → Bool
is_valid_at ts valid_from valid_to =
    leb valid_from ts && elim valid_to [ none ↦ true | some t ↦ ltb ts t ]

unfoldable pub has_key : {A : Type 0} → (A → ℕ) → (A → ℕ) → ℕ → ℕ → List A → Bool
has_key id from i v [] = false
has_key id from i v (r ∷ rows) = (id r == i && from r == v) || has_key id from i v rows

abbrev pub is_some {ℓ} : {A : Type ℓ} → Option A → Bool
is_some none = false
is_some (some _) = true

-- `abs(a - b) > 1e-6`
unfoldable pub is_apart : {W : Type 0} ⦃f : Float W⦄ → W → W → Bool
is_apart ⦃f⦄ a b =
    let d = f.sub a b in
    not (f.le (if f.le (of_int 0) d then d else f.sub (of_int 0) d) (f.lit 1 6))

module _ {W J : Type 0} (tenant : ℕ) where
  unfoldable pub get_current : Option CiType → Option String → List (Ci W J) → List (Ci W J)
  get_current type external_id table =
      sort
        (λ r s. not_after (
          and_then (text_order (ci_type_value r.type) (ci_type_value s.type))
            (text_order r.external_id s.external_id)))
        (select
          (λ r.
            r.tenant_id == tenant
            && is_open r.valid_to
            && when type (same_ci_type r.type)
            && when external_id (text_eq r.external_id))
          table)

  unfoldable pub get_current_by_id : ℕ → List (Ci W J) → Option (Ci W J)
  get_current_by_id ci_id table =
      first_row (select (λ r. r.tenant_id == tenant && r.id == ci_id && is_open r.valid_to) table)

  unfoldable pub as_of : ℕ → Option CiType → List (Ci W J) → List (Ci W J)
  as_of ts type table =
      select
        (λ r.
          r.tenant_id == tenant
          && is_valid_at ts r.valid_from r.valid_to
          && when type (same_ci_type r.type))
        table

  unfoldable pub history : ℕ → List (Ci W J) → List (Ci W J)
  history ci_id table =
      sort (λ r s. leb r.valid_from s.valid_from)
        (select (λ r. r.tenant_id == tenant && r.id == ci_id) table)

  -- the open row of a type and an external identifier
  unfoldable pub is_current : CiType → String → Ci W J → Bool
  is_current type external_id r =
      r.tenant_id == tenant
      && same_ci_type r.type type
      && text_eq r.external_id external_id
      && is_open r.valid_to

  -- the test of the two updates by `id`
  unfoldable pub is_open_version : ℕ → Ci W J → Bool
  is_open_version ci_id r = r.tenant_id == tenant && r.id == ci_id && is_open r.valid_to

  unfoldable pub close_row : ℕ → (Ci W J → Bool) → Ci W J → Ci W J
  close_row now test r = if test r then record r { valid_to = some now } else r

  unfoldable pub touch_row : ℕ → (Ci W J → Bool) → Ci W J → Ci W J
  touch_row now test r = if test r then record r { last_seen = now } else r

  -- whether a row was open, and the table
  unfoldable pub close_ci : ℕ → CiType → String → List (Ci W J) → Bool × List (Ci W J)
  close_ci now type external_id table = (
    is_some (first_row (select (is_current type external_id) table)),
    map (close_row now (is_current type external_id)) table,
  )

abbrev pub same_name : Option String → Option String → Bool
same_name none none = true
same_name (some s) (some t) = text_eq s t
same_name _ _ = false

module _ {W J : Type 0} ⦃f : Float W⦄ (same_json : J → J → Bool) where
  unfoldable pub ci_changed : Ci W J → Ci W J → Bool
  ci_changed current ci =
      not (same_name current.name ci.name)
      || not (same_json current.attributes ci.attributes)
      || is_apart current.confidence ci.confidence

-- the row of the two insertions, as the columns hold it
unfoldable pub new_version : {W J : Type 0} ⦃f : Float W⦄ → ℕ → ℕ → ℕ → ℕ → Ci W J → Ci W J
new_version ⦃f⦄ tenant now id first_seen ci = record {
  id = id;
  tenant_id = tenant;
  type = ci.type;
  external_id = ci.external_id;
  name = ci.name;
  attributes = ci.attributes;
  confidence = f.single ci.confidence;
  first_seen = first_seen;
  last_seen = now;
  valid_from = now;
  valid_to = none;
}

unfoldable pub insert_row : {W J : Type 0} → Ci W J → List (Ci W J) → Written (Ci W J)
insert_row r table =
    if has_key (λ r. r.id) (λ r. r.valid_from) r.id r.valid_from table
      || is_some (first_row (select (is_current r.tenant_id r.type r.external_id) table))
    then duplicate_key
    else written r (table ++ r ∷ [])

module _ {W J : Type 0} ⦃f : Float W⦄ (same_json : J → J → Bool) (tenant now : ℕ) where
  -- the row that was found, and the incoming CI
  unfoldable pub update_ci : Ci W J → Ci W J → List (Ci W J) → Written (Ci W J)
  update_ci current ci table =
      if ci_changed same_json current ci
      then insert_row (new_version tenant now current.id current.first_seen ci)
          (map (close_row tenant now (is_open_version tenant current.id)) table)
      else written (record current { last_seen = now })
          (map (touch_row tenant now (is_open_version tenant current.id)) table)

  unfoldable pub upsert_ci : Ci W J → List (Ci W J) → Written (Ci W J)
  unfolding update_ci
  upsert_ci ci table =
      if not (ci.tenant_id == tenant)
      then refused
      else elim (first_row (select (is_current tenant ci.type ci.external_id) table)) [
        | none ↦ insert_row (new_version tenant now ci.id now ci) table
        | some current ↦ update_ci current ci table
      ]
