-- ===== src/Db/CiRepository/Current.antt =====
-- What a read after a write returns.
use infra_twin.Prelude.{
  ℕ, ◌≡◌, inl, inr, Bool, true, some, String, List, [], ◌∷◌, ◌++◌, map, select, Memᴰ, Memᴰ-snoc,
  mem-select, mem-map, ◌==◌, text_eq, text_eq_refl, ◌&&◌, arith, refl, subst, Bool-cases,
  Option-cases,
}
use infra_twin.Prelude.Sort.{mem-sort}
use infra_twin.Float.{Float}
use infra_twin.Model.{Ci, CiType, ci_type_value}
use infra_twin.Db.Policies.{first_row}
use infra_twin.Db.CiRepository.{
  written, same_ci_type, get_current, is_current, is_open_version, touch_row, ci_changed,
  new_version, insert_row, update_ci, upsert_ci,
}

pub mem-first_row : {A : Type 0} (xs : List A) (x : A) → first_row xs ≡ some x → Memᴰ x xs
mem-first_row [] x e = cc
mem-first_row (y ∷ xs) x e = Memᴰ.head (ground arith)

module _ {W J : Type 0} (tenant : ℕ) where
  -- An open row of the tenant is read back under its type and its external identifier.
  read_back :
      (r : Ci W J) (table : List (Ci W J)) (type : CiType) (external_id : String)
      → Memᴰ r table
      → is_current tenant type external_id r ≡ true
      → Memᴰ r (get_current tenant (some type) (some external_id) table)
  unfolding get_current is_current
  read_back r table type external_id m h =
      (mem-sort _ r _).1 ((mem-select _ table r).1 (m, ground arith))

  insert_row-read :
      (r : Ci W J) (table : List (Ci W J)) (out : Ci W J) (after : List (Ci W J))
      → is_current tenant r.type r.external_id r ≡ true
      → insert_row r table ≡ written out after
      → Memᴰ out (get_current tenant (some r.type) (some r.external_id) after)
  unfolding insert_row
  insert_row-read r table out after open_row done =
      let row : r ≡ out = ground arith in
      let appended : table ++ r ∷ [] ≡ after = ground arith in
      subst (λ (x : Ci W J). Memᴰ x (get_current tenant (some r.type) (some r.external_id) after))
        row
        (read_back r after r.type r.external_id
          (subst (Memᴰ r) appended ((Memᴰ-snoc r r table).1 (inr refl))) open_row)

module _ {W J : Type 0} ⦃f : Float W⦄ (same_json : J → J → Bool) (tenant now : ℕ) where
  -- The row that a successful upsert returns is among the current rows that are read under the type
  -- and the external identifier of the CI.
  pub upsert_ci_read :
      (ci : Ci W J) (table : List (Ci W J)) (out : Ci W J) (after : List (Ci W J))
      → upsert_ci same_json tenant now ci table ≡ written out after
      → Memᴰ out (get_current tenant (some ci.type) (some ci.external_id) after)
  unfolding upsert_ci update_ci new_version is_current is_open_version touch_row
  upsert_ci_read ci table out after done = elim (Bool-cases (ci.tenant_id == tenant)) [
    | inr e ↦ let never = rw (e, upsert_ci) at done in absurd cc
    | inl e ↦
        elim (Option-cases (first_row (select (is_current tenant ci.type ci.external_id) table))) [
          | inl g ↦
              insert_row-read tenant (new_version tenant now ci.id now ci) table out after fresh
                (rw (e, g, upsert_ci) at done)
          | inr (current, g) ↦ elim (Bool-cases (ci_changed same_json current ci)) [
            | inl c ↦
                insert_row-read tenant (new_version tenant now current.id current.first_seen ci) _
                  out after fresh (rw (e, g, c, upsert_ci, update_ci) at done)
            | inr c ↦
                let d = rw (e, g, c, upsert_ci, update_ci) at done in
                let (i, found) =
                  (mem-select (is_current tenant ci.type ci.external_id) table current).0
                    (mem-first_row _ current g) in
                let row : record current { last_seen = now } ≡ out = ground arith in
                let touched : map (touch_row tenant now (is_open_version tenant current.id)) table
                    ≡ after =
                  ground arith in
                subst
                  (λ (x : Ci W J).
                    Memᴰ x (get_current tenant (some ci.type) (some ci.external_id) after))
                  row
                  (read_back tenant (record current { last_seen = now }) after ci.type
                    ci.external_id
                    (subst (Memᴰ (record current { last_seen = now })) touched (
                      (mem-map (touch_row tenant now (is_open_version tenant current.id)) table _).1
                        (current, i, touched_row current found)))
                    found)
          ]
        ]
  ]
    where
      fresh :
          ((tenant == tenant)
            && same_ci_type ci.type ci.type
            && text_eq ci.external_id ci.external_id
            && true)
          ≡ true
      fresh = ground (arith, text_eq_refl (ci_type_value ci.type), text_eq_refl ci.external_id)

      touched_row :
          (r : Ci W J)
          → is_current tenant ci.type ci.external_id r ≡ true
          → record r { last_seen = now } ≡ touch_row tenant now (is_open_version tenant r.id) r
      touched_row r h =
          let test : is_open_version tenant r.id r ≡ true = ground arith in
          rw (test, touch_row) refl
