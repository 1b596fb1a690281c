-- ===== src/Db/CiRepository/Past.antt =====
-- What the writes leave of the past.
use infra_twin.Prelude.{
  ℕ, ◌<◌, ◌≡◌, inl, inr, Bool, true, false, Option, none, some, String, List, [], ◌∷◌, ◌++◌, map,
  select-append_no, select-map_same, ◌==◌, ◌&&◌, arith, refl, ◌∙◌, ap, Bool-cases,
}
use infra_twin.Float.{Float}
use infra_twin.Model.{Ci, CiType}
use infra_twin.Db.{is_open}
use infra_twin.Db.CiRepository.Writes.{CiWrites, close_ci-kept, upsert_ci-kept}
use infra_twin.Db.CiRepository.{
  written, same_ci_type, when, is_valid_at, as_of, close_row, touch_row, close_ci, upsert_ci,
}

-- A row without the two columns that are updated in place.
abbrev pub facts : {W J : Type 0} → Ci W J → Ci W J
facts r = record r { last_seen = 0; valid_to = none }

-- A time before `now` does not see that an open row is closed at `now`.
pub valid_same :
    (now ts from : ℕ) (until : Option ℕ)
    → ts < now
    → is_open until ≡ true
    → is_valid_at ts from (some now) ≡ is_valid_at ts from until
unfolding is_valid_at
valid_same now ts from none past o = ground arith
valid_same now ts from (some t) past o = cc

module _ {W J : Type 0} (tenant now ts : ℕ) (type : Option CiType) (past : ts < now) where
  abbrev view : List (Ci W J) → List (Ci W J)
  view table = map facts (as_of tenant ts type table)

  view-close_row :
      (test : Ci W J → Bool)
      → ((r : Ci W J) → test r ≡ true → is_open r.valid_to ≡ true)
      → (table : List (Ci W J)) → view (map (close_row tenant now test) table) ≡ view table
  unfolding as_of close_row is_valid_at
  view-close_row test opened table = select-map_same _ _ facts same_p same_k table
    where
      same_p :
          (r : Ci W J)
          → ((close_row tenant now test r).tenant_id == tenant
              && is_valid_at ts
                  (close_row tenant now test r).valid_from
                  (close_row tenant now test r).valid_to
              && when type (same_ci_type (close_row tenant now test r).type))
            ≡ (r.tenant_id == tenant
                && is_valid_at ts r.valid_from r.valid_to
                && when type (same_ci_type r.type))
      same_p r = elim (Bool-cases (test r)) [
        | inl e ↦
            rw (e, close_row)
              (ap (λ (b : Bool). r.tenant_id == tenant && b && when type (same_ci_type r.type))
                (valid_same now ts r.valid_from r.valid_to past (opened r e)))
        | inr e ↦ rw (e, close_row) refl
      ]

      same_k : (r : Ci W J) → facts (close_row tenant now test r) ≡ facts r
      same_k r = elim (Bool-cases (test r)) [
        | inl e ↦ rw (e, close_row) refl
        | inr e ↦ rw (e, close_row) refl
      ]

  view-touch_row :
      (test : Ci W J → Bool) (table : List (Ci W J))
      → view (map (touch_row tenant now test) table) ≡ view table
  unfolding as_of touch_row
  view-touch_row test table = select-map_same _ _ facts same_p same_k table
    where
      same_p :
          (r : Ci W J)
          → ((touch_row tenant now test r).tenant_id == tenant
              && is_valid_at ts
                  (touch_row tenant now test r).valid_from
                  (touch_row tenant now test r).valid_to
              && when type (same_ci_type (touch_row tenant now test r).type))
            ≡ (r.tenant_id == tenant
                && is_valid_at ts r.valid_from r.valid_to
                && when type (same_ci_type r.type))
      same_p r = elim (Bool-cases (test r)) [
        | inl e ↦ rw (e, touch_row) refl
        | inr e ↦ rw (e, touch_row) refl
      ]

      same_k : (r : Ci W J) → facts (touch_row tenant now test r) ≡ facts r
      same_k r = elim (Bool-cases (test r)) [
        | inl e ↦ rw (e, touch_row) refl
        | inr e ↦ rw (e, touch_row) refl
      ]

  view-append :
      (r : Ci W J) (table : List (Ci W J))
      → r.valid_from ≡ now
      → view (table ++ r ∷ []) ≡ view table
  unfolding as_of is_valid_at
  view-append r table at_now =
      ap (map facts) (select-append_no _ table r (unseen r.valid_from at_now))
    where
      unseen :
          (from : ℕ)
          → from ≡ now
          → (r.tenant_id == tenant
              && is_valid_at ts from r.valid_to
              && when type (same_ci_type r.type))
            ≡ false
      unseen from e = ground arith

  abbrev SameView : List (Ci W J) → List (Ci W J) → Type 0
  SameView before after = view after ≡ view before

  view-CiWrites : CiWrites tenant now SameView
  view-CiWrites = record {
    same = λ xs. refl;
    then_also = λ xs ys zs h k. k ∙ h;
    closes = λ test own xs. view-close_row test (λ r h. (own r h).1) xs;
    touches = λ test own xs. view-touch_row test xs;
    appends = λ r own at_now xs. view-append r xs at_now;
  }

  -- Closing a CI leaves what an earlier time sees, but for the columns `valid_to` and `last_seen`.
  pub close_ci_past :
      (ci_type : CiType) (external_id : String) (table : List (Ci W J))
      → map facts (as_of tenant ts type (close_ci tenant now ci_type external_id table).1)
        ≡ map facts (as_of tenant ts type table)
  close_ci_past = close_ci-kept tenant now SameView view-CiWrites

  -- A successful upsert leaves what an earlier time sees, but for the columns `valid_to` and
  -- `last_seen`: neither a new version nor a touch rewrites a fact of the past.
  pub upsert_ci_past :
      ⦃f : Float W⦄ (same_json : J → J → Bool) (ci : Ci W J) (table : List (Ci W J)) (out : Ci W J)
      (after : List (Ci W J))
      → upsert_ci same_json tenant now ci table ≡ written out after
      → map facts (as_of tenant ts type after) ≡ map facts (as_of tenant ts type table)
  upsert_ci_past same_json = upsert_ci-kept same_json tenant now SameView view-CiWrites
