-- ===== src/Reconciliation/Resolve/Canonical.antt =====
-- When a discovered CI is merged into the CI of another source.
use infra_twin.Prelude.{
  ℕ, ◌≡◌, ◌⊎◌, inl, inr, true, not, some, none, String, List, [], ◌∷◌, ◌++◌, Memᴰ, map, mem-map,
  select, mem-select, ◌==◌, get, has, has-cases, mem_of_get, arith, refl, sym, ◌∙◌, ap, subst,
  text_order, not_after, ==_iff, no_members, Bool-cases, Option-cases, List-cases,
}
use mathlib.Core.List.Memᴰ
use infra_twin.Prelude.Sort.{sort, mem-sort}
use infra_twin.Db.CiRepository.Current.{mem-first_row}
use infra_twin.Model.{Ci, ci_type_value}
use infra_twin.Db.{is_open}
use infra_twin.Db.Policies.{first_row}
use infra_twin.Db.CiRepository.{get_current_by_id, same_ci_type}
use infra_twin.Reconciliation.Events.{DiscoveredCi}
use infra_twin.Reconciliation.Tables.{Tables, AliasKey}
use infra_twin.Reconciliation.Resolve.{
  is_match, candidates_of, smallest_key, matched_rows, confirm, pick_candidate,
  resolve_canonical_ci,
}

-- The candidates hold the CI of every row, and what was found before.
candidates_of_complete :
    (rows : List AliasKey) (found : List (ℕ × String)) (n : ℕ)
    → ((key : String) × Memᴰ (n, key) found) ⊎ ((a : AliasKey) × Memᴰ a rows × (a.ci_id ≡ n))
    → (key : String) × Memᴰ (n, key) (candidates_of rows found)
unfolding candidates_of
candidates_of_complete [] found n (inl m) = m
candidates_of_complete [] found n (inr (a, m, e)) = absurd (Memᴰ.not-nil m)
candidates_of_complete (a ∷ rows) found n h = elim (has-cases found a.ci_id) [
  | inl (e, g) ↦
      rw (e, candidates_of)
        (candidates_of_complete rows (found ++ (a.ci_id, a.alias_key) ∷ []) n (appended h))
  | inr (key, e, g) ↦ rw (e, candidates_of) (candidates_of_complete rows found n (known key g h))
]
  where
    appended :
        ((key : String) × Memᴰ (n, key) found)
          ⊎ ((b : AliasKey) × Memᴰ b (a ∷ rows) × (b.ci_id ≡ n))
        → ((key : String) × Memᴰ (n, key) (found ++ (a.ci_id, a.alias_key) ∷ []))
          ⊎ ((b : AliasKey) × Memᴰ b rows × (b.ci_id ≡ n))
    appended (inl (key, m)) = inl (key, Memᴰ.append_left _ m)
    appended (inr (b, m, e)) = elim (Memᴰ.cases_cons m) [
      | inl s ↦ inl (
        a.alias_key,
        Memᴰ.append_right found (
            Memᴰ.head
              (ap (λ (x : ℕ). (x, a.alias_key)) (sym e ∙ ap (λ (x : AliasKey). x.ci_id) s))),
      )
      | inr i ↦ inr (b, i, e)
    ]

    known :
        (key : String)
        → get found a.ci_id ≡ some key
        → ((key : String) × Memᴰ (n, key) found)
          ⊎ ((b : AliasKey) × Memᴰ b (a ∷ rows) × (b.ci_id ≡ n))
        → ((key : String) × Memᴰ (n, key) found) ⊎ ((b : AliasKey) × Memᴰ b rows × (b.ci_id ≡ n))
    known key g (inl m) = inl m
    known key g (inr (b, m, e)) = elim (Memᴰ.cases_cons m) [
      | inl s ↦ inl (
        key,
        subst (λ (x : ℕ). Memᴰ (x, key) found) (sym (ap (λ (x : AliasKey). x.ci_id) s) ∙ e)
            (mem_of_get found a.ci_id key g),
      )
      | inr i ↦ inr (b, i, e)
    ]

-- and nothing else.
candidates_of_sound :
    (rows : List AliasKey) (found : List (ℕ × String)) (n : ℕ) (key : String)
    → Memᴰ (n, key) (candidates_of rows found)
    → Memᴰ (n, key) found ⊎ ((a : AliasKey) × Memᴰ a rows × (a.ci_id ≡ n) × (a.alias_key ≡ key))
unfolding candidates_of
candidates_of_sound [] found n key m = inl m
candidates_of_sound (a ∷ rows) found n key m = elim (Bool-cases (has found a.ci_id)) [
  | inl e ↦ elim (candidates_of_sound rows found n key (rw (e, candidates_of) at m)) [
    | inl i ↦ inl i
    | inr (b, i, h, k) ↦ inr (b, Memᴰ.tail i, h, k)
  ]
  | inr e ↦
      elim (candidates_of_sound rows (found ++ (a.ci_id, a.alias_key) ∷ []) n key
        (rw (e, candidates_of) at m)) [
          | inl i ↦ elim (Memᴰ.append_cases found i) [
            | inl j ↦ inl j
            | inr j ↦
                let same = Memᴰ.eq_of_singleton j in
                inr (
                  a,
                  Memᴰ.head refl,
                  sym (ap (λ (p : ℕ × String). p.0) same),
                  sym (ap (λ (p : ℕ × String). p.1) same),
                )
          ]
          | inr (b, i, h, k) ↦ inr (b, Memᴰ.tail i, h, k)
        ]
]

some_injective : {A : Type 0} {a b : A} → some a ≡ some b → a ≡ b
some_injective {a = a} e = ap (λ o. elim o [ none ↦ a | some x ↦ x ]) e

smallest_key-cases :
    (tentative : String) (keys : List String)
    → Memᴰ (smallest_key tentative keys) keys ⊎ (smallest_key tentative keys ≡ tentative)
unfolding smallest_key
smallest_key-cases tentative keys =
    elim (Option-cases (first_row (sort (λ s t. not_after (text_order s t)) keys))) [
      | inl e ↦ inr (rw (e, smallest_key) refl)
      | inr (k, e) ↦ inl (rw (e, smallest_key) ((mem-sort _ k keys).0 (mem-first_row _ k e)))
    ]

module _ {W J : Type 0} (tenant : ℕ) (dci : DiscoveredCi J) (source : String) (s : Tables W J) where
  -- A merge that the alias keys allow without doubt.
  pub record Canonical (c : Ci W J) (key : String) : Type 0 where
    pub stored : Memᴰ c s.cis
    pub owned : c.tenant_id ≡ tenant
    pub open_row : is_open c.valid_to ≡ true
    pub same_type : same_ci_type c.type dci.type ≡ true
    pub witness :
        (a : AliasKey) × Memᴰ a s.alias_keys
        × (is_match tenant (ci_type_value dci.type) source dci.alias_keys a ≡ true)
        × (a.ci_id ≡ c.id)
        × (a.alias_key ≡ key)
    pub no_other :
        select (λ a. not (a.ci_id == c.id)) (matched_rows tenant dci source s.alias_keys) ≡ []

  unmatched :
      (ci_id : ℕ) (tentative : String) (a : AliasKey)
      → candidates_of (matched_rows tenant dci source s.alias_keys) [] ≡ (ci_id, tentative) ∷ []
      → Memᴰ a (matched_rows tenant dci source s.alias_keys)
      → a.ci_id ≡ ci_id
  unmatched ci_id tentative a single m =
      let (key, i) =
        candidates_of_complete (matched_rows tenant dci source s.alias_keys) [] a.ci_id
          (inr (a, m, refl)) in
      ap (λ (p : ℕ × String). p.0) (Memᴰ.eq_of_singleton (subst (Memᴰ (a.ci_id, key)) single i))

  -- the row of the key that was chosen
  chosen :
      (ci_id : ℕ) (tentative : String)
      → candidates_of (matched_rows tenant dci source s.alias_keys) [] ≡ (ci_id, tentative) ∷ []
      → let rows = matched_rows tenant dci source s.alias_keys in
        let key =
          smallest_key tentative (map (λ a. a.alias_key) (select (λ a. a.ci_id == ci_id) rows)) in
        (a : AliasKey) × Memᴰ a rows × (a.ci_id ≡ ci_id) × (a.alias_key ≡ key)
  chosen ci_id tentative single =
      let rows = matched_rows tenant dci source s.alias_keys in
      let own = select (λ (a : AliasKey). a.ci_id == ci_id) rows in
      elim (smallest_key-cases tentative (map (λ a. a.alias_key) own)) [
        | inl m ↦
            let (a, i, e) = (mem-map (λ (a : AliasKey). a.alias_key) own _).0 m in
            let (j, t) = (mem-select (λ (a : AliasKey). a.ci_id == ci_id) rows a).0 i in
            (a, j, (==_iff a.ci_id ci_id).0 t, sym e)
        | inr e ↦
            elim (candidates_of_sound rows [] ci_id tentative
              (subst (Memᴰ (ci_id, tentative)) (sym single) (Memᴰ.head refl))) [
                | inl m ↦ absurd (Memᴰ.not-nil m)
                | inr (a, i, h, k) ↦ (a, i, h, k ∙ sym e)
              ]
      ]

  confirmed :
      (ci_id : ℕ) (tentative : String) (r : Ci W J)
      → candidates_of (matched_rows tenant dci source s.alias_keys) [] ≡ (ci_id, tentative) ∷ []
      → get_current_by_id tenant ci_id s.cis ≡ some r
      → same_ci_type r.type dci.type ≡ true
      → Canonical r (
          smallest_key tentative (
            map
              (λ a. a.alias_key)
              (select (λ a. a.ci_id == ci_id) (matched_rows tenant dci source s.alias_keys))))
  unfolding get_current_by_id
  confirmed ci_id tentative r single e typed =
      let rows = matched_rows tenant dci source s.alias_keys in
      let (stored, test) = (mem-select _ s.cis r).0 (mem-first_row _ r e) in
      let its_id : ci_id ≡ r.id = ground arith in
      let (a, i, h, k) = chosen ci_id tentative single in
      let (j, match) = (mem-select _ s.alias_keys a).0 i in
      record {
        stored = stored;
        owned = ground arith;
        open_row = ground arith;
        same_type = typed;
        witness = (a, j, match, h ∙ its_id, k);
        no_other = no_members _ λ b m.
            let (i, other) = (mem-select (λ (a : AliasKey). not (a.ci_id == r.id)) rows b).0 m in
            differs b.ci_id r.id (unmatched ci_id tentative b single i ∙ its_id) other;
      }
    where
      differs : (m n : ℕ) → m ≡ n → not (m == n) ≡ true → ⊥
      differs m n e h = ground arith

  picked :
      (cs : List (ℕ × String)) (c : Ci W J) (key : String)
      → candidates_of (matched_rows tenant dci source s.alias_keys) [] ≡ cs
      → pick_candidate tenant dci (matched_rows tenant dci source s.alias_keys) s.cis cs
        ≡ some (c, key)
      → Canonical c key
  unfolding pick_candidate confirm
  picked [] c key same done = absurd cc
  picked (p ∷ q ∷ cs) c key same done = absurd cc
  picked ((ci_id, tentative) ∷ []) c key same done =
      elim (Option-cases (get_current_by_id tenant ci_id s.cis)) [
        | inl e ↦ let never = rw (e, pick_candidate, confirm) at done in absurd cc
        | inr (r, e) ↦ elim (Bool-cases (same_ci_type r.type dci.type)) [
          | inr g ↦ let never = rw (e, g, pick_candidate, confirm) at done in absurd cc
          | inl g ↦
              let d = rw (e, g, pick_candidate, confirm) at done in
              subst (λ (p : Ci W J × String). Canonical p.0 p.1) (some_injective d)
                (confirmed ci_id tentative r same e g)
        ]
      ]

  -- A merge target is a current CI of the tenant and of the discovered type, the chosen key is a
  -- listed alias key that another source registered for it under the type, and every alias key
  -- that matches in this way names the same CI.
  pub resolve_canonical_ci-Canonical :
      (c : Ci W J) (key : String)
      → resolve_canonical_ci tenant dci source s ≡ some (c, key)
      → Canonical c key
  unfolding resolve_canonical_ci
  resolve_canonical_ci-Canonical c key done = elim (List-cases dci.alias_keys) [
    | inl e ↦ let never = rw (e, resolve_canonical_ci) at done in absurd cc
    | inr (k, ks, e) ↦
        picked (candidates_of (matched_rows tenant dci source s.alias_keys) []) c key refl
          (rw (e, resolve_canonical_ci) at done)
  ]
