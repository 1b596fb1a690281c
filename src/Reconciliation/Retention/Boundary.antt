-- ===== src/Reconciliation/Retention/Boundary.antt =====
-- The boundary of an entity's closed versions, and the versions behind it.
use mathlib.Core.List.Memᴰ
use infra_twin.Prelude.{
  ℕ, ◌≤◌, ◌<◌, ◌≡◌, ◌↔◌, inl, inr, Bool, true, false, not, none, some, List, [], ◌∷◌, Memᴰ,
  mem-select, mem-map, ◌==◌, ==_iff, ◌&&◌, leb, arith, sym, subst, Option-cases,
}
use infra_twin.Prelude.Sort.{sort, mem-sort, All, IsOrdered, sort-IsOrdered}
use infra_twin.Db.{is_open}
use infra_twin.Db.Policies.{first_row}
use infra_twin.Reconciliation.Retention.{
  VersionRow, Columns, closed_versions, boundary_row, is_expired, collapsible, fetched,
  entity_versions, row_order,
}

abbrev Later : VersionRow → VersionRow → Type 0
Later v w = w.valid_from ≤ v.valid_from

abbrev later : VersionRow → VersionRow → Bool
later v w = leb w.valid_from v.valid_from

All-mem :
    (b : VersionRow) (vs : List VersionRow)
    → All (Later b) vs
    → (v : VersionRow) → Memᴰ v vs
    → Later b v
All-mem b [] h v m = absurd (Memᴰ.not-nil m)
All-mem b (x ∷ xs) h v m = elim (Memᴰ.cases_cons m) [
  | inl e ↦ subst (Later b) (sym e) h.0
  | inr i ↦ All-mem b xs h.1 v i
]

first_latest :
    (vs : List VersionRow)
    → IsOrdered Later vs
    → (b : VersionRow) → first_row vs ≡ some b
    → Memᴰ b vs × ((v : VersionRow) → Memᴰ v vs → Later b v)
first_latest [] h b e = cc
first_latest (x ∷ xs) h b e = (
  Memᴰ.head (ground arith),
  λ v m. elim (Memᴰ.cases_cons m) [
    | inl p ↦ ground arith
    | inr i ↦ let le = All-mem x xs h.0 v i in ground arith
  ],
)

-- The boundary is one of the versions, and none begins after it.
pub boundary_row-latest :
    (closed : List VersionRow) (b : VersionRow)
    → boundary_row closed ≡ some b
    → Memᴰ b closed × ((v : VersionRow) → Memᴰ v closed → v.valid_from ≤ b.valid_from)
unfolding boundary_row
boundary_row-latest closed b e =
    let ordered =
      sort-IsOrdered later Later (λ v w h. ground arith) (λ v w h. ground arith)
        (λ u v w p q. omega arith) closed in
    let (m, most) = first_latest (sort later closed) ordered b e in
    ((mem-sort later b closed).0 m, λ v i. most v ((mem-sort later v closed).1 i))

no_first : (vs : List VersionRow) → first_row vs ≡ none → (v : VersionRow) → ¬ Memᴰ v vs
no_first [] e v m = Memᴰ.not-nil m
no_first (x ∷ xs) e v m = cc

boundary_row-none :
    (closed : List VersionRow) → boundary_row closed ≡ none → (v : VersionRow) → ¬ Memᴰ v closed
unfolding boundary_row
boundary_row-none closed e v m = no_first (sort later closed) e v ((mem-sort later v closed).1 m)

-- The expired versions that a later one follows are the versions to collapse.
pub mem-collapsible :
    (horizon : ℕ) (closed : List VersionRow) (v : VersionRow)
    → Memᴰ v (collapsible horizon closed) ↔ (
        Memᴰ v closed
        × (is_expired horizon v ≡ true)
        × ((c : VersionRow) × Memᴰ c closed × (v.valid_from < c.valid_from)))
unfolding collapsible
mem-collapsible horizon closed v = elim (Option-cases (boundary_row closed)) [
  | inl e ↦
      rw (e, collapsible)
        (λ m. absurd (Memᴰ.not-nil m), λ m. absurd (boundary_row-none closed e v m.0))
  | inr (b, e) ↦
      let (at, most) = boundary_row-latest closed b e in
      let test =
        mem-select (λ v. is_expired horizon v && not (v.valid_from == b.valid_from)) closed v in
      rw (e, collapsible)
        (
          λ m.
              let (i, p) = test.0 m in
              let le = most v i in (i, ground arith, (b, at, ground arith)),
          λ m. let (i, p, (c, j, lt)) = m in let le = most c j in test.1 (i, ground arith),
        )
]

module _ {A : Type 0} (cols : Columns A) (tenant_id : ℕ) where
  -- A closed version of the entity is what a closed row of the tenant shows.
  pub mem-closed_versions :
      (table : List A) (entity_id : ℕ) (v : VersionRow)
      → Memᴰ v (closed_versions (entity_versions (fetched cols tenant_id table) entity_id)) ↔ (
          (r : A) × Memᴰ r table
          × (cols.owner r ≡ tenant_id)
          × (v ≡ cols.detail r)
          × (v.id ≡ entity_id)
          × (is_open v.valid_to ≡ false))
  unfolding closed_versions entity_versions fetched
  mem-closed_versions table entity_id v = (
    λ m.
        let (m1, open_no) = (mem-select (λ v. not (is_open v.valid_to)) _ v).0 m in
        let (m2, same) = (mem-select (λ v. v.id == entity_id) _ v).0 m1 in
        let (r, m3, e) = (mem-map cols.detail _ v).0 ((mem-sort row_order v _).0 m2) in
        let (m4, own) = (mem-select (λ r. cols.owner r == tenant_id) table r).0 m3 in
        (r, m4, (==_iff _ _).0 own, e, (==_iff _ _).0 same, ground arith),
    λ h.
        let (r, m, own, e, same, closed) = h in
        let m1 = (mem-select (λ r. cols.owner r == tenant_id) table r).1 (m, (==_iff _ _).1 own) in
        let m2 = (mem-sort row_order v _).1 ((mem-map cols.detail _ v).1 (r, m1, e)) in
        let m3 = (mem-select (λ v. v.id == entity_id) _ v).1 (m2, (==_iff _ _).1 same) in
        (mem-select (λ v. not (is_open v.valid_to)) _ v).1 (m3, ground arith),
  )
