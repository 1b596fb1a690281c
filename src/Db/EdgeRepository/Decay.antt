-- ===== src/Db/EdgeRepository/Decay.antt =====
-- What the decay of an edge writes.
use infra_twin.Prelude.{
  ℕ, ◌≡◌, inr, true, false, none, some, List, [], ◌∷◌, ◌++◌, subst, sym, refl, select, Bool-cases,
  text_eq, inl,
}
use infra_twin.Float.{Float, FloatLaws}
use infra_twin.Model.{Edge, Evidence, is_inferred}
use infra_twin.Db.CiRepository.{written}
use infra_twin.Db.EdgeRepository.{last_observed_at_of, is_current_edge, write_decayed_version}
use infra_twin.Db.EdgeRepository.Upsert.{insert_edge}
use infra_twin.Db.EdgeRepository.Upsert.Inserted.{insert_edge-Inserted, found_next}

last_observed_at_of-append :
    (evidence more : List Evidence) (t : ℕ)
    → last_observed_at_of evidence ≡ some t
    → last_observed_at_of (evidence ++ more) ≡ some t
unfolding last_observed_at_of
last_observed_at_of-append [] more t h = cc
last_observed_at_of-append (ev ∷ evidence) more t h =
    elim (Bool-cases (text_eq ev.source "aws-flowlogs-count")) [
      | inl e ↦ rw (e, last_observed_at_of) (rw (e, last_observed_at_of) at h)
      | inr e ↦
          rw (e, last_observed_at_of)
            (last_observed_at_of-append evidence more t (rw (e, last_observed_at_of) at h))
    ]

-- A lower value, of which less than the one before may reach the column, is not stored as a higher.
single_le :
    {W : Type 0} ⦃f : Float W⦄
    → FloatLaws W
    → (x c : W) → f.single x ≡ x
    → f.le x c ≡ false
    → f.le (f.single c) x ≡ true
single_le ⦃f⦄ laws x c stored g = elim (laws.le_total c x) [
  | inl h ↦ subst (λ y. f.le (f.single c) y ≡ true) stored (laws.single_mono c x h)
  | inr h ↦ absurd cc
]

module _ {W : Type 0} ⦃f : Float W⦄ (tenant now : ℕ) where
  -- Under the laws of floats, for an edge whose confidence is one that the column holds and which
  -- has a count marker: a decay that succeeds was of an inferred edge and returns a version of no
  -- higher confidence, with the same time of the last observation. That version is now the only
  -- open row of the pair.
  pub write_decayed_version_never_raises :
      FloatLaws W
      → (current : Edge W) (c : W) (ev : Evidence) (table : List (Edge W)) (out : Edge W)
        (after : List (Edge W))
      → f.single current.confidence ≡ current.confidence
      → write_decayed_version tenant now current c ev table ≡ written out after
      → (t : ℕ) → last_observed_at_of current.evidence ≡ some t
      → (is_inferred current.source ≡ true)
        × (f.le out.confidence current.confidence ≡ true)
        × (last_observed_at_of out.evidence ≡ some t)
        × (select
              (is_current_edge current.tenant_id current.type current.from_id current.to_id
                current.edge_key)
              after
            ≡ out ∷ [])
  unfolding write_decayed_version insert_edge
  write_decayed_version_never_raises laws current c ev table out after stored done t seen =
      elim (Bool-cases (is_inferred current.source)) [
        | inr e ↦ let never = rw (e, write_decayed_version) at done in absurd cc
        | inl e ↦ elim (Bool-cases (f.le current.confidence c)) [
          | inl g ↦ let never = rw (e, g, write_decayed_version) at done in absurd cc
          | inr g ↦
              let row = record current {
                confidence = f.single c;
                evidence = current.evidence ++ ev ∷ [];
                valid_from = now;
                valid_to = none;
              } in
              let ins =
                insert_edge-Inserted row _ out after (rw (e, g, write_decayed_version) at done) in
              let same = sym ins.is_row in
              (
                e,
                subst (λ (r : Edge W). f.le r.confidence current.confidence ≡ true) same
                    (single_le laws current.confidence c stored g),
                subst (λ (r : Edge W). last_observed_at_of r.evidence ≡ some t) same
                    (last_observed_at_of-append current.evidence (ev ∷ []) t seen),
                found_next row _ out after refl ins,
              )
        ]
      ]
