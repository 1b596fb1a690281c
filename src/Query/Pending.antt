-- ===== src/Query/Pending.antt =====
-- The loops of reachability.py and whatif.py that resolve the discovered nodes and walk back from
-- each along `predecessor`. What the walk collects is brought into the module's own order and
-- direction by `finish`.
use mathlib.Core.List.Memᴰ
use mathlib.Core.Option
use infra_twin.Prelude.{
  ℕ, ◌≡◌, ◌⊎◌, inl, inr, refl, ap, sym, subst, Option, none, some, List, [], ◌∷◌, ◌++◌, Memᴰ,
  Memᴰ-cons, Dict, get, arith, Option-cases,
}
use infra_twin.Model.{EdgeType}
use infra_twin.Query.Bfs.Trace.{Hop, trace}

-- an item of `sources_pending` or `items_pending`, with the detail that the dictionary has for it
pub record Pending (D : Type 0) : Type 0 where
  pub node : ℕ
  pub distance : ℕ
  pub hops : List (Hop EdgeType)
  pub detail : D

unfoldable pub all_hops : {D : Type 0} → List (Pending D) → List (Hop EdgeType)
all_hops [] = []
all_hops (p ∷ items) = p.hops ++ all_hops items

module _ {D : Type 0} (finish : List (Hop EdgeType) → List (Hop EdgeType)) (details : Dict D)
    (fuel : ℕ) (predecessor : Dict (ℕ × EdgeType)) where
  -- One node: no entry if it is not a current CI. `none` means that the walk ran out of fuel.
  unfoldable pub pending_of : ℕ × ℕ → List (Pending D) → Option (List (Pending D))
  pending_of (node, distance) items = elim (get details node) [
    | none ↦ some items
    | some detail ↦
        Option.map
          (λ hops.
            record { node = node; distance = distance; hops = finish hops; detail = detail }
            ∷ items)
          (trace fuel predecessor node)
  ]

  unfoldable pub pending_items : List (ℕ × ℕ) → Option (List (Pending D))
  pending_items [] = some []
  pending_items (x ∷ discovered) = elim (pending_items discovered) [
    | none ↦ none
    | some items ↦ pending_of x items
  ]

  -- What an item says of its node.
  pub record Resolved (discovered : List (ℕ × ℕ)) (p : Pending D) : Type 0 where
    pub found : Memᴰ (p.node, p.distance) discovered
    pub known : get details p.node ≡ some p.detail
    pub walked :
        (hops : List (Hop EdgeType)) × (trace fuel predecessor p.node ≡ some hops)
        × (p.hops ≡ finish hops)

  pub pending_total :
      (discovered : List (ℕ × ℕ))
      → ((n d : ℕ)
          → Memᴰ (n, d) discovered
          → (hops : List (Hop EdgeType)) × (trace fuel predecessor n ≡ some hops))
      → (items : List (Pending D)) × (pending_items discovered ≡ some items)
  unfolding pending_items pending_of
  pending_total [] walks = ([], refl)
  pending_total ((n, d) ∷ discovered) walks =
      let (items, e) = pending_total discovered (λ m k i. walks m k (Memᴰ.tail i)) in
      let (hops, t) = walks n d (Memᴰ.head refl) in
      elim (Option-cases (get details n)) [
        | inl g ↦ (items, ground arith)
        | inr (detail, g) ↦ (
          record { node = n; distance = d; hops = finish hops; detail = detail } ∷ items,
          ground arith,
        )
      ]

  pending_of-mem :
      (n d : ℕ) (items more : List (Pending D)) (p : Pending D)
      → pending_of (n, d) items ≡ some more
      → Memᴰ p more
      → Memᴰ p items ⊎ Resolved ((n, d) ∷ []) p
  unfolding pending_of
  pending_of-mem n d items more p e m = elim (Option-cases (get details n)) [
    | inl g ↦ inl (ground arith)
    | inr (detail, g) ↦ elim (Option-cases (trace fuel predecessor n)) [
      | inl t ↦ absurd (ground arith)
      | inr (hops, t) ↦
          let made : Pending D = record {
            node = n;
            distance = d;
            hops = finish hops;
            detail = detail;
          } in
          let same : made ∷ items ≡ more = ground arith in
          elim ((Memᴰ-cons p made items).0 (rw same m)) [
            | inr i ↦ inl i
            | inl q ↦ inr (record {
              found = Memᴰ.head (ground arith);
              known = ground arith;
              walked = (hops, ground arith, ground arith);
            })
          ]
    ]
  ]

  pending_of-keeps :
      (n d : ℕ) (items more : List (Pending D)) (p : Pending D)
      → pending_of (n, d) items ≡ some more
      → Memᴰ p items
      → Memᴰ p more
  unfolding pending_of
  pending_of-keeps n d items more p e m = elim (Option-cases (get details n)) [
    | inl g ↦ let q : items ≡ more = ground arith in subst (Memᴰ p) q m
    | inr (detail, g) ↦ elim (Option-cases (trace fuel predecessor n)) [
      | inl t ↦ absurd (ground arith)
      | inr (hops, t) ↦
          let made : Pending D = record {
            node = n;
            distance = d;
            hops = finish hops;
            detail = detail;
          } in
          let q : made ∷ items ≡ more = ground arith in subst (Memᴰ p) q (Memᴰ.tail m)
    ]
  ]

  pending_of-new :
      (n d : ℕ) (items more : List (Pending D)) (detail : D)
      → pending_of (n, d) items ≡ some more
      → get details n ≡ some detail
      → (p : Pending D) × Memᴰ p more × (p.node ≡ n) × (p.distance ≡ d) × (p.detail ≡ detail)
  unfolding pending_of
  pending_of-new n d items more detail e g = elim (Option-cases (trace fuel predecessor n)) [
    | inl t ↦ absurd (ground arith)
    | inr (hops, t) ↦
        let made : Pending D = record {
          node = n;
          distance = d;
          hops = finish hops;
          detail = detail;
        } in
        let q : made ∷ items ≡ more = ground arith in
        (made, subst (Memᴰ made) q (Memᴰ.head refl), refl, refl, refl)
  ]

  pub pending_sound :
      (discovered : List (ℕ × ℕ)) (items : List (Pending D)) (p : Pending D)
      → pending_items discovered ≡ some items
      → Memᴰ p items
      → Resolved discovered p
  unfolding pending_items
  pending_sound [] items p e m =
      let q : [] ≡ items = ground arith in absurd (Memᴰ.not-nil (subst (Memᴰ p) (sym q) m))
  pending_sound ((n, d) ∷ discovered) items p e m = elim (Option-cases (pending_items discovered)) [
    | inl g ↦ absurd (ground arith)
    | inr (old, g) ↦ elim (pending_of-mem n d old items p (rw (g, pending_items) at e) m) [
      | inl i ↦
          let r = pending_sound discovered old p g i in
          record { found = Memᴰ.tail r.found; known = r.known; walked = r.walked }
      | inr r ↦ record {
        found = Memᴰ.head (Memᴰ.eq_of_singleton r.found);
        known = r.known;
        walked = r.walked;
      }
    ]
  ]

  pub pending_complete :
      (discovered : List (ℕ × ℕ)) (items : List (Pending D)) (n d : ℕ) (detail : D)
      → pending_items discovered ≡ some items
      → Memᴰ (n, d) discovered
      → get details n ≡ some detail
      → (p : Pending D) × Memᴰ p items × (p.node ≡ n) × (p.distance ≡ d) × (p.detail ≡ detail)
  unfolding pending_items
  pending_complete [] items n d detail e m g = absurd (Memᴰ.not-nil m)
  pending_complete ((k, c) ∷ discovered) items n d detail e m g =
      elim (Option-cases (pending_items discovered)) [
        | inl h ↦ absurd (ground arith)
        | inr (old, h) ↦
            let e' = rw (h, pending_items) at e in
            elim (Memᴰ.cases_cons m) [
              | inl q ↦
                  let (p, i, a, b, w) =
                    pending_of-new k c old items detail e'
                      (subst (λ z. get details z ≡ some detail) (ap (λ (z : ℕ × ℕ). z.0) q) g) in
                  (p, i, ground arith, ground arith, w)
              | inr i ↦
                  let (p, j, a, b, w) = pending_complete discovered old n d detail h i g in
                  (p, pending_of-keeps k c old items p e' j, a, b, w)
            ]
      ]
