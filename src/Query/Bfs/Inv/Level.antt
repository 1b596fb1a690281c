-- ===== src/Query/Bfs/Inv/Level.antt =====
-- One node, one round and the whole search keep the invariant.
use mathlib.Core.List.Memᴰ
use infra_twin.Prelude.{
  ℕ, zero, suc, ◌+◌, ◌≤◌, ◌≡◌, ◌⊎◌, inl, inr, List, [], ◌∷◌, ◌++◌, Memᴰ, Option, some, none, get,
  arith, Bool-cases, false, foldl, refl, length, get-cons, subst, List-cases,
}
use native.Mathlib.Nat.{zero-add, add-zero}
use infra_twin.Query.Bfs.{
  Search, Supernode, start, pairs, links, offer, report, expand, level, rounds, search, exceeds,
  depth_of,
}
use infra_twin.Query.Bfs.Keys.{capped_whole}
use infra_twin.Query.Bfs.Walk.{here}
use infra_twin.Query.Bfs.Inv.{Inv}
use infra_twin.Query.Bfs.Inv.Offer.{offer-Inv}

module _ {L : Type 0} (neighbors : ℕ → List (ℕ × L)) (max_fanout : Option ℕ) (source : ℕ) where
  abbrev At : ℕ → List ℕ → ℕ → List (ℕ × L) → Search L → Type 0
  At = Inv neighbors max_fanout source

  append_ne_nil {ℓ} : {A : Type ℓ} (xs : List A) (a : A) → ¬ (xs ++ a ∷ [] ≡ [])
  append_ne_nil [] a e = cc
  append_ne_nil (x ∷ xs) a e = cc

  abbrev entry : Search L → ℕ → Supernode
  entry s x = record {
    id = x;
    degree = length (pairs neighbors max_fanout x);
    depth = depth_of s.visited x;
  }

  -- Reporting a supernode changes only the list of supernodes.
  report-cases :
      (s : Search L) (x : ℕ)
      → (n : List Supernode) × (report neighbors max_fanout s x ≡ record s { supernodes = n })
        × (n ≡ []
            → (s.supernodes ≡ [])
              × (exceeds max_fanout (length (pairs neighbors max_fanout x)) ≡ false))
  unfolding report
  report-cases s x =
      elim (Bool-cases (exceeds max_fanout (length (pairs neighbors max_fanout x)))) [
        | inl e ↦ (
          s.supernodes ++ entry s x ∷ [],
          rw (e, report),
          λ z. absurd (append_ne_nil s.supernodes (entry s x) z),
        )
        | inr e ↦ (s.supernodes, rw (e, report), λ z. (z, e))
      ]

  begin :
      (d y x : ℕ) (rest : List ℕ) (s : Search L) (n : List Supernode)
      → (n ≡ []
          → (s.supernodes ≡ [])
            × (exceeds max_fanout (length (pairs neighbors max_fanout x)) ≡ false))
      → At d (x ∷ rest) y [] s
      → At d rest x (links neighbors max_fanout x) (record s { supernodes = n })
  begin d y x rest s n short inv = record {
    sound = inv.sound;
    closed = λ n k m l v le link. elim (inv.closed n k m l v le link) [
      | inl p ↦ elim (Memᴰ.cases_cons p) [ inl e ↦ inr (inl (e, rw (← e) link)) | inr r ↦ inl r ]
      | inr (inl (_, none_left)) ↦ absurd (Memᴰ.not-nil none_left)
      | inr (inr more) ↦ inr (inr more)
    ];
    queued = λ n p. inv.queued n (Memᴰ.tail p);
    current = λ e m. (inv.queued x (Memᴰ.head refl), m);
    fresh = inv.fresh;
    whole = λ n k z v le. elim (inv.whole n k (short z).0 v le) [
      | inl p ↦ elim (Memᴰ.cases_cons p) [
        | inl e ↦ inr (rw e (capped_whole max_fanout (pairs neighbors max_fanout x) (short z).1))
        | inr r ↦ inl r
      ]
      | inr e ↦ inr e
    ];
    found = inv.found;
    origin = inv.origin;
    trail = inv.trail;
    rootless = inv.rootless;
  }

  offers :
      (d x : ℕ) (rest : List ℕ) (todo : List (ℕ × L)) (s : Search L)
      → At d rest x todo s
      → At d rest x [] (foldl (offer (suc d) x) s todo)
  offers d x rest [] s inv = inv
  offers d x rest ((m, l) ∷ todo) s inv =
      offers d x rest todo (offer (suc d) x s (m, l))
        (offer-Inv neighbors max_fanout source d rest x m l todo s inv)

  expand-Inv :
      (d y x : ℕ) (rest : List ℕ) (s : Search L)
      → At d (x ∷ rest) y [] s
      → At d rest x [] (expand neighbors max_fanout (suc d) s x)
  unfolding expand
  expand-Inv d y x rest s inv =
      let (n, e, short) = report-cases s x in
      rw e (
        offers d x rest (links neighbors max_fanout x) (record s { supernodes = n })
          (begin d y x rest s n short inv))

  expands :
      (d y : ℕ) (pending : List ℕ) (s : Search L)
      → At d pending y [] s
      → (x : ℕ) × At d [] x [] (foldl (expand neighbors max_fanout (suc d)) s pending)
  expands d y [] s inv = (y, inv)
  expands d y (x ∷ rest) s inv =
      expands d x rest (expand neighbors max_fanout (suc d) s x) (expand-Inv d y x rest s inv)

  -- Between two rounds: `frontier` holds exactly the nodes at depth `d`.
  pub record Ready (d : ℕ) (frontier : List ℕ) (s : Search L) : Type 0 where
    pub cursor : ℕ
    pub inv : Inv neighbors max_fanout source d frontier cursor [] (record s { next_frontier = [] })

  le_cases : (k d : ℕ) → k ≤ suc d → (k ≤ d) ⊎ (k ≡ suc d)
  le_cases k d h = omega arith

  next_round : (d x : ℕ) (s : Search L) → At d [] x [] s → Ready (suc d) s.next_frontier s
  next_round d x s inv = record {
    cursor = x;
    inv = record {
      sound = λ n k v. let (w, le) = inv.sound n k v in (w, omega arith);
      closed = λ n k m l v le link. elim (le_cases k d le) [
        | inr e ↦ inl ((inv.fresh n).1 (rw (← e) v))
        | inl le' ↦ elim (inv.closed n k m l v le' link) [
          | inl p ↦ absurd (Memᴰ.not-nil p)
          | inr (inl (_, p)) ↦ absurd (Memᴰ.not-nil p)
          | inr (inr more) ↦ inr (inr more)
        ]
      ];
      queued = λ n. (inv.fresh n).0;
      current = λ e m. absurd (Memᴰ.not-nil m);
      fresh = λ n. (
        λ m. absurd (Memᴰ.not-nil m),
        λ v. absurd (let (_, le) = inv.sound n (suc (suc d)) v in omega arith),
      );
      whole = λ n k z v le. elim (le_cases k d le) [
        | inr e ↦ inl ((inv.fresh n).1 (rw (← e) v))
        | inl le' ↦ elim (inv.whole n k z v le') [ inl p ↦ absurd (Memᴰ.not-nil p) | inr e ↦ inr e ]
      ];
      found = inv.found;
      origin = inv.origin;
      trail = inv.trail;
      rootless = inv.rootless;
    };
  }

  level-Ready :
      (d : ℕ) (frontier : List ℕ) (s : Search L)
      → Ready d frontier s
      → let s' = level neighbors max_fanout (suc d) s frontier in Ready (suc d) s'.next_frontier s'
  unfolding level
  level-Ready d frontier s r =
      let (x, inv) = expands d r.cursor frontier (record s { next_frontier = [] }) r.inv in
      next_round d x (level neighbors max_fanout (suc d) s frontier) inv

  -- An empty frontier stays empty, so a search that stops early has seen all depths.
  idle : (left d : ℕ) (s : Search L) → Ready d [] s → Ready (left + d) [] s
  idle zero d s r = rw zero-add r
  idle (suc left) d s r =
      let e : suc left + d ≡ left + suc d = omega arith in
      let r' = next_round d r.cursor (record s { next_frontier = [] }) r.inv in
      rw e (idle left (suc d) s (record { cursor = r'.cursor; inv = r'.inv }))

  pub rounds-Ready :
      (left d : ℕ) (s : Search L) (frontier : List ℕ)
      → Ready d frontier s
      → (f : List ℕ) × Ready (left + d) f (rounds neighbors max_fanout left (suc d) s frontier)
  unfolding rounds
  rounds-Ready zero d s frontier r = (frontier, rw zero-add r)
  rounds-Ready (suc left) d s frontier r =
      let s' = level neighbors max_fanout (suc d) s frontier in
      let r' = level-Ready d frontier s r in
      let e' : suc left + d ≡ left + suc d = omega arith in
      elim (List-cases s'.next_frontier) [
        | inl e ↦
            ([], rw (e', e, rounds) (idle left (suc d) s' (subst (λ f. Ready (suc d) f s') e r')))
        | inr (x, rest, e) ↦
            let (f, done) =
              rounds-Ready left (suc d) s' (x ∷ rest) (subst (λ f. Ready (suc d) f s') e r') in
            (f, rw (e', e, rounds) done)
      ]

  get-nil : {V : Type 0} (n : ℕ) → get {V = V} [] n ≡ none
  unfolding get
  get-nil n = refl

  get_start : (n k : ℕ) → get ((source, 0) ∷ []) n ≡ some k → (n ≡ source) × (k ≡ 0)
  unfolding get
  get_start n k v = ground arith

  start-Ready : Ready 0 (source ∷ []) (start source)
  start-Ready = record {
    cursor = source;
    inv = record {
      sound = λ n k v. let (e, f) = get_start n k v in (rw (e, f) here, omega arith);
      closed = λ n k m l v le link. inl (Memᴰ.head (get_start n k v).0);
      queued = λ n m. let e = Memᴰ.eq_of_singleton m in rw (e, get-cons) (ground arith);
      current = λ e m. absurd (Memᴰ.not-nil m);
      fresh = λ n.
          (λ m. absurd (Memᴰ.not-nil m), λ v. absurd (let (_, e) = get_start n 1 v in omega arith));
      whole = λ n k z v le. inl (Memᴰ.head (get_start n k v).0);
      found = λ n k. (
        λ m. absurd (Memᴰ.not-nil m),
        λ v. absurd (let (_, e) = get_start n k v.0 in omega (arith, v.1)),
      );
      origin = λ n. ((λ v. (get_start n 0 v).0), (λ e. rw (e, get-cons) (ground arith)));
      trail = λ n k v. absurd (let (_, e) = get_start n (suc k) v in omega arith);
      rootless = get-nil source;
    };
  }

  pub search-Ready :
      (max_depth : ℕ)
      → (f : List ℕ) × Ready max_depth f (search neighbors max_fanout source max_depth)
  unfolding search
  search-Ready max_depth =
      let (f, done) = rounds-Ready max_depth 0 (start source) (source ∷ []) start-Ready in
      (f, rw add-zero at done)
