-- ===== src/Query/ChangeFeed/Window.antt =====
-- What the change feed lists.
use infra_twin.Prelude.{
  ℕ, ◌≤◌, ◌<◌, ◌≡◌, ◌↔◌, ◌⊎◌, inl, inr, ⊎_elim, Bool, true, false, none, some, List, [], ◌∷◌, Memᴰ,
  Memᴰ-append, mem-gather, arith, refl, ◌&&◌, if◌then◌else◌, not, sym, ap, ◌∙◌, Option-cases,
  Bool-cases,
}
use mathlib.Core.List.Memᴰ
use infra_twin.Prelude.Sort.{mem-sort, IsOrdered, sort-IsOrdered}
use infra_twin.Db.{Conn}
use infra_twin.Query.ChangeFeed.{
  Kind, created, updated, removed, ChangeEvent, Version, in_window, closed_at, has_prior,
  has_successor, opened_event, closed_event, table_events, newest_first, ci_versions, edge_versions,
  change_feed,
}

-- A version that another of the same entity follows without a gap.
abbrev pub Follows : List Version → ℕ → ℕ → Type 0
Follows rows id t = (s : Version) × Memᴰ s rows × (s.id ≡ id) × (s.valid_from ≡ t)

-- A version that another of the same entity precedes without a gap.
abbrev pub Precedes : List Version → ℕ → ℕ → Type 0
Precedes rows id t = (p : Version) × Memᴰ p rows × (p.id ≡ id) × (p.valid_to ≡ some t)

has_successor_iff :
    (rows : List Version) (id t : ℕ) → (has_successor rows id t ≡ true) ↔ Follows rows id t
unfolding has_successor
has_successor_iff [] id t = (λ e. cc, λ h. absurd (Memᴰ.not-nil h.1))
has_successor_iff (s ∷ rows) id t = (
  λ e. elim (split e) [
    | inl h ↦ (s, Memᴰ.head refl, h.0, h.1)
    | inr h ↦ let (u, i, a, b) = (has_successor_iff rows id t).0 h in (u, Memᴰ.tail i, a, b)
  ],
  λ h.
      let (u, i, a, b) = h in
      elim (Memᴰ.cases_cons i) [
        | inl q ↦ ground arith
        | inr j ↦ ground (arith, (has_successor_iff rows id t).1 (u, j, a, b))
      ],
)
  where
    split :
        has_successor (s ∷ rows) id t ≡ true
        → ((s.id ≡ id) × (s.valid_from ≡ t)) ⊎ (has_successor rows id t ≡ true)
    split e = ground arith

has_prior_iff :
    (rows : List Version) (c : Version)
    → (has_prior rows c ≡ true) ↔ Precedes rows c.id c.valid_from
unfolding has_prior closed_at
has_prior_iff [] c = (λ e. cc, λ h. absurd (Memᴰ.not-nil h.1))
has_prior_iff (p ∷ rows) c = (
  λ e. elim (split e) [
    | inl h ↦ (p, Memᴰ.head refl, h.0, h.1)
    | inr h ↦ let (u, i, a, b) = (has_prior_iff rows c).0 h in (u, Memᴰ.tail i, a, b)
  ],
  λ h.
      let (u, i, a, b) = h in
      elim (Memᴰ.cases_cons i) [
        | inl q ↦ ground arith
        | inr j ↦ ground (arith, (has_prior_iff rows c).1 (u, j, a, b))
      ],
)
  where
    split :
        has_prior (p ∷ rows) c ≡ true
        → ((p.id ≡ c.id) × (p.valid_to ≡ some c.valid_from)) ⊎ (has_prior rows c ≡ true)
    split e = ground arith

kind_iff :
    (b : Bool) {P : Type 0} (k : Kind)
    → (b ≡ true) ↔ P
    → ((if b then updated else created) ≡ k) ↔ ((k ≡ updated) × P ⊎ (k ≡ created) × ¬ P)
kind_iff true k iff = (
  λ e. inl (ground arith, iff.0 refl),
  ⊎_elim (λ h. ground arith) (λ h. absurd (h.1 (iff.0 refl))),
)
kind_iff false k iff = (
  λ e. inr (ground arith, λ p. absurd (let q = iff.1 p in cc)),
  ⊎_elim (λ h. absurd (let q = iff.1 h.1 in cc)) (λ h. ground arith),
)

module _ (rows : List Version) (since until : ℕ) where
  -- The event of a version that was opened in the window.
  abbrev pub Opened : ChangeEvent → Version → Type 0
  Opened e c =
      (e.id ≡ c.id)
      × (e.subject ≡ c.subject)
      × (e.at ≡ c.valid_from)
      × (since ≤ e.at)
      × (e.at < until)
      × ((e.kind ≡ updated) × Precedes rows c.id c.valid_from
          ⊎ (e.kind ≡ created) × ¬ Precedes rows c.id c.valid_from)

  -- The event of a version that was closed in the window for good.
  abbrev pub Closed : ChangeEvent → Version → Type 0
  Closed e c =
      (e.id ≡ c.id)
      × (e.subject ≡ c.subject)
      × (c.valid_to ≡ some e.at)
      × (since ≤ e.at)
      × (e.at < until)
      × (e.kind ≡ removed)
      × ¬ Follows rows c.id e.at

  Opened-iff :
      (e : ChangeEvent) (c : Version) → (opened_event rows since until c ≡ some e) ↔ Opened e c
  unfolding opened_event in_window
  Opened-iff e c =
      let kinds = kind_iff (has_prior rows c) e.kind (has_prior_iff rows c) in
      (
        λ h. (
          ground arith,
          ground arith,
          ground arith,
          ground arith,
          ground arith,
          kinds.0 (ground arith),
        ),
        λ h. let k = kinds.1 h.5 in ground (arith, k, h.0, h.1, h.2, h.3, h.4),
      )

  emitted_iff :
      (e : ChangeEvent) (c : Version) (t : ℕ) (followed : Bool)
      → ((if in_window since until t && not followed
            then some (record { kind = removed; at = t; id = c.id; subject = c.subject })
            else none)
          ≡ some e)
        ↔ ((e.id ≡ c.id)
            × (e.subject ≡ c.subject)
            × (t ≡ e.at)
            × (since ≤ e.at)
            × (e.at < until)
            × (e.kind ≡ removed)
            × (followed ≡ false))
  unfolding in_window
  emitted_iff e c t true = (λ h. ground arith, λ h. cc)
  emitted_iff e c t false = (λ h. ground arith, λ h. ground arith)

  not-Follows :
      (c : Version) (t : ℕ) → (has_successor rows c.id t ≡ false) ↔ (¬ Follows rows c.id t)
  not-Follows c t = (
    λ e s. absurd (let k = (has_successor_iff rows c.id t).1 s in cc),
    λ n. elim (Bool-cases (has_successor rows c.id t)) [
      | inl k ↦ absurd (n ((has_successor_iff rows c.id t).0 k))
      | inr k ↦ k
    ],
  )

  Closed-iff :
      (e : ChangeEvent) (c : Version) → (closed_event rows since until c ≡ some e) ↔ Closed e c
  unfolding closed_event
  Closed-iff e c = elim (Option-cases c.valid_to) [
    | inl v ↦ (
      λ h. absurd (let h' = rw (v, closed_event) at h in cc),
      λ h. absurd (let v' = sym v ∙ h.2 in cc),
    )
    | inr (t, v) ↦
        let k = emitted_iff e c t (has_successor rows c.id t) in
        (
          λ h.
              let (a, b, d, lo, hi, r, n) = k.0 (rw (v, closed_event) at h) in
              (a, b, v ∙ ap some d, lo, hi, r, (not-Follows c e.at).0 (rw d at n)),
          λ h.
              let (a, b, v', lo, hi, r, n) = h in
              let d : t ≡ e.at = cc in
              rw (v, closed_event) (k.1 (a, b, d, lo, hi, r, rw d ((not-Follows c e.at).1 n))),
        )
  ]

  table_iff :
      (e : ChangeEvent)
      → Memᴰ e (table_events rows since until)
        ↔ ((c : Version) × Memᴰ c rows × (Opened e c ⊎ Closed e c))
  unfolding table_events
  table_iff e = (
    λ m. elim ((Memᴰ-append e _ _).0 m) [
      | inl o ↦
          let (c, i, q) = (mem-gather (opened_event rows since until) rows e).0 o in
          (c, i, inl ((Opened-iff e c).0 q))
      | inr o ↦
          let (c, i, q) = (mem-gather (closed_event rows since until) rows e).0 o in
          (c, i, inr ((Closed-iff e c).0 q))
    ],
    λ h. elim h.2 [
      | inl o ↦
          (Memᴰ-append e _ _).1 (inl ((mem-gather _ rows e).1 (h.0, h.1, (Opened-iff e h.0).1 o)))
      | inr o ↦
          (Memᴰ-append e _ _).1 (inr ((mem-gather _ rows e).1 (h.0, h.1, (Closed-iff e h.0).1 o)))
    ],
  )

module _ {W J : Type 0} (conn : Conn W J) (since until : ℕ) where
  -- The events of one table.
  abbrev pub Listed : List Version → ChangeEvent → Type 0
  Listed rows e =
      (c : Version) × Memᴰ c rows × (Opened rows since until e c ⊎ Closed rows since until e c)

  -- An event is listed exactly when a version that the session sees was opened in the window,
  -- "updated" if it follows another without a gap and "created" if not, or was closed in the window
  -- and none follows it.
  pub change_feed_iff :
      (e : ChangeEvent)
      → Memᴰ e (change_feed conn since until)
        ↔ (Listed (ci_versions conn) e ⊎ Listed (edge_versions conn) e)
  unfolding change_feed
  change_feed_iff e =
      let cis = table_iff (ci_versions conn) since until e in
      let edges = table_iff (edge_versions conn) since until e in
      (
        λ m.
            ⊎_elim (λ o. inl (cis.0 o)) (λ o. inr (edges.0 o))
              ((Memᴰ-append e _ _).0 ((mem-sort newest_first e _).0 m)),
        λ h.
            (mem-sort newest_first e _).1
              ((Memᴰ-append e _ _).1 (⊎_elim (λ o. inl (cis.1 o)) (λ o. inr (edges.1 o)) h)),
      )

  Listed-window :
      (rows : List Version) (e : ChangeEvent) → Listed rows e → (since ≤ e.at) × (e.at < until)
  Listed-window rows e (c, i, inl o) = (o.3, o.4)
  Listed-window rows e (c, i, inr o) = (o.3, o.4)

  -- Every event lies in the half-open window, and newer events come first.
  pub change_feed_window :
      ((e : ChangeEvent) → Memᴰ e (change_feed conn since until) → (since ≤ e.at) × (e.at < until))
      × IsOrdered (λ e g. g.at ≤ e.at) (change_feed conn since until)
  unfolding change_feed newest_first
  change_feed_window = (
    λ e m. ⊎_elim (Listed-window _ e) (Listed-window _ e) ((change_feed_iff e).0 m),
    sort-IsOrdered newest_first (λ e g. g.at ≤ e.at) (λ e g h. ground arith) (λ e g h. ground arith)
        (λ a b c p q. omega arith) _,
  )
