-- ===== src/Db/Rows.antt =====
-- What the statements on rows return.
use mathlib.Core.List.Memᴰ
use infra_twin.Prelude.{
  ℕ, ◌≡◌, ◌↔◌, ◌⊎◌, inl, inr, Bool, true, none, some, List, [], ◌∷◌, Memᴰ, Memᴰ-cons, Dict, get,
  foldl, select, mem-select, ◌==◌, ==_iff, ◌&&◌, arith, refl, get-cons, Bool-cases,
}
use infra_twin.Model.{Ci}
use infra_twin.Db.{Conn, current_cis, is_open, dict_of, any_of}

pub any_of-mem : (ids : List ℕ) (x : ℕ) → Memᴰ x ids → any_of ids x ≡ true
unfolding any_of
any_of-mem [] x m = absurd (Memᴰ.not-nil m)
any_of-mem (i ∷ ids) x m = ground (arith, any_of-mem ids x, Memᴰ-cons x i ids)

module _ {W J : Type 0} where
  -- A current row is an open row of the session's tenant.
  pub mem-current_cis :
      (conn : Conn W J) (r : Ci W J)
      → Memᴰ r (current_cis conn)
        ↔ (Memᴰ r conn.cis × (r.tenant_id ≡ conn.tenant) × (r.valid_to ≡ none))
  unfolding current_cis
  mem-current_cis conn r = ground (
    arith,
    mem-select (λ (r : Ci W J). r.tenant_id == conn.tenant && is_open r.valid_to) conn.cis r,
  )

module _ {ℓ κ} {A : Type ℓ} {V : Type κ} (key : A → ℕ) (value : A → V) where
  abbrev insert_row : Dict V → A → Dict V
  insert_row m r = (key r, value r) ∷ m

  fold_sound :
      (rows : List A) (m : Dict V) (n : ℕ) (v : V)
      → get (foldl insert_row m rows) n ≡ some v
      → (get m n ≡ some v) ⊎ ((r : A) × Memᴰ r rows × (key r ≡ n) × (value r ≡ v))
  fold_sound [] m n v e = inl e
  fold_sound (r ∷ rows) m n v e = elim (fold_sound rows (insert_row m r) n v e) [
    | inr (s, i, h, g) ↦ inr (s, Memᴰ.tail i, h, g)
    | inl g ↦ elim (Bool-cases (key r == n)) [
      | inl yes_key ↦ inr (
        r,
        Memᴰ.head refl,
        (==_iff (key r) n).0 yes_key,
        ground (arith, get-cons m (key r) n (value r)),
      )
      | inr no_key ↦ inl (ground (arith, get-cons m (key r) n (value r)))
    ]
  ]

  -- An entry of the dictionary comes from a row.
  pub dict_of_sound :
      (rows : List A) (n : ℕ) (v : V)
      → get (dict_of key value rows) n ≡ some v
      → (r : A) × Memᴰ r rows × (key r ≡ n) × (value r ≡ v)
  unfolding dict_of get
  dict_of_sound rows n v e = elim (fold_sound rows [] n v e) [ inl e ↦ cc | inr h ↦ h ]

  fold_select :
      (p : A → Bool) (rows : List A) (m k : Dict V) (n : ℕ)
      → ((r : A) → key r ≡ n → p r ≡ true)
      → get m n ≡ get k n
      → get (foldl insert_row m (select p rows)) n ≡ get (foldl insert_row k rows) n
  unfolding select
  fold_select p [] m k n keeps e = e
  fold_select p (r ∷ rows) m k n keeps e = elim (Bool-cases (p r)) [
    | inl kept ↦
        rw (kept, select)
          (fold_select p rows (insert_row m r) (insert_row k r) n keeps
            (rw (get-cons m (key r) n (value r), get-cons k (key r) n (value r), e) refl))
    | inr dropped ↦
        rw (dropped, select)
          (fold_select p rows m (insert_row k r) n keeps
            (ground (arith, keeps r, get-cons k (key r) n (value r))))
  ]

  -- A filter that keeps the rows of a key does not change what the dictionary says of it.
  pub dict_of-select :
      (p : A → Bool) (rows : List A) (n : ℕ)
      → ((r : A) → key r ≡ n → p r ≡ true)
      → get (dict_of key value (select p rows)) n ≡ get (dict_of key value rows) n
  unfolding dict_of
  dict_of-select p rows n keeps = fold_select p rows [] [] n keeps refl
