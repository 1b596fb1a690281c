-- ===== src/Model/Equality.antt =====
-- Two edge types with one index are one.
use infra_twin.Prelude.{ℕ, ◌≡◌, ◌↔◌, refl, ap, true, ==_iff, zero, suc, sym, ◌∙◌}
use infra_twin.Model.{
  EdgeType, edge_type_index, same_edge_type, contains, runs_on, connects_to, depends_on, routes_to,
  has_access_to, owns, exposes, member_of, resolves_to,
}

abbrev of_index : ℕ → EdgeType
of_index zero = contains
of_index (suc zero) = runs_on
of_index (suc (suc zero)) = connects_to
of_index (suc (suc (suc zero))) = depends_on
of_index (suc (suc (suc (suc zero)))) = routes_to
of_index (suc (suc (suc (suc (suc zero))))) = has_access_to
of_index (suc (suc (suc (suc (suc (suc zero)))))) = owns
of_index (suc (suc (suc (suc (suc (suc (suc zero))))))) = exposes
of_index (suc (suc (suc (suc (suc (suc (suc (suc zero)))))))) = member_of
of_index _ = resolves_to

of_index_lem : (t : EdgeType) → of_index (edge_type_index t) ≡ t
of_index_lem contains = refl
of_index_lem runs_on = refl
of_index_lem connects_to = refl
of_index_lem depends_on = refl
of_index_lem routes_to = refl
of_index_lem has_access_to = refl
of_index_lem owns = refl
of_index_lem exposes = refl
of_index_lem member_of = refl
of_index_lem resolves_to = refl

pub same_edge_type_iff : (a b : EdgeType) → (same_edge_type a b ≡ true) ↔ (a ≡ b)
same_edge_type_iff a b = (
  λ e. sym (of_index_lem a) ∙ ap of_index ((==_iff _ _).0 e) ∙ of_index_lem b,
  λ e. (==_iff _ _).1 (ap edge_type_index e),
)
