-- ===== src/Db.antt =====
-- packages/db: what a session sees of the database. A statement of the source is a pass over the
-- rows of its table. Row-Level Security (session.py and the migrations) shows a session only the
-- rows of its tenant; the graph of Apache AGE has no such policy, so the queries on it test the
-- tenant themselves.
pub mod Graph
pub mod Rows
pub mod Runs
pub mod Policies
pub mod CiRepository
pub mod EdgeRepository
pub mod Tx
pub mod Connectors
mod Tests
use infra_twin.Prelude.{
  ℕ, Bool, true, false, Option, none, some, List, [], ◌∷◌, Dict, foldl, select, ◌==◌, ◌&&◌, ◌||◌,
}
use infra_twin.Model.{Ci, Edge, EdgeType}

-- A relationship of the AGE graph, the projection of an edge.
pub record Relationship (W : Type 0) : Type 0 where
  pub start : ℕ
  pub end : ℕ
  pub type : EdgeType
  pub tenant_id : ℕ
  pub confidence : W

pub record Conn (W J : Type 0) : Type 0 where
  -- `app.tenant_id`, which `tenant_session` sets for the transaction
  pub tenant : ℕ
  pub cis : List (Ci W J)
  pub edges : List (Edge W)
  pub graph : List (Relationship W)

abbrev pub is_open : Option ℕ → Bool
is_open none = true
is_open (some _) = false

module _ {W J : Type 0} where
  -- `FROM cis WHERE valid_to IS NULL`, under Row-Level Security
  unfoldable pub current_cis : Conn W J → List (Ci W J)
  current_cis conn = select (λ r. r.tenant_id == conn.tenant && is_open r.valid_to) conn.cis

  unfoldable pub current_edges : Conn W J → List (Edge W)
  current_edges conn = select (λ r. r.tenant_id == conn.tenant && is_open r.valid_to) conn.edges

-- `{str(r[0]): … for r in rows}`: of two rows with one key the later stays.
unfoldable pub dict_of {ℓ κ} : {A : Type ℓ} {V : Type κ} → (A → ℕ) → (A → V) → List A → Dict V
dict_of key value rows = foldl (λ m r. (key r, value r) ∷ m) [] rows

-- `WHERE id = ANY(ids)`
unfoldable pub any_of : List ℕ → ℕ → Bool
any_of [] x = false
any_of (i ∷ ids) x = i == x || any_of ids x
