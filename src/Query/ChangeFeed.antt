-- ===== src/Query/ChangeFeed.antt =====
-- services/query change_feed.py: the two statements, each a pass over the rows that the session
-- sees, and the sort by time, newest first. A row's `type` is kept with the kind of entity.
pub mod Window
use infra_twin.Prelude.{
  ℕ, Bool, true, false, String, Option, none, some, List, [], ◌∷◌, ◌++◌, select, gather, leb, ltb,
  ◌==◌, ◌&&◌, ◌||◌, not, if◌then◌else◌,
}
use infra_twin.Prelude.Sort.{sort}
use infra_twin.Model.{Ci, CiType, Edge, EdgeType}
use infra_twin.Db.{Conn}

pub data Kind : Type 0 where
  created updated removed : Kind

-- `entity` and `type`, with the fields that only one of the two entities has
pub data Subject : Type 0 where
  ci : CiType → Option String → Subject
  edge : EdgeType → ℕ → ℕ → Subject

pub record ChangeEvent : Type 0 where
  pub kind : Kind
  pub at : ℕ
  pub id : ℕ
  pub subject : Subject

-- a version of either table, as far as the statements read it
pub record Version : Type 0 where
  pub id : ℕ
  pub valid_from : ℕ
  pub valid_to : Option ℕ
  pub subject : Subject

unfoldable pub in_window : ℕ → ℕ → ℕ → Bool
in_window since until t = leb since t && ltb t until

-- `p.valid_to = c.valid_from`, which NULL does not satisfy
unfoldable pub closed_at : ℕ → Option ℕ → Bool
closed_at t none = false
closed_at t (some u) = u == t

-- `EXISTS (SELECT 1 FROM ... p WHERE p.id = c.id AND p.valid_to = c.valid_from)`
unfoldable pub has_prior : List Version → Version → Bool
has_prior [] c = false
has_prior (p ∷ rows) c = (p.id == c.id && closed_at c.valid_from p.valid_to) || has_prior rows c

-- `EXISTS (SELECT 1 FROM ... s WHERE s.id = c.id AND s.valid_from = c.valid_to)`
unfoldable pub has_successor : List Version → ℕ → ℕ → Bool
has_successor [] id t = false
has_successor (s ∷ rows) id t = (s.id == id && s.valid_from == t) || has_successor rows id t

module _ (rows : List Version) (since until : ℕ) where
  -- the first half of the UNION
  unfoldable pub opened_event : Version → Option ChangeEvent
  unfolding in_window
  opened_event c =
      if in_window since until c.valid_from
      then some (record {
        kind = if has_prior rows c then updated else created;
        at = c.valid_from;
        id = c.id;
        subject = c.subject;
      })
      else none

  -- the second half
  unfoldable pub closed_event : Version → Option ChangeEvent
  unfolding in_window
  closed_event c = elim c.valid_to [
    | none ↦ none
    | some t ↦
        if in_window since until t && not (has_successor rows c.id t)
        then some (record { kind = removed; at = t; id = c.id; subject = c.subject })
        else none
  ]

  unfoldable pub table_events : List ChangeEvent
  table_events = gather opened_event rows ++ gather closed_event rows

unfoldable pub newest_first : ChangeEvent → ChangeEvent → Bool
newest_first e g = leb g.at e.at

module _ {W J : Type 0} where
  unfoldable pub ci_versions : Conn W J → List Version
  ci_versions conn =
      gather
        (λ r.
          if r.tenant_id == conn.tenant
          then some (record {
            id = r.id;
            valid_from = r.valid_from;
            valid_to = r.valid_to;
            subject = ci r.type r.name;
          })
          else none)
        conn.cis

  unfoldable pub edge_versions : Conn W J → List Version
  edge_versions conn =
      gather
        (λ r.
          if r.tenant_id == conn.tenant
          then some (record {
            id = r.id;
            valid_from = r.valid_from;
            valid_to = r.valid_to;
            subject = edge r.type r.from_id r.to_id;
          })
          else none)
        conn.edges

  -- with `since` and `until` given
  unfoldable pub change_feed : Conn W J → ℕ → ℕ → List ChangeEvent
  change_feed conn since until =
      sort newest_first (
        table_events (ci_versions conn) since until
        ++ table_events (edge_versions conn) since until)
