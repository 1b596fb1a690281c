-- ===== src/Db/Tests.antt =====
-- Writes to a table of one CI, and the theorems at them.
mod Edges
use infra_twin.Prelude.{
  ℕ, ◌≡◌, refl, Bool, true, false, Option, none, some, List, [], ◌∷◌, Memᴰ, map, select, arith,
  String,
}
use infra_twin.Float.Fixed.{Fixed, fixed_float, unit, Fixed-laws}
use infra_twin.Model.{Ci, vpc, Edge, depends_on, inferred, Evidence, is_inferred}
use infra_twin.Db.CiRepository.{
  Written, written, refused, duplicate_key, upsert_ci, close_ci, as_of, get_current,
}
use infra_twin.Db.CiRepository.Past.{facts, upsert_ci_past, close_ci_past}
use infra_twin.Db.EdgeRepository.{last_observed_at_of, is_current_edge, write_decayed_version}
use infra_twin.Db.EdgeRepository.Decay.{write_decayed_version_never_raises}
use infra_twin.Db.CiRepository.Current.{upsert_ci_read}

machinery : Unit {0}
unfolding infra_twin.Prelude.select infra_twin.Prelude.Sort.insert infra_twin.Prelude.Sort.sort
    infra_twin.Model.ci_type_value infra_twin.Db.CiRepository.is_valid_at
    infra_twin.Db.CiRepository.has_key infra_twin.Db.CiRepository.is_apart
    infra_twin.Db.CiRepository.get_current infra_twin.Db.CiRepository.as_of
    infra_twin.Db.CiRepository.is_current infra_twin.Db.CiRepository.is_open_version
    infra_twin.Db.CiRepository.close_row infra_twin.Db.CiRepository.touch_row
    infra_twin.Db.CiRepository.close_ci infra_twin.Db.CiRepository.ci_changed
    infra_twin.Db.CiRepository.new_version infra_twin.Db.CiRepository.insert_row
    infra_twin.Db.CiRepository.update_ci infra_twin.Db.CiRepository.upsert_ci
    infra_twin.Db.EdgeRepository.last_observed_at_of infra_twin.Db.EdgeRepository.is_current_edge
    infra_twin.Db.EdgeRepository.close_edge_row infra_twin.Db.EdgeRepository.write_decayed_version
machinery = tt

abbrev named : Option String → ℕ → Option ℕ → Ci Fixed (Unit {0})
named name from until = record {
  id = 1;
  tenant_id = 7;
  type = vpc;
  external_id = "x";
  name = name;
  attributes = tt;
  confidence = unit;
  first_seen = 10;
  last_seen = from;
  valid_from = from;
  valid_to = until;
}

abbrev table : List (Ci Fixed (Unit {0}))
table = named none 10 none ∷ []

abbrev same_unit : Unit {0} → Unit {0} → Bool
same_unit _ _ = true

-- A changed name closes the open version and opens another.
abbrev renamed : List (Ci Fixed (Unit {0}))
renamed = record (named none 10 (some 50)) { last_seen = 10 } ∷ named (some "web") 50 none ∷ []

upsert_renamed :
    upsert_ci same_unit 7 50 (named (some "web") 0 none) table
    ≡ written (named (some "web") 50 none) renamed
unfolding machinery
upsert_renamed = refl

-- A second change in the same transaction meets the primary key.
upsert_twice : upsert_ci same_unit 7 50 (named (some "db") 0 none) renamed ≡ duplicate_key
unfolding machinery
upsert_twice = refl

upsert_foreign : upsert_ci same_unit 8 50 (named (some "db") 0 none) table ≡ refused
unfolding machinery
upsert_foreign = refl

upsert_ci_read_example :
    Memᴰ (named (some "web") 50 none) (get_current 7 (some vpc) (some "x") renamed)
upsert_ci_read_example =
    upsert_ci_read same_unit 7 50 (named (some "web") 0 none) table (named (some "web") 50 none)
      renamed upsert_renamed

abbrev marker : Evidence
marker = record { source = "aws-flowlogs-count"; observed_at = 20; detail = some "1" }

abbrev decay : Evidence
decay = record { source = "inferred-edge-decay"; observed_at = 50; detail = none }

abbrev guessed : Fixed → List Evidence → ℕ → Option ℕ → Edge Fixed
guessed confidence evidence from until = record {
  id = 4;
  tenant_id = 7;
  type = depends_on;
  from_id = 1;
  to_id = 2;
  edge_key = "";
  source = inferred;
  confidence = confidence;
  evidence = evidence;
  valid_from = from;
  valid_to = until;
}

abbrev before : Edge Fixed
before = guessed 600000000000000 (marker ∷ []) 20 none

abbrev weaker : Edge Fixed
weaker = guessed 500000000000000 (marker ∷ decay ∷ []) 50 none

abbrev decayed : List (Edge Fixed)
decayed = guessed 600000000000000 (marker ∷ []) 20 (some 50) ∷ weaker ∷ []

write_decayed :
    write_decayed_version 7 50 before 500000000000000 decay (before ∷ []) ≡ written weaker decayed
unfolding machinery
write_decayed = refl

-- The column keeps fewer digits than the confidence has.
write_decayed_little :
    write_decayed_version 7 50
      (guessed 600000000000000 (marker ∷ []) 20 none)
      599999999999999
      decay
      (before ∷ [])
    ≡ written (guessed 599999900000000 (marker ∷ decay ∷ []) 50 none) (
        guessed 600000000000000 (marker ∷ []) 20 (some 50)
        ∷ guessed 599999900000000 (marker ∷ decay ∷ []) 50 none
        ∷ [])
unfolding machinery
write_decayed_little = refl

-- A confidence that is not lower is refused.
write_raised : write_decayed_version 7 50 before 600000000000000 decay (before ∷ []) ≡ refused
unfolding machinery
write_raised = refl

marker_seen : last_observed_at_of before.evidence ≡ some 20
unfolding machinery
marker_seen = refl

write_decayed_version_never_raises_example :
    (is_inferred before.source ≡ true)
    × (fixed_float.le weaker.confidence before.confidence ≡ true)
    × (last_observed_at_of weaker.evidence ≡ some 20)
    × (select (is_current_edge 7 depends_on 1 2 "") decayed ≡ weaker ∷ [])
write_decayed_version_never_raises_example =
    write_decayed_version_never_raises 7 50 Fixed-laws before 500000000000000 decay (before ∷ [])
      weaker decayed refl write_decayed 20 marker_seen
