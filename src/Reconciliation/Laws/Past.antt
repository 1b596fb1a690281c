-- ===== src/Reconciliation/Laws/Past.antt =====
-- What a reconciliation leaves of the past.
use infra_twin.Prelude.{ℕ, ◌<◌, ◌≡◌, Bool, Option, List, map, arith, refl, ◌∙◌, ap, subst}
use infra_twin.Float.{Float}
use infra_twin.Model.{Ci, CiType, Edge}
use infra_twin.Db.CiRepository.{Written, written, refused, duplicate_key, as_of}
use infra_twin.Db.CiRepository.Past.{facts, upsert_ci_past, close_ci_past}
use infra_twin.Db.EdgeRepository.{edges_as_of}
use infra_twin.Db.EdgeRepository.Upsert.Past.{edge_facts, upsert_edge_past, close_edge_past}
use infra_twin.Db.Tx.{done, lift_written}
use infra_twin.Db.Tx.Steps.{Steps, Preorder}
use infra_twin.Reconciliation.Tables.{
  Tables, draw_id, move_source_keys, move_alias_keys, write_unmerge, write_ci, write_edge, end_ci,
  end_edge, bind_source_key, register_alias_keys, record_merge, write_graph, write_runs,
  write_facts,
}
use infra_twin.Reconciliation.Laws.{TableLaws, RunLaws, MergeLaws}

-- A statement that always succeeds keeps what its table has.
pub Steps-done :
    {S A : Type 0} {R : S → S → Type 0} (a : S → A) (g : S → S)
    → ((s : S) → R s (g s))
    → Steps R (λ s. done (a s) (g s))
Steps-done {R = R} a g h = record {
  between = λ s b t e. let st : g s ≡ t = ground arith in subst (R s) st (h s);
}

-- A write to one table keeps what holds where it succeeds.
pub Steps-written :
    {S A : Type 0} {R : S → S → Type 0} (put : S → List A → S) (w : S → Written A)
    → ((s : S) (a : A) (table : List A) → w s ≡ written a table → R s (put s table))
    → Steps R (λ s. lift_written (put s) (w s))
Steps-written {A = A} {R = R} put w h = record { between = λ s a t e. lifted s (w s) a t refl e }
  where
    lifted :
        (s : _) (o : Written A) (a : A) (t : _)
        → w s ≡ o
        → lift_written (put s) o ≡ done a t
        → R s t
    lifted s (written row table) a t same e =
        let st : put s table ≡ t = ground arith in subst (R s) st (h s row table same)
    lifted s refused a t same e = cc
    lifted s duplicate_key a t same e = cc

module _ {W J : Type 0} (tenant ts : ℕ) (type : Option CiType) where
  -- Two states of the tables show an earlier time the same, but for the columns that are updated in
  -- place.
  pub record SamePast (s t : Tables W J) : Type 0 where
    pub same_cis : map facts (as_of tenant ts type t.cis) ≡ map facts (as_of tenant ts type s.cis)
    pub same_edges :
        map edge_facts (edges_as_of tenant ts t.edges)
        ≡ map edge_facts (edges_as_of tenant ts s.edges)

  pub unchanged : (s t : Tables W J) → t.cis ≡ s.cis → t.edges ≡ s.edges → SamePast s t
  unchanged s t c e = record {
    same_cis = ap (λ (x : List (Ci W J)). map facts (as_of tenant ts type x)) c;
    same_edges = ap (λ (x : List (Edge W)). map edge_facts (edges_as_of tenant ts x)) e;
  }

  SamePast-Preorder : Preorder SamePast
  SamePast-Preorder = record {
    same = λ s. unchanged s s refl refl;
    then_also = λ s t u h k. record {
      same_cis = k.same_cis ∙ h.same_cis;
      same_edges = k.same_edges ∙ h.same_edges;
    };
  }

module _ {W J : Type 0} (tenant now ts : ℕ) (type : Option CiType) (past : ts < now) where
  pub SamePast-TableLaws :
      ⦃f : Float W⦄ (same_json : J → J → Bool) (draw : ℕ → ℕ)
      → TableLaws same_json draw tenant now (SamePast {W = W} {J = J} tenant ts type)
  unfolding draw_id write_ci write_edge end_ci end_edge bind_source_key register_alias_keys
      record_merge write_graph
  SamePast-TableLaws same_json draw = record {
    preorder = SamePast-Preorder tenant ts type;
    draws = Steps-done _ _ λ s. unchanged tenant ts type s _ refl refl;
    writes_ci = λ ci. Steps-written _ _ λ s out cis e. record {
      same_cis = upsert_ci_past tenant now ts type past same_json ci s.cis out cis e;
      same_edges = refl;
    };
    writes_edge = λ edge. Steps-written _ _ λ s out edges e. record {
      same_cis = refl;
      same_edges = upsert_edge_past tenant now ts past edge s.edges out edges e;
    };
    ends_ci = λ ci_type external_id. Steps-done _ _ λ s. record {
      same_cis = close_ci_past tenant now ts type past ci_type external_id s.cis;
      same_edges = refl;
    };
    ends_edge = λ edge_type from_id to_id key. Steps-done _ _ λ s. record {
      same_cis = refl;
      same_edges = close_edge_past tenant now ts past edge_type from_id to_id key s.edges;
    };
    binds = λ source native_id id. Steps-done _ _ λ s. unchanged tenant ts type s _ refl refl;
    registers =
        λ keys id ci_type source. Steps-done _ _ λ s. unchanged tenant ts type s _ refl refl;
    merges = λ id source external_id key evidence.
        Steps-done _ _ λ s. unchanged tenant ts type s _ refl refl;
    projects =
        λ cis edges closed closed_edges. Steps-done _ _ λ s. unchanged tenant ts type s _ refl refl;
  }

module _ {W J : Type 0} (tenant ts : ℕ) (type : Option CiType) where
  pub SamePast-RunLaws : RunLaws (SamePast {W = W} {J = J} tenant ts type)
  unfolding write_runs write_facts
  SamePast-RunLaws = record {
    runs = λ change. Steps-done _ _ λ s. unchanged tenant ts type s _ refl refl;
    facts = λ change. Steps-done _ _ λ s. unchanged tenant ts type s _ refl refl;
  }

module _ {W J : Type 0} (tenant now ts : ℕ) (type : Option CiType) where
  pub SamePast-MergeLaws : MergeLaws tenant now (SamePast {W = W} {J = J} tenant ts type)
  unfolding move_source_keys move_alias_keys write_unmerge
  SamePast-MergeLaws = record {
    moves_source_keys = λ test id. Steps-done _ _ λ s. unchanged tenant ts type s _ refl refl;
    moves_alias_keys = λ test id. Steps-done _ _ λ s. unchanged tenant ts type s _ refl refl;
    unmerges = λ row. Steps-done _ _ λ s. unchanged tenant ts type s _ refl refl;
  }
