-- ===== src/Analysis/Routes/Completion.antt =====
-- The rows that a run over stored sources comes to.
use legal_bridge.Prelude.{
  suc, ◌+◌, true, Option, some, List, [], ◌∷◌, ◌≡◌, refl, ap, ◌∙◌, any, find, length,
}
use legal_bridge.Store.Schema.{
  Uuid, admin, attorney, role_eq, AnalysisRun, LegalCase, LegalAuthority, Db,
}
use legal_bridge.Store.Session.{ok, request, Result}
use legal_bridge.Config.{Settings, Provider}
use legal_bridge.Auth.Principal.{Principal, require_roles}
use legal_bridge.Cases.{is_case}
use legal_bridge.Analysis.Patterns.{Python}
use legal_bridge.Analysis.Observations.{Source, load_sources}
use legal_bridge.Analysis.Authorities.{ensure_synthetic_authorities, Scores}
use legal_bridge.Analysis.Authorities.Corpus.{two_authorities}
use legal_bridge.Analysis.Rows.{Call}
use legal_bridge.Analysis.Run.{
  with_results, with_motion, with_completion, analysed_run, analyse, analyse_sources,
  run_case_analysis,
}
use legal_bridge.Analysis.Routes.{
  Clock, call_of, chosen_provider, analysis_runner, create_analysis_run,
}

module _ (python : Python) (scores : Scores) (call : Call) (db : Db) (legal_case : LegalCase)
    (source : Source) (sources : List Source) where
  abbrev pub seeded : List LegalAuthority × Db
  seeded = ensure_synthetic_authorities python call.organization_id (λ n. call.fresh (20 + n)) db

  -- The rows behind a run.
  unfoldable pub analysed : List LegalAuthority → LegalAuthority → LegalAuthority → Db
  unfolding with_results with_motion with_completion
  analysed authorities a b =
      with_completion python scores call Provider.deterministic (suc (length sources)) (
        with_motion python scores call legal_case source sources a b
          (with_results python scores call authorities source sources seeded.1))

  -- What is left to run once the case, the sources and the authorities are there.
  analysed_from : List LegalAuthority → Result AnalysisRun × Db
  unfolding analyse
  analysed_from authorities =
      let (r, s) =
        analyse python scores call Provider.deterministic legal_case source sources authorities
          (record { committed = db; working = seeded.1 }) in
      (r, s.committed)

  run_start :
      find (is_case call.organization_id call.case_id) db.cases ≡ some legal_case
      → load_sources call.organization_id call.case_id db ≡ source ∷ sources
      → request (run_case_analysis python scores call Provider.deterministic) db
        ≡ analysed_from seeded.0
  unfolding run_case_analysis analyse_sources analysed_from
  run_start found loaded = rw (found, loaded) refl

  analysed_end :
      (a b : LegalAuthority) (rest : List LegalAuthority)
      → analysed_from (a ∷ b ∷ rest)
        ≡ (ok (analysed_run python scores call Provider.deterministic), analysed (a ∷ b ∷ rest) a b)
  unfolding analysed_from analyse analysed
  analysed_end a b rest = refl

  run_done :
      (a b : LegalAuthority) (rest : List LegalAuthority)
      → find (is_case call.organization_id call.case_id) db.cases ≡ some legal_case
      → load_sources call.organization_id call.case_id db ≡ source ∷ sources
      → seeded.0 ≡ a ∷ b ∷ rest
      → request (run_case_analysis python scores call Provider.deterministic) db
        ≡ (ok (analysed_run python scores call Provider.deterministic), analysed (a ∷ b ∷ rest) a b)
  run_done a b rest found loaded two =
      run_start found loaded ∙ ap analysed_from two ∙ analysed_end a b rest

module _ (python : Python) (scores : Scores) (settings : Settings) (clock : Clock) (case_id : Uuid)
    (payload : Option Provider) (sender : Principal) (db : Db) (legal_case : LegalCase)
    (source : Source) (sources : List Source) where
  -- The route's answer and the rows behind it.
  pub route_done :
      any (role_eq sender.user.role) (admin ∷ attorney ∷ []) ≡ true
      → chosen_provider payload settings.analysis_provider ≡ Provider.deterministic
      → find (is_case sender.organization.id case_id) db.cases ≡ some legal_case
      → load_sources sender.organization.id case_id db ≡ source ∷ sources
      → let call = call_of clock case_id sender in
        (a : LegalAuthority) × (b : LegalAuthority) × (rest : List LegalAuthority) × (request
            (create_analysis_run python scores settings clock case_id payload sender)
            db
          ≡ (
            ok (analysed_run python scores call Provider.deterministic),
            analysed python scores call db legal_case source sources (a ∷ b ∷ rest) a b,
          ))
  unfolding create_analysis_run analysis_runner require_roles
  route_done allowed chosen found loaded =
      let call = call_of clock case_id sender in
      let (a, b, rest, two) =
        two_authorities python sender.organization.id (λ n. clock.fresh (20 + n)) db in
      (
        a,
        b,
        rest,
        rw (allowed, chosen)
            (run_done python scores call db legal_case source sources a b rest found loaded two),
      )
