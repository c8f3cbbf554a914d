-- ===== src/Cases/Tests.antt =====
-- The theorems of the case routes at a small organisation.
use legal_bridge.Prelude.{◌≡◌, refl, none, some, [], ◌∷◌}
use legal_bridge.Store.Schema.{CaseStatus, LegalCase, UserRole, Db}
use legal_bridge.Store.Session.{ok, request}
use legal_bridge.Store.Tables.{UniqueBy}
use legal_bridge.Auth.Principal.{Principal, require_roles}
use legal_bridge.Auth.Tests.{start, firm, bob, admin_alice}
use legal_bridge.Cases.{
  CaseCreate, CaseUpdate, unset, set, create_case, archive_case, case_editor, get_organization_case,
  validate_assigned_attorney, flush_case, same_number, new_case,
}
use legal_bridge.Cases.Isolation.{create, update, run, foreign, cases_isolated}
use legal_bridge.Cases.Numbers.{case_numbers_unique}

abbrev pub payload : CaseCreate
payload = record {
  case_number = "LB-1";
  title = "Theft";
  description = none;
  court_name = none;
  jurisdiction = some "Delhi";
  allegation_type = none;
  status = CaseStatus.active;
  assigned_attorney_id = some 2;
}

abbrev pub theft : LegalCase
theft = new_case 50 payload admin_alice

abbrev elsewhere : LegalCase
elsewhere = record theft { id = 51; organization_id = 11 }

abbrev pub with_cases : Db
with_cases = record start { cases = theft ∷ elsewhere ∷ [] }

abbrev patch : CaseUpdate
patch = record {
  title = set (some "Burglary");
  description = unset;
  court_name = set none;
  jurisdiction = unset;
  allegation_type = unset;
  status = unset;
  assigned_attorney_id = unset;
}

cases_isolated_example :
    foreign 10 (request (run (update 50 patch) admin_alice) with_cases).1.cases
    ≡ foreign 10 with_cases.cases
cases_isolated_example = cases_isolated (update 50 patch) admin_alice with_cases (refl, (refl, tt))

case_numbers_unique_example :
    UniqueBy same_number (request (run (create 52 payload) admin_alice) with_cases).1.cases
case_numbers_unique_example =
    case_numbers_unique (create 52 payload) admin_alice with_cases (refl, (refl, tt))
      (refl, (refl, tt))

abbrev reviewer_bob : Principal
reviewer_bob = record { user = record bob { role = UserRole.reviewer }; organization = firm }

abbrev archived_theft : LegalCase
archived_theft = record theft { status = CaseStatus.archived }

abbrev archived : Db
archived = (request (archive_case 50 admin_alice) with_cases).1

archives : request (archive_case 50 admin_alice) with_cases ≡ (ok archived_theft, archived)
unfolding archive_case case_editor require_roles get_organization_case
archives = refl

abbrev created : Db
created = (request (create_case 50 payload admin_alice) start).1

creates : request (create_case 50 payload admin_alice) start ≡ (ok theft, created)
unfolding create_case case_editor require_roles validate_assigned_attorney flush_case
creates = refl
