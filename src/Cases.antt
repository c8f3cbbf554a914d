-- ===== src/Cases.antt =====
-- The case routes: server/app/api/routes/cases.py.
pub mod Isolation
pub mod Numbers
pub mod Tests
use legal_bridge.Prelude.{
  ℕ, String, Bool, true, false, Option, none, some, List, [], ◌∷◌, ◌++◌, ◌&&◌, ◌==◌, not, str_eq,
  is_some, find, any, update_where, if◌then◌else◌,
}
use legal_bridge.Store.Schema.{
  Uuid, UserRole, admin, attorney, role_eq, User, CaseStatus, archived, LegalCase, AuditEvent, Db,
  names, plain,
}
use legal_bridge.Store.Session.{
  ApplicationError, Action, ◌>>=◌, ◌>>◌, pure, raise, query, modify, commit, rollback, or_raise,
  raise_if, add_audit_event,
}
use legal_bridge.Auth.Principal.{Principal, require_roles}

pub record CaseCreate : Type 0 where
  pub case_number : String
  pub title : String
  pub description : Option String
  pub court_name : Option String
  pub jurisdiction : Option String
  pub allegation_type : Option String
  pub status : CaseStatus
  pub assigned_attorney_id : Option Uuid

-- A field of a patch: `unset` is left out by `model_dump(exclude_unset=True)`.
pub data Patch (A : Type 0) : Type 0 where
  unset : Patch A
  set : A → Patch A

-- An explicit null is `set none`.
pub record CaseUpdate : Type 0 where
  pub title : Patch (Option String)
  pub description : Patch (Option String)
  pub court_name : Patch (Option String)
  pub jurisdiction : Patch (Option String)
  pub allegation_type : Patch (Option String)
  pub status : Patch (Option CaseStatus)
  pub assigned_attorney_id : Patch (Option Uuid)

abbrev pub case_not_found : ApplicationError
case_not_found = record { status_code = 404; code = "case_not_found"; message = "Case not found." }

abbrev pub invalid_assigned_attorney : ApplicationError
invalid_assigned_attorney = record {
  status_code = 422;
  code = "invalid_assigned_attorney";
  message = "Assigned attorney must be active and belong to this organisation.";
}

abbrev pub duplicate_case_number : ApplicationError
duplicate_case_number = record {
  status_code = 409;
  code = "duplicate_case_number";
  message = "This case number already exists in the organisation.";
}

abbrev pub null_title : ApplicationError
null_title = record {
  status_code = 422;
  code = "invalid_case_update";
  message = "Case title cannot be null.";
}

abbrev pub null_status : ApplicationError
null_status = record {
  status_code = 422;
  code = "invalid_case_update";
  message = "Case status cannot be null.";
}

unfoldable pub case_editor : Principal → Action Principal
case_editor = require_roles (admin ∷ attorney ∷ [])

abbrev pub is_case : Uuid → Uuid → LegalCase → Bool
is_case organization_id case_id c = (c.id == case_id) && (c.organization_id == organization_id)

unfoldable pub get_organization_case : Uuid → Uuid → Action LegalCase
get_organization_case organization_id case_id = do
  legal_case ← query (λ db. find (is_case organization_id case_id) db.cases)
  or_raise legal_case case_not_found

abbrev pub is_attorney : Uuid → Uuid → User → Bool
is_attorney organization_id id u =
    (u.id == id) && (u.organization_id == organization_id) && role_eq u.role attorney && u.is_active

unfoldable pub validate_assigned_attorney : Uuid → Option Uuid → Action (Unit {0})
validate_assigned_attorney organization_id none = pure tt
validate_assigned_attorney organization_id (some id) = do
  found ← query (λ db. any (is_attorney organization_id id) db.users)
  raise_if (not found) invalid_assigned_attorney

-- The unique index on the organisation and the case number.
abbrev pub same_number : LegalCase → LegalCase → Bool
same_number a b = (a.organization_id == b.organization_id) && str_eq a.case_number b.case_number

-- `session.flush()` of a new case.
unfoldable pub flush_case : LegalCase → Action (Unit {0})
flush_case legal_case = do
  duplicate ← query (λ db. any (same_number legal_case) db.cases)
  if duplicate
      then rollback >> raise duplicate_case_number
      else modify (λ db. record db { cases = db.cases ++ legal_case ∷ [] })

abbrev pub case_event : Principal → Uuid → String → String → AuditEvent
case_event principal case_id event_type message = record {
  organization_id = principal.organization.id;
  case_id = some case_id;
  actor_user_id = some principal.user.id;
  event_type = event_type;
  message = plain message;
  entity_type = "case";
  entity_id = case_id;
  metadata_json = [];
}

abbrev pub new_case : Uuid → CaseCreate → Principal → LegalCase
new_case new_id payload principal = record {
  id = new_id;
  organization_id = principal.organization.id;
  case_number = payload.case_number;
  title = payload.title;
  description = payload.description;
  court_name = payload.court_name;
  jurisdiction = payload.jurisdiction;
  allegation_type = payload.allegation_type;
  status = payload.status;
  created_by_id = principal.user.id;
  assigned_attorney_id = payload.assigned_attorney_id;
}

-- `new_id` is the row's fresh uuid4.
unfoldable pub create_case : Uuid → CaseCreate → Principal → Action LegalCase
create_case new_id payload sender = do
  principal ← case_editor sender
  validate_assigned_attorney principal.organization.id payload.assigned_attorney_id
  let legal_case = new_case new_id payload principal
  flush_case legal_case
  add_audit_event (case_event principal legal_case.id "case_creation" "Case created.")
  commit
  pure legal_case

unfoldable pub get_case : Uuid → Principal → Action LegalCase
get_case case_id principal = get_organization_case principal.organization.id case_id

abbrev pub patched {ℓ} : {A : Type ℓ} → A → Option A → A
patched old none = old
patched old (some new) = new

abbrev pub given : {A : Type 0} → Patch A → Option A
given unset = none
given (set a) = some a

abbrev pub flat : {A : Type 0} → Option (Option A) → Option A
flat none = none
flat (some o) = o

-- `"field" in updates and updates["field"] is None`
abbrev pub is_null : {A : Type 0} → Patch (Option A) → Bool
is_null unset = false
is_null (set none) = true
is_null (set (some _)) = false

-- `for field, value in updates.items(): setattr(legal_case, field, value)`
unfoldable pub apply_updates : CaseUpdate → LegalCase → LegalCase
apply_updates u c = record c {
  title = patched c.title (flat (given u.title));
  description = patched c.description (given u.description);
  court_name = patched c.court_name (given u.court_name);
  jurisdiction = patched c.jurisdiction (given u.jurisdiction);
  allegation_type = patched c.allegation_type (given u.allegation_type);
  status = patched c.status (flat (given u.status));
  assigned_attorney_id = patched c.assigned_attorney_id (given u.assigned_attorney_id);
}

abbrev pub field_name : {A : Type 0} → String → Patch A → List String
field_name n unset = []
field_name n (set _) = n ∷ []

-- `sorted(updates)`: the names of the fields that are set, in alphabetical order.
unfoldable pub updated_fields : CaseUpdate → List String
updated_fields u =
    field_name "allegation_type" u.allegation_type
    ++ (field_name "assigned_attorney_id" u.assigned_attorney_id
        ++ (field_name "court_name" u.court_name
            ++ (field_name "description" u.description
                ++ (field_name "jurisdiction" u.jurisdiction
                    ++ (field_name "status" u.status ++ field_name "title" u.title)))))

abbrev pub save_case : LegalCase → Db → Db
save_case c db = record db { cases = update_where (λ r. r.id == c.id) (λ _. c) db.cases }

unfoldable pub validate_new_attorney : Uuid → Patch (Option Uuid) → Action (Unit {0})
validate_new_attorney organization_id unset = pure tt
validate_new_attorney organization_id (set id) = validate_assigned_attorney organization_id id

unfoldable pub update_case : Uuid → CaseUpdate → Principal → Action LegalCase
update_case case_id payload sender = do
  principal ← case_editor sender
  legal_case ← get_organization_case principal.organization.id case_id
  raise_if (is_null payload.title) null_title
  raise_if (is_null payload.status) null_status
  validate_new_attorney principal.organization.id payload.assigned_attorney_id
  let changed = apply_updates payload legal_case
  modify (save_case changed)
  add_audit_event (record (case_event principal changed.id "case_update" "Case updated.") {
    metadata_json = record { key = "fields"; value = names (updated_fields payload) } ∷ [];
  })
  commit
  pure changed

abbrev pub is_archived : CaseStatus → Bool
is_archived CaseStatus.archived = true
is_archived _ = false

unfoldable pub archive_case : Uuid → Principal → Action LegalCase
archive_case case_id sender = do
  principal ← case_editor sender
  legal_case ← get_organization_case principal.organization.id case_id
  let changed = record legal_case { status = archived }
  if is_archived legal_case.status then pure legal_case else (do
    modify (save_case changed)
    add_audit_event (case_event principal legal_case.id "case_archive" "Case archived.")
    commit
    pure changed)
