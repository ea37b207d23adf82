-- ===== src/Cases/Permissions.antt =====
-- services/cases/permissions.py: `get_user_case_permissions`, `can_user_edit_case` and
-- `calculate_access_reason`.
use gdi_backend.Prelude.{
  ℕ, Bool, true, false, ◌&&◌, ◌||◌, not, none, some, List, find_if, is_empty, ◌==◌, eq_some, any_of,
  if◌then◌else◌,
}
use gdi_backend.Cases.Tables.{
  Db, Case, Fetched, answered, Result, ok, raised, case_not_found, permissions_error,
}
use gdi_backend.Cases.Sectors.{get_user_editable_sector_ids}
use gdi_backend.Cases.View.{
  assigned_to, admin_by_transfer, admin_by_creation, in_sectors, is_active_case,
}

pub data OwnershipLevel : Type 0 where
  owner creator participant : OwnershipLevel

pub record Permissions : Type 0 where
  pub can_view : Bool
  pub can_transfer : Bool
  pub can_assign : Bool
  pub can_archive : Bool
  pub can_link_documents : Bool
  pub can_create_movements : Bool
  pub can_subsanar : Bool
  pub ownership_level : OwnershipLevel

-- `is_admin`, of the sectors that the user may edit; a user with none is no admin
abbrev pub is_admin : Db → ℕ → ℕ → Bool
is_admin db case user =
    let sectors = get_user_editable_sector_ids db user in
    not (is_empty sectors)
    && (admin_by_transfer db case (in_sectors sectors)
        || admin_by_creation db case (in_sectors sectors))

-- `is_assigned`
abbrev pub is_assigned : Db → ℕ → ℕ → Bool
is_assigned db case user =
    let sectors = get_user_editable_sector_ids db user in
    not (is_empty sectors) && assigned_to db case (in_sectors sectors)

abbrev ownership : Bool → Bool → Bool → OwnershipLevel
ownership admin assigned is_creator =
    if admin
    then owner
    else if assigned
    then participant
    else if is_creator
    then creator
    else participant

-- The dictionary `permissions`, from the row of the case.
abbrev permissions_of : Bool → Bool → ℕ → Case → Permissions
permissions_of admin assigned user c = record {
  can_view = true;
  can_transfer = admin && is_active_case c;
  can_assign = (admin || assigned) && is_active_case c;
  can_archive = admin && is_active_case c;
  can_link_documents = (admin || assigned) && is_active_case c;
  can_create_movements = (admin || assigned) && is_active_case c;
  can_subsanar = admin && is_active_case c;
  ownership_level = ownership admin assigned (eq_some c.created_by_user_id user);
}

-- `get_user_case_permissions`: any exception of the queries, a transient one included, becomes
-- BusinessLogicError(PERMISSIONS_ERROR).
unfoldable pub get_user_case_permissions : Fetched → Db → ℕ → ℕ → Result Permissions
get_user_case_permissions answered db case user = elim (find_if (λ c. c.id == case) db.cases) [
  | none ↦ raised case_not_found
  | some c ↦ ok (permissions_of (is_admin db case user) (is_assigned db case user) user c)
]
get_user_case_permissions _ db case user = raised permissions_error

-- `can_user_edit_case`: PERMISSIONS_ERROR is not among the exceptions that
-- `reraise_if_transient` raises again.
unfoldable pub can_user_edit_case : Fetched → Db → ℕ → ℕ → Result Bool
can_user_edit_case fetched db case user = elim (get_user_case_permissions fetched db case user) [
  | ok perms ↦ ok perms.can_link_documents
  | raised e ↦ ok false
]

pub data AccessReason : Type 0 where
  admin_sector assigned_sector : AccessReason

-- `calculate_access_reason`
unfoldable pub calculate_access_reason : List ℕ → ℕ → List ℕ → AccessReason
calculate_access_reason user_sector_ids admin_sector_id assigned_sector_ids =
    if any_of (λ s. s == admin_sector_id) user_sector_ids
    then admin_sector
    else if any_of (λ a. any_of (λ s. s == a) user_sector_ids) assigned_sector_ids
    then assigned_sector
    else assigned_sector
