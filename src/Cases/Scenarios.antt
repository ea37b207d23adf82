-- ===== src/Cases/Scenarios.antt =====
-- Two cases of a small town, one of them reserved, and what the theorems on
-- services/cases/permissions.py say of them.
use gdi_backend.Prelude.{ℕ, ◌≡◌, refl, true, false, ◌||◌, none, some, [], ◌∷◌}
use gdi_backend.Cases.Tables.{Movement, creation, assign, Db, active, answered, ok}
use gdi_backend.Cases.Sectors.{
  get_user_sector_ids, get_user_sectors_for_case, get_user_sectors_with_permissions,
  get_user_editable_sector_ids, get_user_viewable_sector_ids, viewable-sectors_for_case,
}
use gdi_backend.Cases.View.{
  in_sectors, searches_globally, created_by, sector_conditions, assigned_to, admin_by_transfer,
  admin_by_creation, build_reserved_or_exists, can_user_view_case, listed, get_cases_by_user,
}
use gdi_backend.Cases.Permissions.{get_user_case_permissions, can_user_edit_case}
use gdi_backend.Cases.Visibility.{
  can_user_view_case-reserved, can_user_view_case-unreserved, get_cases_by_user-visible,
}
use gdi_backend.Cases.Permissions.{is_admin}
use gdi_backend.Cases.Administrator.{is_admin-named_sector}
use gdi_backend.Cases.Editing.{can_user_edit_case-visible}

abbrev created : ℕ → Movement
created case = record {
  case_id = case;
  type = creation;
  admin_sector_id = some 5;
  assigned_sector_id = none;
  is_active = false;
  closed_at = some 100;
}

abbrev assigned : ℕ → Movement
assigned case = record {
  case_id = case;
  type = assign;
  admin_sector_id = some 5;
  assigned_sector_id = some 6;
  is_active = true;
  closed_at = none;
}

abbrev town : Db
town = record {
  cases =
      record { id = 1; case_template_id = 10; created_by_user_id = some 41; status = active }
      ∷ record { id = 2; case_template_id = 11; created_by_user_id = some 41; status = active }
      ∷ [];
  case_templates =
      record { id = 10; is_reserved = false } ∷ record { id = 11; is_reserved = true } ∷ [];
  case_movements = created 1 ∷ assigned 1 ∷ created 2 ∷ [];
  users =
      record { id = 41; sector_id = some 5; can_global_search_cases = false }
      ∷ record { id = 42; sector_id = some 6; can_global_search_cases = false }
      ∷ [];
  user_sector_permissions = [];
  sectors =
      record { id = 5; department_id = some 3; is_active = true }
      ∷ record { id = 6; department_id = some 4; is_active = true }
      ∷ [];
  departments =
      record { id = 3; head_user_id = some 42 } ∷ record { id = 4; head_user_id = none } ∷ [];
  case_responsibles = [];
  case_assignment_tasks = [];
}

-- The creator of the reserved case is not one of those who see it.
can_user_view_case-reserved_example :
    can_user_view_case answered town 2 41 ≡ ok (build_reserved_or_exists town 2 41)
can_user_view_case-reserved_example = can_user_view_case-reserved town 2 41 refl refl

can_user_view_case-unreserved_example :
    can_user_view_case answered town 1 42
    ≡ ok (
        searches_globally town 42
        || created_by town 1 42
        || sector_conditions town 1 (in_sectors (get_user_sector_ids town 42)))
can_user_view_case-unreserved_example = can_user_view_case-unreserved town 1 42 refl refl refl

get_cases_by_user-visible_example : can_user_view_case answered town 1 42 ≡ ok true
unfolding get_cases_by_user listed get_user_sector_ids assigned_to admin_by_transfer
    admin_by_creation build_reserved_or_exists
get_cases_by_user-visible_example = get_cases_by_user-visible false (λ c. true) town 42 1 refl refl

viewable-sectors_for_case_example :
    get_user_viewable_sector_ids town 42 ≡ get_user_sectors_for_case town 42
viewable-sectors_for_case_example = viewable-sectors_for_case town 42

can_user_edit_case-visible_example : can_user_view_case answered town 1 42 ≡ ok true
unfolding can_user_edit_case get_user_case_permissions get_user_editable_sector_ids
    get_user_sectors_with_permissions assigned_to admin_by_transfer admin_by_creation
can_user_edit_case-visible_example = can_user_edit_case-visible town 1 42 refl refl refl

is_admin-named_sector_example :
    is_admin town 1 41 ≡ in_sectors (get_user_editable_sector_ids town 41) (some 5)
is_admin-named_sector_example = is_admin-named_sector town 1 41 5 refl
