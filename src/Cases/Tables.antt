-- ===== src/Cases/Tables.antt =====
-- The tables that the permission queries of services/cases/permissions.py read, with the columns
-- they read, and the outcomes of a query. Boolean columns are taken as NOT NULL.
use gdi_backend.Prelude.{ℕ, Bool, Option, List}

pub data CaseStatus : Type 0 where
  active inactive archived : CaseStatus

pub record Case : Type 0 where
  pub id : ℕ
  pub case_template_id : ℕ
  pub created_by_user_id : Option ℕ
  pub status : CaseStatus

pub record CaseTemplate : Type 0 where
  pub id : ℕ
  pub is_reserved : Bool

pub data MovementType : Type 0 where
  creation transfer assign : MovementType
  -- the other types, which these queries do not name
  other : MovementType

pub record Movement : Type 0 where
  pub case_id : ℕ
  pub type : MovementType
  pub admin_sector_id : Option ℕ
  pub assigned_sector_id : Option ℕ
  pub is_active : Bool
  pub closed_at : Option ℕ

pub record User : Type 0 where
  pub id : ℕ
  pub sector_id : Option ℕ
  pub can_global_search_cases : Bool

pub record SectorPermission : Type 0 where
  pub user_id : ℕ
  pub sector_id : ℕ
  pub can_view : Bool
  pub can_edit : Bool

pub record Sector : Type 0 where
  pub id : ℕ
  pub department_id : Option ℕ
  pub is_active : Bool

pub record Department : Type 0 where
  pub id : ℕ
  pub head_user_id : Option ℕ

pub record Responsible : Type 0 where
  pub case_id : ℕ
  pub user_id : ℕ
  pub is_active : Bool

-- case_assignment_tasks, with `status = 'open'` as a Boolean.
pub record Task : Type 0 where
  pub case_id : ℕ
  pub assigned_user_id : Option ℕ
  pub is_open : Bool

pub record Db : Type 0 where
  pub cases : List Case
  pub case_templates : List CaseTemplate
  pub case_movements : List Movement
  pub users : List User
  pub user_sector_permissions : List SectorPermission
  pub sectors : List Sector
  pub departments : List Department
  pub case_responsibles : List Responsible
  pub case_assignment_tasks : List Task

-- How a query ends: with rows, or with UndefinedColumnError, a transient error of the database
-- (`is_transient_db_error`), or another exception.
pub data Fetched : Type 0 where
  answered undefined_column transient failed : Fetched

pub data Error : Type 0 where
  case_not_found permissions_error undefined_column_error transient_lookup : Error

pub data Result {ℓ} (A : Type ℓ) : Type ℓ where
  ok : A → Result A
  raised : Error → Result A
