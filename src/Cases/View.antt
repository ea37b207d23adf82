-- ===== src/Cases/View.antt =====
-- services/cases/permissions.py: `can_user_view_case`; services/cases/reserved_predicate.py; and the
-- branches of the listing filter of services/cases/retrieval.py.
use gdi_backend.Prelude.{
  ℕ, Bool, true, false, ◌&&◌, ◌||◌, not, Option, none, some, List, [], ◌∷◌, concat_map, is_empty,
  max, ◌==◌, eq_some, any_of, if◌then◌else◌,
}
use gdi_backend.Cases.Tables.{
  Db, Case, CaseTemplate, Movement, MovementType, creation, transfer, active, Fetched, answered,
  undefined_column, transient, failed, Result, ok, raised, undefined_column_error, transient_lookup,
}
use gdi_backend.Cases.Sectors.{get_user_sectors_for_case, get_user_sector_ids}

abbrev pub is_creation : MovementType → Bool
is_creation creation = true
is_creation _ = false

abbrev pub is_transfer : MovementType → Bool
is_transfer transfer = true
is_transfer _ = false

-- `cm.type IN ('creation', 'transfer')`
abbrev pub is_creation_or_transfer : MovementType → Bool
is_creation_or_transfer t = is_creation t || is_transfer t

-- Equality of two nullable columns.
abbrev pub eq_columns : Option ℕ → Option ℕ → Bool
eq_columns a none = false
eq_columns a (some b) = eq_some a b

-- MAX passes over NULL, and is NULL when nothing is left.
abbrev larger : Option ℕ → Option ℕ → Option ℕ
larger none m = m
larger (some a) none = some a
larger (some a) (some b) = some (max a b)

-- `SELECT MAX(cm2.closed_at) … WHERE cm2.case_id = … AND cm2.is_active = false` and a type.
abbrev pub last_closed : (MovementType → Bool) → ℕ → List Movement → Option ℕ
last_closed p case [] = none
last_closed p case (cm ∷ rest) =
    let m = last_closed p case rest in
    if cm.case_id == case && p cm.type && not cm.is_active then larger cm.closed_at m else m

-- The row of `case_templates` that the case joins with, with a condition on `is_reserved`.
abbrev pub template_where : (Bool → Bool) → Db → Case → Bool
template_where p db c =
    any_of (λ ct. ct.id == c.case_template_id && p ct.is_reserved) db.case_templates

-- `FROM cases c JOIN case_templates ct ON … WHERE c.id = case AND` a condition on `is_reserved`
abbrev pub case_where : (Bool → Bool) → Db → ℕ → Bool
case_where p db case = any_of (λ c. c.id == case && template_where p db c) db.cases

abbrev pub in_sectors : List ℕ → Option ℕ → Bool
in_sectors sectors o = any_of (λ s. eq_some o s) sectors

-- `assigned_sector_id` is one of the sectors, by an active movement. The sectors are given by their
-- membership test, which says no of NULL.
unfoldable pub assigned_to : Db → ℕ → (Option ℕ → Bool) → Bool
assigned_to db case mine =
    any_of (λ cm. cm.case_id == case && mine cm.assigned_sector_id && cm.is_active)
      db.case_movements

-- The last closed transfer gave the case to one of the sectors.
unfoldable pub admin_by_transfer : Db → ℕ → (Option ℕ → Bool) → Bool
admin_by_transfer db case mine =
    any_of
      (λ cm.
        cm.case_id == case
        && is_transfer cm.type
        && not cm.is_active
        && mine cm.admin_sector_id
        && eq_columns cm.closed_at (last_closed is_transfer case db.case_movements))
      db.case_movements

-- One of the sectors created the case, and it was never transferred.
unfoldable pub admin_by_creation : Db → ℕ → (Option ℕ → Bool) → Bool
admin_by_creation db case mine =
    any_of (λ cm. cm.case_id == case && is_creation cm.type && mine cm.admin_sector_id)
      db.case_movements
    && not (any_of (λ cm. cm.case_id == case && is_transfer cm.type) db.case_movements)

-- `JOIN sectors s ON s.id = … JOIN departments d ON d.id = s.department_id … d.head_user_id = user`
abbrev pub heads : Db → ℕ → Option ℕ → Bool
heads db user sector =
    any_of
      (λ s.
        eq_some sector s.id
        && any_of (λ d. eq_some s.department_id d.id && eq_some d.head_user_id user) db.departments)
      db.sectors

unfoldable pub responsible : Db → ℕ → ℕ → Bool
responsible db case user =
    any_of (λ cr. cr.case_id == case && cr.user_id == user && cr.is_active) db.case_responsibles

unfoldable pub heads_admin_sector : Db → ℕ → ℕ → Bool
heads_admin_sector db case user =
    any_of
      (λ cm.
        cm.case_id == case
        && not cm.is_active
        && is_creation_or_transfer cm.type
        && eq_columns cm.closed_at (last_closed is_creation_or_transfer case db.case_movements)
        && heads db user cm.admin_sector_id)
      db.case_movements

abbrev pub is_set : Option ℕ → Bool
is_set none = false
is_set (some a) = true

unfoldable pub heads_assigned_sector : Db → ℕ → ℕ → Bool
heads_assigned_sector db case user =
    any_of
      (λ cm.
        cm.case_id == case
        && cm.is_active
        && is_set cm.assigned_sector_id
        && heads db user cm.assigned_sector_id)
      db.case_movements

unfoldable pub has_open_task : Db → ℕ → ℕ → Bool
has_open_task db case user =
    any_of (λ cat. cat.case_id == case && eq_some cat.assigned_user_id user && cat.is_open)
      db.case_assignment_tasks

-- `build_reserved_or_exists`, for a case and a user
unfoldable pub build_reserved_or_exists : Db → ℕ → ℕ → Bool
build_reserved_or_exists db case user =
    responsible db case user
    || heads_admin_sector db case user
    || heads_assigned_sector db case user
    || has_open_task db case user

abbrev pub searches_globally : Db → ℕ → Bool
searches_globally db user = any_of (λ u. u.id == user && u.can_global_search_cases) db.users

-- Caso 2: the creator, of a case that is not reserved
abbrev pub created_by : Db → ℕ → ℕ → Bool
created_by db case user =
    any_of (λ c. c.id == case && template_where not db c && eq_some c.created_by_user_id user)
      db.cases

abbrev pub reserved : Bool → Bool
reserved b = b

-- The query of `can_user_view_case`: the branches of its UNION ALL, in order. Each branch joins the
-- case with its template; `c.id` is the case that is asked for.
unfoldable pub has_access : Db → ℕ → ℕ → Bool
has_access db case user =
    let mine = in_sectors (get_user_sectors_for_case db user) in
    (case_where not db case && searches_globally db user)
    || created_by db case user
    || (case_where not db case && assigned_to db case mine)
    || (case_where not db case && admin_by_transfer db case mine)
    || (case_where not db case && admin_by_creation db case mine)
    || (case_where reserved db case && responsible db case user)
    || (case_where reserved db case && heads_admin_sector db case user)
    || (case_where reserved db case && heads_assigned_sector db case user)
    || (case_where reserved db case && has_open_task db case user)

-- `can_user_view_case`: the query, or the exception that it ends with
unfoldable pub can_user_view_case : Fetched → Db → ℕ → ℕ → Result Bool
unfolding has_access
can_user_view_case answered db case user = ok (has_access db case user)
can_user_view_case undefined_column db case user = raised undefined_column_error
can_user_view_case transient db case user = raised transient_lookup
can_user_view_case failed db case user = ok false

-- `sector_conditions` of `_build_where_conditions`, for a case and the sectors of the caller
abbrev pub sector_conditions : Db → ℕ → (Option ℕ → Bool) → Bool
sector_conditions db case mine =
    assigned_to db case mine || admin_by_transfer db case mine || admin_by_creation db case mine

-- The condition on who sees a case of `_build_where_conditions`, for a row of cases joined with its
-- template.
unfoldable pub listed : Bool → Db → ℕ → Case → CaseTemplate → Bool
unfolding build_reserved_or_exists
listed is_global_search db user c ct =
    (not ct.is_reserved
      && (if is_global_search
          then true
          else sector_conditions db c.id (in_sectors (get_user_sector_ids db user))))
    || (ct.is_reserved && build_reserved_or_exists db c.id user)

abbrev pub is_active_case : Case → Bool
is_active_case c = elim c.status [ active ↦ true | _ ↦ false ]

-- The rows of the listing: cases joined with their templates, that pass the condition above, the
-- status, and the filters of the request.
abbrev pub listed_rows : Bool → (Case → Bool) → Db → ℕ → List ℕ
listed_rows is_global_search filters db user =
    concat_map
      (λ c.
        concat_map
          (λ ct.
            if ct.id == c.case_template_id
              && listed is_global_search db user c ct
              && is_active_case c
              && filters c
            then c.id ∷ []
            else [])
          db.case_templates)
      db.cases

-- `get_cases_by_user`: the ids of the cases on its pages, in the order of the tables. `is_number` says
-- that the search text looks like the number of a case.
unfoldable pub get_cases_by_user : Bool → (Case → Bool) → Db → ℕ → List ℕ
unfolding listed
get_cases_by_user is_number filters db user =
    let is_global_search = searches_globally db user && is_number in
    if is_empty (get_user_sector_ids db user) && not is_global_search
    then []
    else listed_rows is_global_search filters db user
