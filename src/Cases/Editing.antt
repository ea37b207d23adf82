-- ===== src/Cases/Editing.antt =====
-- `can_user_edit_case` beside `can_user_view_case`, of services/cases/permissions.py.
use gdi_backend.Prelude.{
  ℕ, ◌≡◌, subst, ap, Bool, true, ◌&&◌, ◌||◌, not, Option, List, [], ◌∷◌, arith, ◌==◌, eq_some,
  any_of, any_of-imply, all_of, find_if, Option-cases, inl, inr,
}
use gdi_backend.Cases.Tables.{Db, answered, ok}
use gdi_backend.Cases.Sectors.{
  SectorRow, ids_where, get_user_sectors_with_permissions, get_user_editable_sector_ids,
  get_user_viewable_sector_ids, get_user_sectors_for_case, viewable-sectors_for_case,
}
use gdi_backend.Cases.View.{
  case_where, in_sectors, assigned_to, admin_by_transfer, admin_by_creation, is_creation,
  has_access, can_user_view_case,
}
use gdi_backend.Cases.Permissions.{get_user_case_permissions, can_user_edit_case}

edit_row-view_row :
    (q : ℕ → Bool) (rows : List SectorRow)
    → all_of (λ r. not r.can_edit || r.can_view) rows ≡ true
    → any_of q (ids_where (λ r. r.can_edit) rows) ≡ true
    → any_of q (ids_where (λ r. r.can_view) rows) ≡ true
edit_row-view_row q [] a h = h
edit_row-view_row q (r ∷ rows) a h = ground (arith, edit_row-view_row q rows)

-- The user may view each sector that the user may edit: no permission row grants one without the
-- other.
abbrev pub edits_what_it_views : Db → ℕ → Bool
edits_what_it_views db user =
    all_of (λ r. not r.can_edit || r.can_view) (get_user_sectors_with_permissions db user)

editable-for_case :
    (db : Db) (user : ℕ) (o : Option ℕ)
    → edits_what_it_views db user ≡ true
    → in_sectors (get_user_editable_sector_ids db user) o ≡ true
    → in_sectors (get_user_sectors_for_case db user) o ≡ true
unfolding get_user_editable_sector_ids get_user_viewable_sector_ids
editable-for_case db user o a h =
    subst (λ sectors. in_sectors sectors o ≡ true) (viewable-sectors_for_case db user)
      (edit_row-view_row (λ s. eq_some o s) (get_user_sectors_with_permissions db user) a h)

module _ (m m' : Option ℕ → Bool) (grows : (o : Option ℕ) → m o ≡ true → m' o ≡ true) where
  assigned_to_mono :
      (db : Db) (case : ℕ) → assigned_to db case m ≡ true → assigned_to db case m' ≡ true
  unfolding assigned_to
  assigned_to_mono db case =
      any_of-imply _ _ db.case_movements (λ cm h. ground (arith, h, grows cm.assigned_sector_id))

  admin_by_transfer_mono :
      (db : Db) (case : ℕ)
      → admin_by_transfer db case m ≡ true
      → admin_by_transfer db case m' ≡ true
  unfolding admin_by_transfer
  admin_by_transfer_mono db case =
      any_of-imply _ _ db.case_movements (λ cm h. ground (arith, h, grows cm.admin_sector_id))

  admin_by_creation_mono :
      (db : Db) (case : ℕ)
      → admin_by_creation db case m ≡ true
      → admin_by_creation db case m' ≡ true
  unfolding admin_by_creation
  admin_by_creation_mono db case h =
      let more =
        any_of-imply (λ cm. cm.case_id == case && is_creation cm.type && m cm.admin_sector_id)
          (λ cm. cm.case_id == case && is_creation cm.type && m' cm.admin_sector_id)
          db.case_movements (λ cm e. ground (arith, e, grows cm.admin_sector_id)) in
      ground (arith, h, more)

-- For a case that a template which is not reserved joins with, and a user that may view each sector
-- that the user may edit: whoever may edit the case may view it.
pub can_user_edit_case-visible :
    (db : Db) (case user : ℕ)
    → case_where not db case ≡ true
    → edits_what_it_views db user ≡ true
    → can_user_edit_case answered db case user ≡ ok true
    → can_user_view_case answered db case user ≡ ok true
unfolding can_user_edit_case get_user_case_permissions can_user_view_case has_access
can_user_edit_case-visible db case user here a h =
    let e = get_user_editable_sector_ids db user in
    let mine = in_sectors e in
    let seen = in_sectors (get_user_sectors_for_case db user) in
    let grows = λ (o : Option ℕ). editable-for_case db user o a in
    let t = admin_by_transfer_mono mine seen grows db case in
    let n = admin_by_creation_mono mine seen grows db case in
    let s = assigned_to_mono mine seen grows db case in
    elim (Option-cases (find_if (λ c. c.id == case) db.cases)) [
      | inl e ↦ ground (arith, e, h)
      | inr (c, e) ↦ ap ok (ground (arith, here, e, h, t, n, s))
    ]
