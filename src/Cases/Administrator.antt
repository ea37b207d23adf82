-- ===== src/Cases/Administrator.antt =====
-- The administrator of a case, of services/cases/permissions.py: the one sector that its movements
-- name.
use gdi_backend.Prelude.{
  ℕ, ◌≡◌, refl, ap, fun_ext, ◌∙◌, Bool, true, false, ◌&&◌, ◌||◌, not, Option, none, some, List, [],
  ◌∷◌, arith, ◌==◌, ==_iff, eq_some, any_of, all_of, is_empty, Bool-cases, inl, inr, if◌then◌else◌,
}
use gdi_backend.Cases.Tables.{Db, Movement}
use gdi_backend.Cases.Sectors.{get_user_editable_sector_ids}
use gdi_backend.Cases.View.{
  in_sectors, admin_by_transfer, admin_by_creation, is_creation, is_transfer, eq_columns,
  last_closed,
}
use gdi_backend.Cases.Permissions.{is_admin}

abbrev pub was_transferred : Db → ℕ → Bool
was_transferred db case = any_of (λ cm. cm.case_id == case && is_transfer cm.type) db.case_movements

-- The movement that says who administers the case: its last closed transfer, or its creation where
-- it was never transferred.
abbrev pub admin_row : Db → ℕ → Movement → Bool
admin_row db case cm =
    cm.case_id == case
    && (if was_transferred db case
        then is_transfer cm.type
          && not cm.is_active
          && eq_columns cm.closed_at (last_closed is_transfer case db.case_movements)
        else is_creation cm.type)

-- There is such a movement, and all of them name the sector.
abbrev pub names_admin : Db → ℕ → ℕ → Bool
names_admin db case sector =
    any_of (admin_row db case) db.case_movements
    && all_of (λ cm. not (admin_row db case cm) || eq_some cm.admin_sector_id sector)
        db.case_movements

in_sectors_named :
    (sectors : List ℕ) (o : Option ℕ) (sector : ℕ)
    → eq_some o sector ≡ true
    → in_sectors sectors o ≡ in_sectors sectors (some sector)
in_sectors_named sectors none sector h = cc
in_sectors_named sectors (some a) sector h =
    ap (λ n. in_sectors sectors (some n)) ((==_iff a sector).0 h)

-- Where all rows that pass name the sector, the test of the sectors moves out of the search.
factored :
    (p : Movement → Bool) (sectors : List ℕ) (sector : ℕ) (ms : List Movement)
    → all_of (λ cm. not (p cm) || eq_some cm.admin_sector_id sector) ms ≡ true
    → any_of (λ cm. p cm && in_sectors sectors cm.admin_sector_id) ms
      ≡ any_of p ms && in_sectors sectors (some sector)
factored p sectors sector [] h = refl
factored p sectors sector (cm ∷ ms) h =
    ground
      (arith, factored p sectors sector ms, in_sectors_named sectors cm.admin_sector_id sector, h)

no_transfer_row :
    (case : ℕ) (q : Movement → Bool) (ms : List Movement)
    → any_of (λ cm. cm.case_id == case && is_transfer cm.type) ms ≡ false
    → any_of (λ cm. cm.case_id == case && is_transfer cm.type && q cm) ms ≡ false
no_transfer_row case q [] h = refl
no_transfer_row case q (cm ∷ ms) h = ground (arith, no_transfer_row case q ms, h)

same_rows :
    (p q : Movement → Bool) (ms : List Movement)
    → ((cm : Movement) → p cm ≡ q cm)
    → any_of p ms ≡ any_of q ms
same_rows p q ms h = ap (λ f. any_of f ms) (fun_ext h)

transfer_shape : (a b c d e : Bool) → (a && b && c && d && e) ≡ (a && (b && c && e) && d)
transfer_shape a b c d e = ground arith

transfer_first : (a b c d e : Bool) → (a && b && c && d && e) ≡ (a && b && (c && d && e))
transfer_first a b c d e = ground arith

and_false : (b : Bool) → (b && false) ≡ false
and_false b = ground arith

or_false : (b : Bool) → (b || false) ≡ b
or_false b = ground arith

and_true : (b : Bool) → (b && true) ≡ b
and_true b = ground arith

module _ (db : Db) (case : ℕ) (mine : Option ℕ → Bool) where
  transfer-moved :
      was_transferred db case ≡ true
      → admin_by_transfer db case mine
        ≡ any_of (λ cm. admin_row db case cm && mine cm.admin_sector_id) db.case_movements
  unfolding admin_by_transfer
  transfer-moved moved = same_rows _ _ db.case_movements (λ cm. rw moved (
      transfer_shape (cm.case_id == case) (is_transfer cm.type) (not cm.is_active)
        (mine cm.admin_sector_id)
        (eq_columns cm.closed_at (last_closed is_transfer case db.case_movements))))

  creation-moved : was_transferred db case ≡ true → admin_by_creation db case mine ≡ false
  unfolding admin_by_creation
  creation-moved moved = rw moved (and_false _)

  transfer-never : was_transferred db case ≡ false → admin_by_transfer db case mine ≡ false
  unfolding admin_by_transfer
  transfer-never never =
      same_rows _ _ db.case_movements (λ cm.
        transfer_first (cm.case_id == case) (is_transfer cm.type) (not cm.is_active)
          (mine cm.admin_sector_id)
          (eq_columns cm.closed_at (last_closed is_transfer case db.case_movements)))
      ∙ no_transfer_row case _ db.case_movements never

  creation-never :
      was_transferred db case ≡ false
      → admin_by_creation db case mine
        ≡ any_of (λ cm. admin_row db case cm && mine cm.admin_sector_id) db.case_movements
  unfolding admin_by_creation
  creation-never never = rw never (and_true _)

  -- Both ways to administer a case come to the row that says who does.
  admin_by-row :
      (admin_by_transfer db case mine || admin_by_creation db case mine)
      ≡ any_of (λ cm. admin_row db case cm && mine cm.admin_sector_id) db.case_movements
  admin_by-row = elim (Bool-cases (was_transferred db case)) [
    | inl moved ↦ rw (transfer-moved moved, creation-moved moved) (or_false _)
    | inr never ↦ rw (transfer-never never, creation-never never) refl
  ]

empty_sectors :
    (sectors : List ℕ) (o : Option ℕ)
    → (not (is_empty sectors) && in_sectors sectors o) ≡ in_sectors sectors o
empty_sectors [] o = refl
empty_sectors (s ∷ ss) o = refl

-- Where the movements of a case name one sector as its administrator, the users that administer the
-- case are exactly those who may edit that sector.
pub is_admin-named_sector :
    (db : Db) (case user sector : ℕ)
    → names_admin db case sector ≡ true
    → is_admin db case user ≡ in_sectors (get_user_editable_sector_ids db user) (some sector)
is_admin-named_sector db case user sector h =
    let sectors = get_user_editable_sector_ids db user in
    let named = factored (admin_row db case) sectors sector db.case_movements (ground (arith, h)) in
    let exists : any_of (admin_row db case) db.case_movements ≡ true = ground (arith, h) in
    rw (admin_by-row db case (in_sectors sectors), named, exists)
      (empty_sectors sectors (some sector))
