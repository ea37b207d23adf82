-- ===== src/Cases/Sectors.antt =====
-- The sectors of a user: the queries of services/case_queries.py and the lists that
-- services/cases/permissions.py takes from them. UNION drops repeated rows, which no reader of
-- these lists sees.
use gdi_backend.Prelude.{
  ℕ, ◌≡◌, refl, Bool, true, false, ◌&&◌, List, [], ◌∷◌, ◌++◌, arith, ◌==◌, eq_some, concat_map,
  if◌then◌else◌,
}
use gdi_backend.Cases.Tables.{Db, User, Sector, SectorPermission}

pub record SectorRow : Type 0 where
  pub sector_id : ℕ
  pub can_view : Bool
  pub can_edit : Bool

abbrev primary_of : List Sector → User → List SectorRow
primary_of sectors u =
    concat_map
      (λ s.
        if eq_some u.sector_id s.id && s.is_active
        then record { sector_id = s.id; can_view = true; can_edit = true } ∷ []
        else [])
      sectors

abbrev additional_of : List Sector → SectorPermission → List SectorRow
additional_of sectors usp =
    concat_map
      (λ s.
        if usp.sector_id == s.id && s.is_active
        then record { sector_id = s.id; can_view = usp.can_view; can_edit = usp.can_edit } ∷ []
        else [])
      sectors

-- `get_user_sectors_with_permissions_query`
unfoldable pub get_user_sectors_with_permissions : Db → ℕ → List SectorRow
get_user_sectors_with_permissions db user =
    concat_map (λ u. if u.id == user then primary_of db.sectors u else []) db.users
    ++ concat_map
        (λ u.
          if u.id == user
          then concat_map (λ usp. if u.id == usp.user_id then additional_of db.sectors usp else [])
              db.user_sector_permissions
          else [])
        db.users

-- `[str(row['sector_id']) for row in result if row[…]]`
abbrev pub ids_where : (SectorRow → Bool) → List SectorRow → List ℕ
ids_where p [] = []
ids_where p (r ∷ rs) = let rest = ids_where p rs in if p r then r.sector_id ∷ rest else rest

-- `get_user_editable_sector_ids`
unfoldable pub get_user_editable_sector_ids : Db → ℕ → List ℕ
get_user_editable_sector_ids db user =
    ids_where (λ r. r.can_edit) (get_user_sectors_with_permissions db user)

-- `get_user_viewable_sector_ids`
unfoldable pub get_user_viewable_sector_ids : Db → ℕ → List ℕ
get_user_viewable_sector_ids db user =
    ids_where (λ r. r.can_view) (get_user_sectors_with_permissions db user)

abbrev pub primary_ids : List Sector → User → List ℕ
primary_ids sectors u =
    concat_map (λ s. if eq_some u.sector_id s.id && s.is_active then s.id ∷ [] else []) sectors

abbrev pub viewable_ids : List Sector → SectorPermission → List ℕ
viewable_ids sectors usp =
    concat_map (λ s. if usp.sector_id == s.id && s.is_active && usp.can_view then s.id ∷ [] else [])
      sectors

-- `get_user_sectors_for_case_query`
unfoldable pub get_user_sectors_for_case : Db → ℕ → List ℕ
get_user_sectors_for_case db user =
    concat_map (λ u. if u.id == user then primary_ids db.sectors u else []) db.users
    ++ concat_map
        (λ u.
          if u.id == user
          then concat_map (λ usp. if u.id == usp.user_id then viewable_ids db.sectors usp else [])
              db.user_sector_permissions
          else [])
        db.users

-- `get_user_sectors_query` of services/shared/user_queries.py, as `get_user_sector_ids` of
-- services/shared/sector_utils.py takes it: it does not join the permissions with the users.
unfoldable pub get_user_sector_ids : Db → ℕ → List ℕ
get_user_sector_ids db user =
    concat_map (λ u. if u.id == user then primary_ids db.sectors u else []) db.users
    ++ concat_map (λ usp. if usp.user_id == user then viewable_ids db.sectors usp else [])
        db.user_sector_permissions

ids_where-append :
    (p : SectorRow → Bool) (xs ys : List SectorRow)
    → ids_where p (xs ++ ys) ≡ ids_where p xs ++ ids_where p ys
ids_where-append p [] ys = refl
ids_where-append p (x ∷ xs) ys = ground (arith, ids_where-append p xs ys)

-- Choosing ids commutes with a join, when it does on each entry.
ids_where-concat_map {ℓ} :
    {A : Type ℓ} (p : SectorRow → Bool) (f : A → List SectorRow) (g : A → List ℕ)
    → ((x : A) → ids_where p (f x) ≡ g x)
    → (xs : List A) → ids_where p (concat_map f xs) ≡ concat_map g xs
ids_where-concat_map p f g h [] = refl
ids_where-concat_map p f g h (x ∷ xs) =
    rw (ids_where-append p (f x) (concat_map f xs), h x, ids_where-concat_map p f g h xs) refl

if-ids :
    (b : Bool) (xs : List SectorRow) (ys : List ℕ)
    → ids_where (λ r. r.can_view) xs ≡ ys
    → ids_where (λ r. r.can_view) (if b then xs else []) ≡ (if b then ys else [])
if-ids true xs ys h = h
if-ids false xs ys h = refl

primary_of-ids :
    (sectors : List Sector) (u : User)
    → ids_where (λ r. r.can_view) (primary_of sectors u) ≡ primary_ids sectors u
primary_of-ids sectors u = ids_where-concat_map (λ r. r.can_view) _ _ (λ s. ground arith) sectors

additional_of-ids :
    (sectors : List Sector) (usp : SectorPermission)
    → ids_where (λ r. r.can_view) (additional_of sectors usp) ≡ viewable_ids sectors usp
additional_of-ids sectors usp =
    ids_where-concat_map (λ r. r.can_view) _ _ (λ s. ground arith) sectors

-- The viewable sectors that permissions.py takes from the query with permissions are, in order, those
-- that the view check's own query joins with.
pub viewable-sectors_for_case :
    (db : Db) (user : ℕ) → get_user_viewable_sector_ids db user ≡ get_user_sectors_for_case db user
unfolding get_user_viewable_sector_ids get_user_sectors_for_case get_user_sectors_with_permissions
viewable-sectors_for_case db user =
    rw
      (
        ids_where-append (λ r. r.can_view)
            (concat_map (λ u. if u.id == user then primary_of db.sectors u else []) db.users)
            (concat_map
              (λ u.
                if u.id == user
                then concat_map
                    (λ usp. if u.id == usp.user_id then additional_of db.sectors usp else [])
                    db.user_sector_permissions
                else [])
              db.users),
        ids_where-concat_map (λ r. r.can_view)
            (λ u. if u.id == user then primary_of db.sectors u else [])
            (λ u. if u.id == user then primary_ids db.sectors u else [])
            (λ u. if-ids (u.id == user) _ _ (primary_of-ids db.sectors u)) db.users,
        ids_where-concat_map (λ r. r.can_view)
            (λ u.
              if u.id == user
              then concat_map
                  (λ usp. if u.id == usp.user_id then additional_of db.sectors usp else [])
                  db.user_sector_permissions
              else [])
            (λ u.
              if u.id == user
              then concat_map
                  (λ usp. if u.id == usp.user_id then viewable_ids db.sectors usp else [])
                  db.user_sector_permissions
              else [])
            (λ u. if-ids (u.id == user) _ _ (
              ids_where-concat_map (λ r. r.can_view)
                (λ usp. if u.id == usp.user_id then additional_of db.sectors usp else [])
                (λ usp. if u.id == usp.user_id then viewable_ids db.sectors usp else [])
                (λ usp. if-ids (u.id == usp.user_id) _ _ (additional_of-ids db.sectors usp))
                db.user_sector_permissions))
            db.users,
      )
      refl
