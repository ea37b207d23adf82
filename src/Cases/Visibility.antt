-- ===== src/Cases/Visibility.antt =====
-- The view check of services/cases/permissions.py beside the predicates of
-- services/cases/reserved_predicate.py and services/cases/retrieval.py.
use gdi_backend.Prelude.{
  ℕ, ◌≡◌, refl, sym, Bool, true, false, ◌&&◌, ◌||◌, not, List, [], ◌∷◌, arith, is_empty, ◌==◌,
  ==_refl, ==_iff, ◌∙◌, subst, eq_some, any_of, any_of-append, any_of-concat_map, any_of-witness,
  any_of-intro, Memᴰ, fun_ext, ap, concat_map, if◌then◌else◌, Bool-cases, inl, inr,
}
use gdi_backend.Cases.Tables.{Db, User, SectorPermission, Case, CaseTemplate, answered, ok}
use gdi_backend.Cases.Sectors.{
  get_user_sectors_for_case, get_user_sector_ids, viewable_ids, primary_ids,
}
use gdi_backend.Cases.View.{
  in_sectors, listed_rows, get_cases_by_user, template_where, case_where, created_by,
  searches_globally, sector_conditions, assigned_to, admin_by_transfer, admin_by_creation,
  build_reserved_or_exists, has_access, can_user_view_case, listed, reserved,
}

created_by-not_reserved :
    (db : Db) (case user : ℕ) (cs : List Case)
    → any_of (λ c. c.id == case && template_where not db c) cs ≡ false
    → any_of (λ c. c.id == case && template_where not db c && eq_some c.created_by_user_id user) cs
      ≡ false
created_by-not_reserved db case user [] h = refl
created_by-not_reserved db case user (c ∷ cs) h =
    ground (arith, created_by-not_reserved db case user cs)

-- For a case whose template is reserved (and which joins with no template that is not): the view
-- check answers what the predicate for reserved cases says, for every user. The flag for global
-- search, having created the case, and the sectors of the user give no access to it.
pub can_user_view_case-reserved :
    (db : Db) (case user : ℕ)
    → case_where reserved db case ≡ true
    → case_where not db case ≡ false
    → can_user_view_case answered db case user ≡ ok (build_reserved_or_exists db case user)
unfolding can_user_view_case has_access build_reserved_or_exists
can_user_view_case-reserved db case user is_reserved no_other =
    rw (is_reserved, no_other, created_by-not_reserved db case user db.cases no_other) refl

-- The user asked about has a row.
abbrev pub has_user : Db → ℕ → Bool
has_user db user = any_of (λ u. u.id == user) db.users

of_user : Db → ℕ → List SectorPermission → List ℕ
of_user db user =
    concat_map (λ usp. if usp.user_id == user then viewable_ids db.sectors usp else [])

of_row : Db → User → List SectorPermission → List ℕ
of_row db u = concat_map (λ usp. if u.id == usp.user_id then viewable_ids db.sectors usp else [])

of_row-of_user :
    (db : Db) (user : ℕ) (u : User) (ps : List SectorPermission)
    → u.id ≡ user
    → of_row db u ps ≡ of_user db user ps
unfolding of_row of_user
of_row-of_user db user u [] h = refl
of_row-of_user db user u (usp ∷ ps) h = ground (arith, of_row-of_user db user u ps h)

-- Joining the permissions with the users first, and not at all, finds the same sectors.
joined-additional :
    (q : ℕ → Bool) (db : Db) (user : ℕ) (ps : List SectorPermission) (us : List User)
    → any_of q (concat_map (λ u. if u.id == user then of_row db u ps else []) us)
      ≡ any_of (λ u. u.id == user) us && any_of q (of_user db user ps)
joined-additional q db user ps [] = refl
joined-additional q db user ps (u ∷ us) = elim (Bool-cases (u.id == user)) [
  | inl same ↦
      rw
        (
          same,
          any_of-append q (of_row db u ps)
              (concat_map (λ u. if u.id == user then of_row db u ps else []) us),
          joined-additional q db user ps us,
          of_row-of_user db user u ps (ground (arith, same)),
        )
        (ground arith)
  | inr other ↦ rw (other, joined-additional q db user ps us) refl
]

sector_ids-for_case :
    (db : Db) (user : ℕ)
    → has_user db user ≡ true
    → in_sectors (get_user_sector_ids db user) ≡ in_sectors (get_user_sectors_for_case db user)
unfolding get_user_sector_ids get_user_sectors_for_case of_row of_user
sector_ids-for_case db user h = fun_ext (λ o.
    rw
      (
        any_of-append (λ s. eq_some o s)
            (concat_map (λ u. if u.id == user then primary_ids db.sectors u else []) db.users)
            (of_user db user db.user_sector_permissions),
        any_of-append (λ s. eq_some o s)
            (concat_map (λ u. if u.id == user then primary_ids db.sectors u else []) db.users)
            (concat_map (λ u. if u.id == user then of_row db u db.user_sector_permissions else [])
              db.users),
        joined-additional (λ s. eq_some o s) db user db.user_sector_permissions db.users,
        h,
      )
      refl)

branches_lem :
    (a b c d e : Bool)
    → (a || b || c || d || e || false || false || false || false) ≡ (a || b || (c || d || e))
branches_lem a b c d e = ground arith

-- For a case that no reserved template joins with, and a user that has a row: the view check
-- answers whether the user searches globally, created the case, or has a sector that the listing's
-- own condition lets through, with the listing's own query of the sectors.
pub can_user_view_case-unreserved :
    (db : Db) (case user : ℕ)
    → has_user db user ≡ true
    → case_where reserved db case ≡ false
    → case_where not db case ≡ true
    → can_user_view_case answered db case user
      ≡ ok (
          searches_globally db user
          || created_by db case user
          || sector_conditions db case (in_sectors (get_user_sector_ids db user)))
unfolding can_user_view_case has_access
can_user_view_case-unreserved db case user has no_reserved exists_one =
    let mine = in_sectors (get_user_sector_ids db user) in
    rw (no_reserved, exists_one, sym (sector_ids-for_case db user has))
      (ap ok (
        branches_lem (searches_globally db user) (created_by db case user)
          (assigned_to db case mine) (admin_by_transfer db case mine)
          (admin_by_creation db case mine)))

case_where-intro :
    (p : Bool → Bool) (db : Db) (c : Case) (ct : CaseTemplate)
    → Memᴰ c db.cases
    → Memᴰ ct db.case_templates
    → (ct.id == c.case_template_id) ≡ true
    → p ct.is_reserved ≡ true
    → case_where p db c.id ≡ true
case_where-intro p db c ct c_in ct_in joined e =
    any_of-intro (λ d. d.id == c.id && template_where p db d) db.cases c_in
      (rw
        (
          ==_refl c.id,
          any_of-intro (λ t. t.id == c.case_template_id && p t.is_reserved) db.case_templates ct_in
              (rw (joined, e) refl),
        )
        refl)

-- A row that passes the listing's condition is of a case that the view check lets the user see.
listed-has_access :
    (is_global_search : Bool) (db : Db) (user : ℕ) (c : Case) (ct : CaseTemplate)
    → has_user db user ≡ true
    → (is_global_search ≡ true → searches_globally db user ≡ true)
    → Memᴰ c db.cases
    → Memᴰ ct db.case_templates
    → (ct.id == c.case_template_id) ≡ true
    → listed is_global_search db user c ct ≡ true
    → has_access db c.id user ≡ true
unfolding listed has_access build_reserved_or_exists
listed-has_access g db user c ct has flag c_in ct_in joined h = elim (Bool-cases ct.is_reserved) [
  | inl res ↦
      let here = case_where-intro reserved db c ct c_in ct_in joined res in
      ground (arith, here, h, res)
  | inr plain ↦
      let here = case_where-intro not db c ct c_in ct_in joined (rw plain refl) in
      rw (here, sym (sector_ids-for_case db user has))
        (elim (Bool-cases g) [
          | inl e ↦ ground (arith, h, plain, flag e)
          | inr e ↦ ground (arith, h, plain, e)
        ])
]

one_row :
    (b : Bool) (n case : ℕ)
    → any_of (λ i. i == case) (if b then n ∷ [] else []) ≡ true
    → (b ≡ true) × ((n == case) ≡ true)
one_row true n case h = (refl, ground (arith, h))
one_row false n case h = cc

listed_rows-has_access :
    (g : Bool) (filters : Case → Bool) (db : Db) (user case : ℕ)
    → has_user db user ≡ true
    → (g ≡ true → searches_globally db user ≡ true)
    → any_of (λ i. i == case) (listed_rows g filters db user) ≡ true
    → has_access db case user ≡ true
listed_rows-has_access g filters db user case has flag h =
    let (c, c_in, e) =
      any_of-witness _ db.cases (sym (any_of-concat_map (λ i. i == case) _ db.cases) ∙ h) in
    let (ct, ct_in, e') =
      any_of-witness _ db.case_templates
        (sym (any_of-concat_map (λ i. i == case) _ db.case_templates) ∙ e) in
    let (passes, same) = one_row _ c.id case e' in
    subst (λ n. has_access db n user ≡ true) ((==_iff c.id case).0 same)
      (listed-has_access g db user c ct has flag c_in ct_in (ground (arith, passes))
        (ground (arith, passes)))

-- For a user that has a row: every case in the listing, whatever its filters, and whether or not
-- the search looks like the number of a case, is one that the view check lets the user see.
pub get_cases_by_user-visible :
    (is_number : Bool) (filters : Case → Bool) (db : Db) (user case : ℕ)
    → has_user db user ≡ true
    → any_of (λ i. i == case) (get_cases_by_user is_number filters db user) ≡ true
    → can_user_view_case answered db case user ≡ ok true
unfolding get_cases_by_user can_user_view_case
get_cases_by_user-visible is_number filters db user case has h =
    let g = searches_globally db user && is_number in
    elim (Bool-cases (is_empty (get_user_sector_ids db user) && not g)) [
      | inl e ↦ ground (arith, e, h)
      | inr e ↦ ap ok (
          listed_rows-has_access g filters db user case has (λ q. ground (arith, q))
            (ground (arith, e, h)))
    ]
