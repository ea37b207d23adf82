-- ===== src/Numbering/Permanent/Calls.antt =====
-- Confirmed rows through each call of shared/numbering.py, and through a run.
use gdi_backend.Prelude.{
  ℕ, ◌≤◌, ◌≡◌, refl, Bool, true, false, Bool-cases, Option-cases, Option, none, some, inl, inr,
  List, [], ◌∷◌, arith, if◌then◌else◌, count_if, find_if, update_if, ◌==◌,
}
use gdi_backend.Numbering.Format.{Text}
use gdi_backend.Numbering.Tables.{
  ReservationStatus, confirming, confirmed, cancelled, Numerator, user, citizen, OfficialDocument,
  Counter, Db, Constraint, official_documents_pkey, other_constraint, Result, committed,
  committed-bind, Env, Request,
}
use gdi_backend.Numbering.Queries.{
  is_reserved, is_confirming, next_global_sequence, delete_own_cancelled, get_city_acronym,
  get_user_department, get_tad_department,
}
use gdi_backend.Numbering.Reserve.{
  cancel_reserved, expired, live_row, insert_document, raced, insert_global, global_document,
  take_global, retry_global, reserve_global,
}
use gdi_backend.Numbering.Special.{
  is_special, upsert_counter, next_special_number, special_document, insert_special, take_special,
  active_reservation, enter_lane, lane_shared, reserve_special,
}
use gdi_backend.Numbering.Entry.{
  special_numbering, insert_citizen, take_citizen, retry_citizen, reserve_citizen,
  confirmed_document, insert_confirmed, confirmed_raced, take_confirmed, reserve_number,
  reserve_citizen_number, generate_confirmed_number, generate_official_number,
  generate_citizen_official_number,
}
use gdi_backend.Numbering.Lifecycle.{
  with_status, ticket_row, cancel_row, in_states, has_live_sibling, release_special_lane,
  release_if_special, confirm_number, finalize_number, cancel_found, cancel_number,
}
use gdi_backend.Numbering.Lanes.{upsert_counter_lem}
use gdi_backend.Numbering.Runs.{
  Call, reserve, reserve_for_citizen, generate, generate_for_citizen, confirm, finalize, cancel,
  apply, run,
}
use gdi_backend.Numbering.Permanent.{
  final, KeepsConfirmed, KeepsConfirmed-refl, KeepsConfirmed-trans, count-update-other,
  next_global-KeepsConfirmed, next_special-KeepsConfirmed, delete_own-KeepsConfirmed,
  cancel_reserved-KeepsConfirmed, is_confirmed,
}

module _ (db₀ db : Db) (k : KeepsConfirmed db₀ db) (d : OfficialDocument) where
  insert-KeepsConfirmed : KeepsConfirmed db₀ (insert_document d db)
  insert-KeepsConfirmed = record { rows = λ q. ground (arith, k.rows q) }

  raced-KeepsConfirmed :
      (c : Constraint) (o : Option OfficialDocument) (sequence : OfficialDocument → Option ℕ)
      → KeepsConfirmed db₀ (committed db₀ (raced c db o sequence))
  raced-KeepsConfirmed c none sequence = KeepsConfirmed-refl db₀
  raced-KeepsConfirmed c (some e) sequence = k

  insert_global-KeepsConfirmed :
      (env : Env) (c : Option Constraint)
      → KeepsConfirmed db₀ (committed db₀ (insert_global env d db c))
  insert_global-KeepsConfirmed env none = insert-KeepsConfirmed
  insert_global-KeepsConfirmed env (some (other_constraint c)) = KeepsConfirmed-refl db₀
  insert_global-KeepsConfirmed env (some official_documents_pkey) =
      raced-KeepsConfirmed official_documents_pkey (find_if (live_row d.id) db.documents) _

  insert_citizen-KeepsConfirmed :
      (c : Option Constraint) → KeepsConfirmed db₀ (committed db₀ (insert_citizen d db c))
  insert_citizen-KeepsConfirmed none = insert-KeepsConfirmed
  insert_citizen-KeepsConfirmed (some c) = KeepsConfirmed-refl db₀

  confirmed_raced-KeepsConfirmed :
      (o : Option OfficialDocument) → KeepsConfirmed db₀ (committed db₀ (confirmed_raced db o))
  confirmed_raced-KeepsConfirmed none = KeepsConfirmed-refl db₀
  confirmed_raced-KeepsConfirmed (some e) = k

  insert_confirmed-KeepsConfirmed :
      (c : Option Constraint) → KeepsConfirmed db₀ (committed db₀ (insert_confirmed d db c))
  insert_confirmed-KeepsConfirmed none = insert-KeepsConfirmed
  insert_confirmed-KeepsConfirmed (some (other_constraint c)) = KeepsConfirmed-refl db₀
  insert_confirmed-KeepsConfirmed (some official_documents_pkey) =
      confirmed_raced-KeepsConfirmed (find_if (λ e. e.id == d.id) db.documents)

  insert_special-KeepsConfirmed :
      (q : Request) (dept n : ℕ) (c : Option Constraint)
      → KeepsConfirmed db₀ (committed db₀ (insert_special q dept n d db c))
  insert_special-KeepsConfirmed q dept n none = record { rows = λ t. ground (arith, k.rows t) }
  insert_special-KeepsConfirmed q dept n (some c) =
      elim (Option-cases (find_if (live_row q.document_id) db.documents)) [
        | inl nobody ↦ rw nobody (KeepsConfirmed-refl db₀)
        | inr (e, other) ↦ rw other k
      ]

module _ (env : Env) (q : Request) (city : Text) (dept : Text × ℕ) (db₀ : Db) where
  take_global-KeepsConfirmed :
      (id : ℕ) (db : Db)
      → KeepsConfirmed db₀ db
      → KeepsConfirmed db₀ (committed db₀ (take_global env q id city dept db))
  unfolding take_global
  take_global-KeepsConfirmed id db k =
      let (n, db₁) = next_global_sequence env q.year db in
      insert_global-KeepsConfirmed db₀ (delete_own_cancelled q.document_id db₁)
        (KeepsConfirmed-trans k (
          KeepsConfirmed-trans (next_global-KeepsConfirmed env q.year db)
            (delete_own-KeepsConfirmed q.document_id db₁)))
        (global_document env q (user id) city dept n) env _

  take_citizen-KeepsConfirmed :
      (id : ℕ) (db : Db)
      → KeepsConfirmed db₀ db
      → KeepsConfirmed db₀ (committed db₀ (take_citizen env q id city dept db))
  unfolding take_citizen
  take_citizen-KeepsConfirmed id db k =
      let (n, db₁) = next_global_sequence env q.year db in
      insert_citizen-KeepsConfirmed db₀ db₁
        (KeepsConfirmed-trans k (next_global-KeepsConfirmed env q.year db))
        (global_document env q (citizen id) city dept n) _

  take_confirmed-KeepsConfirmed :
      (numerator : Numerator)
      → KeepsConfirmed db₀ (committed db₀ (take_confirmed env q numerator city dept db₀))
  unfolding take_confirmed
  take_confirmed-KeepsConfirmed numerator =
      let (n, db₁) = next_global_sequence env q.year db₀ in
      insert_confirmed-KeepsConfirmed db₀ db₁ (next_global-KeepsConfirmed env q.year db₀)
        (confirmed_document env q numerator city dept n) _

  take_special-KeepsConfirmed :
      (id : ℕ) (c : Counter) (db : Db)
      → KeepsConfirmed db₀ db
      → KeepsConfirmed db₀ (committed db₀ (take_special env q id city dept c db))
  unfolding take_special
  take_special-KeepsConfirmed id c db k =
      let (n, db₁) = next_special_number env q.document_type_id dept.1 q.year c db in
      insert_special-KeepsConfirmed db₀ (delete_own_cancelled q.document_id db₁)
        (KeepsConfirmed-trans k (
          KeepsConfirmed-trans
            (next_special-KeepsConfirmed env q.document_type_id dept.1 q.year c db)
            (delete_own-KeepsConfirmed q.document_id db₁)))
        (special_document env q id city dept n) q dept.1 n _

  retry_global-KeepsConfirmed :
      (id : ℕ) (e : Option OfficialDocument)
      → KeepsConfirmed db₀ (committed db₀ (retry_global env q id city dept db₀ e))
  retry_global-KeepsConfirmed id none = take_global-KeepsConfirmed id db₀ (KeepsConfirmed-refl db₀)
  retry_global-KeepsConfirmed id (some e) =
      committed-bind db₀ (KeepsConfirmed db₀) (expired env e) _ (KeepsConfirmed-refl db₀) (elim [
        | false ↦ λ _. KeepsConfirmed-refl db₀
        | true ↦ λ _.
            take_global-KeepsConfirmed id (cancel_reserved q.document_id db₀)
              (cancel_reserved-KeepsConfirmed q.document_id db₀)
      ])

  retry_citizen-KeepsConfirmed :
      (id : ℕ) (e : Option OfficialDocument)
      → KeepsConfirmed db₀ (committed db₀ (retry_citizen env q id city dept db₀ e))
  retry_citizen-KeepsConfirmed id none =
      take_citizen-KeepsConfirmed id db₀ (KeepsConfirmed-refl db₀)
  retry_citizen-KeepsConfirmed id (some e) =
      committed-bind db₀ (KeepsConfirmed db₀) (expired env e) _ (KeepsConfirmed-refl db₀) (elim [
        | false ↦ λ _. KeepsConfirmed-refl db₀
        | true ↦ λ _.
            take_citizen-KeepsConfirmed id (cancel_reserved q.document_id db₀)
              (cancel_reserved-KeepsConfirmed q.document_id db₀)
      ])

  enter_lane-KeepsConfirmed :
      (id : ℕ) (c : Counter) (db : Db) (holder : Option OfficialDocument)
      → KeepsConfirmed db₀ db
      → KeepsConfirmed db₀ (committed db₀ (enter_lane env q id city dept c db holder))
  enter_lane-KeepsConfirmed id c db none k = take_special-KeepsConfirmed id c db k
  enter_lane-KeepsConfirmed id c db (some holder) k =
      elim (Bool-cases (holder.id == q.document_id)) [
        | inl own ↦
            rw own (elim (Option-cases (find_if (λ d. d.id == q.document_id) db.documents)) [
              | inl nobody ↦ rw nobody k
              | inr (e, found) ↦ rw found k
            ])
        | inr other ↦ rw other (elim (Bool-cases (lane_shared c q id holder)) [
          | inl shared ↦ rw shared (take_special-KeepsConfirmed id c db k)
          | inr busy ↦ rw busy (KeepsConfirmed-refl db₀)
        ])
      ]

  reserve_special-KeepsConfirmed :
      (id : ℕ) → KeepsConfirmed db₀ (committed db₀ (reserve_special env q id city dept db₀))
  unfolding reserve_special
  reserve_special-KeepsConfirmed id =
      let (c, db₁) = upsert_counter q.document_type_id q.year dept.1 db₀ in
      enter_lane-KeepsConfirmed id c db₁ (active_reservation c db₁) (record {
        rows = λ t. rw (upsert_counter_lem q.document_type_id q.year dept.1 db₀).1 (omega arith);
      })

release-KeepsConfirmed :
    (od : OfficialDocument) (id : ℕ) (db : Db) → KeepsConfirmed db (release_special_lane od id db)
unfolding release_special_lane
release-KeepsConfirmed od id db = elim (Bool-cases (has_live_sibling od id db)) [
  | inl busy ↦ rw busy (KeepsConfirmed-refl db)
  | inr quiet ↦ rw quiet (record { rows = λ q. omega arith })
]

if_release-KeepsConfirmed :
    (b : Bool) (od : OfficialDocument) (id : ℕ) (db : Db)
    → KeepsConfirmed db (if b then release_special_lane od id db else db)
if_release-KeepsConfirmed true od id db = release-KeepsConfirmed od id db
if_release-KeepsConfirmed false od id db = KeepsConfirmed-refl db

release_if-KeepsConfirmed :
    (o : Option OfficialDocument) (id : ℕ) (db : Db)
    → KeepsConfirmed db (release_if_special o id db)
release_if-KeepsConfirmed none id db = KeepsConfirmed-refl db
release_if-KeepsConfirmed (some od) id db =
    if_release-KeepsConfirmed (is_special od.regime) od id db

-- An UPDATE of the status whose WHERE passes no confirmed row.
restate-KeepsConfirmed :
    (p : OfficialDocument → Bool) (s : ReservationStatus) (db : Db)
    → ((d : OfficialDocument) → p d ≡ true → is_confirmed d.status ≡ false)
    → KeepsConfirmed db (record db { documents = update_if p (with_status s) db.documents })
restate-KeepsConfirmed p s db other = record {
  rows = λ q. count-update-other p q (with_status s) db.documents other;
}

ticket_row-other :
    (states : ReservationStatus → Bool) (id ticket : ℕ) (d : OfficialDocument)
    → states confirmed ≡ false
    → ticket_row states id ticket d ≡ true
    → is_confirmed d.status ≡ false
ticket_row-other states id ticket d no_final h = ground (arith, no_final)

cancel_row-other :
    (from : List ReservationStatus) (id : ℕ) (ticket : Option ℕ) (d : OfficialDocument)
    → in_states from confirmed ≡ false
    → cancel_row from id ticket d ≡ true
    → is_confirmed d.status ≡ false
cancel_row-other from id none d no_final h = ground (arith, no_final)
cancel_row-other from id (some ticket) d no_final h = ground (arith, no_final)

module _ (db : Db) where
  confirm-KeepsConfirmed :
      (id ticket : ℕ) → KeepsConfirmed db (committed db (confirm_number id ticket db))
  unfolding confirm_number
  confirm-KeepsConfirmed id ticket =
      let pass = ticket_row is_reserved id ticket in
      elim (Bool-cases (count_if pass db.documents == 0)) [
        | inl stale ↦ rw stale (KeepsConfirmed-refl db)
        | inr held ↦ rw held (
            KeepsConfirmed-trans
              (restate-KeepsConfirmed pass confirming db
                (λ d. ticket_row-other is_reserved id ticket d refl))
              (release_if-KeepsConfirmed _ id _))
      ]

  finalize-KeepsConfirmed : (id ticket : ℕ) → KeepsConfirmed db (finalize_number id ticket db).1
  unfolding finalize_number
  finalize-KeepsConfirmed id ticket =
      let pass = ticket_row is_confirming id ticket in
      elim (Bool-cases (count_if pass db.documents == 0)) [
        | inl stale ↦ rw stale (KeepsConfirmed-refl db)
        | inr held ↦ rw held (
            restate-KeepsConfirmed pass confirmed db
              (λ d. ticket_row-other is_confirming id ticket d refl))
      ]

  cancel_found-KeepsConfirmed :
      (from : List ReservationStatus) (id : ℕ) (ticket : Option ℕ) (od : Option OfficialDocument)
      → in_states from confirmed ≡ false
      → KeepsConfirmed db (cancel_found from id ticket db od).1
  cancel_found-KeepsConfirmed from id ticket none no_final = KeepsConfirmed-refl db
  cancel_found-KeepsConfirmed from id ticket (some od) no_final =
      KeepsConfirmed-trans
        (restate-KeepsConfirmed (cancel_row from id ticket) cancelled db
          (λ d. cancel_row-other from id ticket d no_final))
        (if_release-KeepsConfirmed _ od id _)

  module _ (env : Env) (q : Request) where
    reserve-KeepsConfirmed :
        (id : ℕ) → KeepsConfirmed db (committed db (reserve_number env q id db))
    unfolding reserve_number reserve_global
    reserve-KeepsConfirmed id =
        let same = KeepsConfirmed-refl db in
        committed-bind db (KeepsConfirmed db) (get_city_acronym db q.schema_name) _ same λ city _.
          committed-bind db (KeepsConfirmed db) (get_user_department env db id) _ same λ dept _.
            committed-bind db (KeepsConfirmed db) (special_numbering db q.document_type_id) _ same
              (elim [
                | true ↦ λ _. reserve_special-KeepsConfirmed env q city dept db id
                | false ↦ λ _. retry_global-KeepsConfirmed env q city dept db id _
              ])

    reserve_citizen-KeepsConfirmed :
        (id : ℕ) → KeepsConfirmed db (committed db (reserve_citizen_number env q id db))
    unfolding reserve_citizen_number reserve_citizen
    reserve_citizen-KeepsConfirmed id =
        let same = KeepsConfirmed-refl db in
        committed-bind db (KeepsConfirmed db) (get_city_acronym db q.schema_name) _ same λ city _.
          committed-bind db (KeepsConfirmed db) (get_tad_department db) _ same λ dept _.
            committed-bind db (KeepsConfirmed db) (special_numbering db q.document_type_id) _ same
              (elim [
                | true ↦ λ _. same
                | false ↦ λ _. retry_citizen-KeepsConfirmed env q city dept db id _
              ])

    generate-KeepsConfirmed :
        (numerator : Numerator) (resolve : Db → Result (Text × ℕ))
        → KeepsConfirmed db (committed db (generate_confirmed_number env q numerator resolve db))
    unfolding generate_confirmed_number
    generate-KeepsConfirmed numerator resolve =
        let same = KeepsConfirmed-refl db in
        committed-bind db (KeepsConfirmed db) (get_city_acronym db q.schema_name) _ same λ city _.
          committed-bind db (KeepsConfirmed db) (resolve db) _ same
            λ dept _. take_confirmed-KeepsConfirmed env q city dept db numerator

-- A call that may not cancel what is confirmed: every one but `cancel_number` with CONFIRMED among
-- the states that it is given.
abbrev pub SparesConfirmed : Call → Type 0
SparesConfirmed (cancel id reason ticket alert from) = in_states from confirmed ≡ false
SparesConfirmed _ = Unit

apply-KeepsConfirmed :
    (env : Env) (c : Call) (db : Db) → SparesConfirmed c → KeepsConfirmed db (apply env c db)
unfolding apply generate_official_number generate_citizen_official_number cancel_number
apply-KeepsConfirmed env (reserve q id) db s = reserve-KeepsConfirmed db env q id
apply-KeepsConfirmed env (reserve_for_citizen q id) db s =
    reserve_citizen-KeepsConfirmed db env q id
apply-KeepsConfirmed env (generate q id) db s =
    generate-KeepsConfirmed db env q (user id) (λ t. get_user_department env t id)
apply-KeepsConfirmed env (generate_for_citizen q id) db s =
    generate-KeepsConfirmed db env q (citizen id) get_tad_department
apply-KeepsConfirmed env (confirm id ticket) db s = confirm-KeepsConfirmed db id ticket
apply-KeepsConfirmed env (finalize id ticket) db s = finalize-KeepsConfirmed db id ticket
apply-KeepsConfirmed env (cancel id reason ticket alert from) db s =
    cancel_found-KeepsConfirmed db from id ticket _ s

abbrev pub AllSpareConfirmed : List (Env × Call) → Type 0
AllSpareConfirmed [] = Unit
AllSpareConfirmed ((env, c) ∷ cs) = SparesConfirmed c × AllSpareConfirmed cs

-- Whatever functions are called, with rows locked or not, while no call of `cancel_number` lists
-- CONFIRMED: of the confirmed rows that pass a test, any test on their columns, there are afterwards
-- at least as many, so no confirmed document loses its row or has a column of it changed.
pub run-KeepsConfirmed :
    (calls : List (Env × Call)) (db : Db)
    → AllSpareConfirmed calls
    → (q : OfficialDocument → Bool)
    → count_if (final q) db.documents ≤ count_if (final q) (run calls db).documents
unfolding run
run-KeepsConfirmed [] db s q = omega arith
run-KeepsConfirmed ((env, c) ∷ cs) db s q = omega (
  arith,
  (apply-KeepsConfirmed env c db s.0).rows q,
  run-KeepsConfirmed cs (apply env c db) s.1 q,
)
