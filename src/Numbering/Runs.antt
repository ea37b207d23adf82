-- ===== src/Numbering/Runs.antt =====
-- Runs of the functions of shared/numbering.py, each in its transaction: after any sequence of
-- calls no number stands in two rows.
use gdi_backend.Prelude.{
  ℕ, ◌≡◌, refl, Bool, true, false, Bool-cases, Option, none, some, inl, inr, List, [], ◌∷◌, arith,
  if◌then◌else◌, count_if, update_if, ◌==◌,
}
use gdi_backend.Numbering.Format.{Text}
use gdi_backend.Numbering.Tables.{
  ReservationStatus, confirming, confirmed, cancelled, Numerator, user, citizen, OfficialDocument,
  Counter, Db, Result, committed, committed-bind, Env, Request,
}
use gdi_backend.Numbering.Queries.{
  is_reserved, is_confirming, get_city_acronym, get_user_department, get_tad_department,
}
use gdi_backend.Numbering.Special.{is_special}
use gdi_backend.Numbering.Entry.{
  special_numbering, reserve_number, reserve_citizen_number, generate_confirmed_number,
  generate_official_number, generate_citizen_official_number,
}
use gdi_backend.Numbering.Lifecycle.{
  ticket_row, cancel_row, freed, has_live_sibling, held_by, release_special_lane,
  release_if_special, confirm_number, finalize_number, cancel_found, cancel_number,
}
use gdi_backend.Numbering.Sequence.{NobodyLocks}
use gdi_backend.Numbering.Lanes.{lane_last, Shrinks}
use gdi_backend.Numbering.Numbers.{
  HasUniqueNumbers, Shrinks-HasUniqueNumbers, restated-HasUniqueNumbers,
}
use gdi_backend.Numbering.Unique.{
  reserve_global-HasUniqueNumbers, reserve_citizen-HasUniqueNumbers,
  take_confirmed-HasUniqueNumbers,
}
use gdi_backend.Numbering.LaneReserve.{reserve_special-HasUniqueNumbers}

-- A call of one of the functions.
pub data Call : Type 0 where
  reserve : Request → ℕ → Call
  reserve_for_citizen : Request → ℕ → Call
  generate : Request → ℕ → Call
  generate_for_citizen : Request → ℕ → Call
  confirm : ℕ → ℕ → Call
  finalize : ℕ → ℕ → Call
  cancel : ℕ → Text → Option ℕ → Bool → List ReservationStatus → Call

-- The tables after a call, whether it returns or raises.
unfoldable pub apply : Env → Call → Db → Db
apply env (reserve q user_id) db = committed db (reserve_number env q user_id db)
apply env (reserve_for_citizen q id) db = committed db (reserve_citizen_number env q id db)
apply env (generate q user_id) db = committed db (generate_official_number env q user_id db)
apply env (generate_for_citizen q id) db =
    committed db (generate_citizen_official_number env q id db)
apply env (confirm id ticket) db = committed db (confirm_number id ticket db)
apply env (finalize id ticket) db = (finalize_number id ticket db).1
apply env (cancel id reason ticket alert from) db = (cancel_number id reason ticket alert from db).1

unfoldable pub run : List (Env × Call) → Db → Db
run [] db = db
run ((env, c) ∷ cs) db = run cs (apply env c db)

freed-lane_last :
    (p : Counter → Bool) (cs : List Counter) (t y dp : ℕ)
    → lane_last t y dp (update_if p freed cs) ≡ lane_last t y dp cs
freed-lane_last p [] t y dp = refl
freed-lane_last p (c ∷ cs) t y dp = ground (arith, freed-lane_last p cs t y dp)

release-Shrinks :
    (od : OfficialDocument) (id : ℕ) (db : Db) → Shrinks db (release_special_lane od id db)
unfolding release_special_lane
release-Shrinks od id db = elim (Bool-cases (has_live_sibling od id db)) [
  | inl busy ↦ rw busy (record { rows = λ q. omega arith; lanes = λ t y dp. omega arith })
  | inr quiet ↦ rw quiet (record {
    rows = λ q. omega arith;
    lanes = λ t y dp. omega (arith, freed-lane_last (held_by od id) db.counters t y dp);
  })
]

module _ (db : Db) (u : HasUniqueNumbers db) where
  release-HasUniqueNumbers :
      (od : OfficialDocument) (id : ℕ) → HasUniqueNumbers (release_special_lane od id db)
  release-HasUniqueNumbers od id =
      Shrinks-HasUniqueNumbers db (release_special_lane od id db) (release-Shrinks od id db) u

  if_release-HasUniqueNumbers :
      (b : Bool) (od : OfficialDocument) (id : ℕ)
      → HasUniqueNumbers (if b then release_special_lane od id db else db)
  if_release-HasUniqueNumbers true od id = release-HasUniqueNumbers od id
  if_release-HasUniqueNumbers false od id = u

  release_if-HasUniqueNumbers :
      (o : Option OfficialDocument) (id : ℕ) → HasUniqueNumbers (release_if_special o id db)
  release_if-HasUniqueNumbers none id = u
  release_if-HasUniqueNumbers (some od) id =
      if_release-HasUniqueNumbers (is_special od.regime) od id

module _ (db : Db) (u : HasUniqueNumbers db) where
  confirm-HasUniqueNumbers :
      (id ticket : ℕ) → HasUniqueNumbers (committed db (confirm_number id ticket db))
  unfolding confirm_number
  confirm-HasUniqueNumbers id ticket =
      let pass = ticket_row is_reserved id ticket in
      elim (Bool-cases (count_if pass db.documents == 0)) [
        | inl stale ↦ rw stale u
        | inr held ↦
            rw held
              (release_if-HasUniqueNumbers _ (restated-HasUniqueNumbers pass confirming db u) _ id)
      ]

  finalize-HasUniqueNumbers : (id ticket : ℕ) → HasUniqueNumbers (finalize_number id ticket db).1
  unfolding finalize_number
  finalize-HasUniqueNumbers id ticket =
      let pass = ticket_row is_confirming id ticket in
      elim (Bool-cases (count_if pass db.documents == 0)) [
        | inl stale ↦ rw stale u
        | inr held ↦ rw held (restated-HasUniqueNumbers pass confirmed db u)
      ]

  cancel_found-HasUniqueNumbers :
      (from : List ReservationStatus) (id : ℕ) (ticket : Option ℕ) (od : Option OfficialDocument)
      → HasUniqueNumbers (cancel_found from id ticket db od).1
  cancel_found-HasUniqueNumbers from id ticket none = u
  cancel_found-HasUniqueNumbers from id ticket (some od) =
      let pass = cancel_row from id ticket in
      if_release-HasUniqueNumbers _ (restated-HasUniqueNumbers pass cancelled db u) _ od id

module _ (env : Env) (free : NobodyLocks env) (q : Request) (db : Db)
    (u : HasUniqueNumbers db) where
  reserve-HasUniqueNumbers :
      (user_id : ℕ) → HasUniqueNumbers (committed db (reserve_number env q user_id db))
  unfolding reserve_number
  reserve-HasUniqueNumbers user_id =
      committed-bind db HasUniqueNumbers (get_city_acronym db q.schema_name) _ u λ city _.
        committed-bind db HasUniqueNumbers (get_user_department env db user_id) _ u λ dept _.
          committed-bind db HasUniqueNumbers (special_numbering db q.document_type_id) _ u (elim [
            | true ↦ λ _. reserve_special-HasUniqueNumbers env q user_id city dept db u
            | false ↦ λ _. reserve_global-HasUniqueNumbers env free q city dept db u user_id
          ])

  reserve_citizen_number-HasUniqueNumbers :
      (id : ℕ) → HasUniqueNumbers (committed db (reserve_citizen_number env q id db))
  unfolding reserve_citizen_number
  reserve_citizen_number-HasUniqueNumbers id =
      committed-bind db HasUniqueNumbers (get_city_acronym db q.schema_name) _ u λ city _.
        committed-bind db HasUniqueNumbers (get_tad_department db) _ u λ dept _.
          committed-bind db HasUniqueNumbers (special_numbering db q.document_type_id) _ u (elim [
            | true ↦ λ _. u
            | false ↦ λ _. reserve_citizen-HasUniqueNumbers env free q city dept db u id
          ])

  generate-HasUniqueNumbers :
      (numerator : Numerator) (resolve : Db → Result (Text × ℕ))
      → HasUniqueNumbers (committed db (generate_confirmed_number env q numerator resolve db))
  unfolding generate_confirmed_number
  generate-HasUniqueNumbers numerator resolve =
      committed-bind db HasUniqueNumbers (get_city_acronym db q.schema_name) _ u λ city _.
        committed-bind db HasUniqueNumbers (resolve db) _ u
          λ dept _. take_confirmed-HasUniqueNumbers env free q city dept db u numerator db u

pub apply-HasUniqueNumbers :
    (env : Env) (c : Call) (db : Db)
    → NobodyLocks env
    → HasUniqueNumbers db
    → HasUniqueNumbers (apply env c db)
unfolding apply generate_official_number generate_citizen_official_number cancel_number
apply-HasUniqueNumbers env (reserve q id) db free u = reserve-HasUniqueNumbers env free q db u id
apply-HasUniqueNumbers env (reserve_for_citizen q id) db free u =
    reserve_citizen_number-HasUniqueNumbers env free q db u id
apply-HasUniqueNumbers env (generate q id) db free u =
    generate-HasUniqueNumbers env free q db u (user id) (λ t. get_user_department env t id)
apply-HasUniqueNumbers env (generate_for_citizen q id) db free u =
    generate-HasUniqueNumbers env free q db u (citizen id) get_tad_department
apply-HasUniqueNumbers env (confirm id ticket) db free u = confirm-HasUniqueNumbers db u id ticket
apply-HasUniqueNumbers env (finalize id ticket) db free u = finalize-HasUniqueNumbers db u id ticket
apply-HasUniqueNumbers env (cancel id reason ticket alert from) db free u =
    cancel_found-HasUniqueNumbers db u from id ticket _

-- No other transaction holds a row, at any call of the run.
abbrev pub RunsAlone : List (Env × Call) → Type 0
RunsAlone [] = Unit
RunsAlone ((env, c) ∷ cs) = NobodyLocks env × RunsAlone cs

-- Whatever functions are called, in whatever order and whether they return or raise: where no number
-- stood in two rows and no call finds a row locked, no number stands in two rows afterwards, neither
-- of a year's GLOBAL sequence nor of a SPECIAL lane, and no lane's counter is behind its rows.
pub run-HasUniqueNumbers :
    (calls : List (Env × Call)) (db : Db)
    → RunsAlone calls
    → HasUniqueNumbers db
    → HasUniqueNumbers (run calls db)
unfolding run
run-HasUniqueNumbers [] db alone u = u
run-HasUniqueNumbers ((env, c) ∷ cs) db alone u =
    run-HasUniqueNumbers cs (apply env c db) alone.1 (apply-HasUniqueNumbers env c db alone.0 u)
