-- ===== src/Numbering/Lifecycle.antt =====
-- shared/numbering.py: what happens to a reserved number, `confirm_number`, `finalize_number` and
-- `cancel_number`, and the release of a SPECIAL lane.
use gdi_backend.Prelude.Texts.{Text, codes, text_eq, strip}
use gdi_backend.Prelude.{
  ℕ, Bool, true, false, ◌&&◌, ◌||◌, not, Option, none, some, List, [], ◌∷◌, ltb, ◌==◌, eq_some,
  if◌then◌else◌, count_if, find_if, any_of, update_if,
}
use gdi_backend.Numbering.Tables.{
  ReservationStatus, reserved, confirming, confirmed, cancelled, Regime, OfficialDocument, Counter,
  Db, Result, ok, raised, stale_reservation,
}
use gdi_backend.Numbering.Queries.{is_reserved, is_confirming}
use gdi_backend.Numbering.Special.{is_special, on_lane}

-- WHERE id = … AND reservation_id = … AND the status passes
abbrev pub ticket_row : (ReservationStatus → Bool) → ℕ → ℕ → OfficialDocument → Bool
ticket_row states id ticket d = d.id == id && eq_some d.reservation_id ticket && states d.status

abbrev pub with_status : ReservationStatus → OfficialDocument → OfficialDocument
with_status s d = record d { status = s }

abbrev pub live_sibling : ℕ → ℕ → OfficialDocument → Bool
live_sibling batch id d = eq_some d.batch_id batch && not (d.id == id) && is_reserved d.status

abbrev pub held_by : OfficialDocument → ℕ → Counter → Bool
held_by od id c =
    on_lane od.document_type_id od.year od.department_id c
    && (eq_some c.active_document_id id
        || elim od.batch_id [ none ↦ false | some b ↦ eq_some c.active_batch_id b ])

abbrev pub freed : Counter → Counter
freed c = record c { active_document_id = none; active_batch_id = none }

abbrev pub has_live_sibling : OfficialDocument → ℕ → Db → Bool
has_live_sibling od id db = elim od.batch_id [
  | none ↦ false
  | some b ↦ ltb 0 (count_if (live_sibling b id) db.documents)
]

-- `_liberar_carril_special`: not while another document of the batch is reserved.
unfoldable pub release_special_lane : OfficialDocument → ℕ → Db → Db
release_special_lane od id db =
    if has_live_sibling od id db
    then db
    else record db { counters = update_if (held_by od id) freed db.counters }

abbrev pub release_if_special : Option OfficialDocument → ℕ → Db → Db
release_if_special none id db = db
release_if_special (some od) id db =
    if is_special od.regime then release_special_lane od id db else db

abbrev pub any_status : ReservationStatus → Bool
any_status s = true

-- `confirm_number`: compare-and-set RESERVED→CONFIRMING on the ticket.
unfoldable pub confirm_number : ℕ → ℕ → Db → Result (Unit {0} × Db)
confirm_number id ticket db =
    let od = find_if (ticket_row any_status id ticket) db.documents in
    let pass = ticket_row is_reserved id ticket in
    if count_if pass db.documents == 0
    then raised stale_reservation
    else ok (
      tt,
      release_if_special od id
          (record db { documents = update_if pass (with_status confirming) db.documents }),
    )

-- What `finalize_number` logs; it never raises.
pub data Finalized : Type 0 where
  done missing already_confirmed corrupt_cancelled unexpected : Finalized

abbrev pub soft_fail : Option OfficialDocument → Finalized
soft_fail none = missing
soft_fail (some d) = elim d.status [
  | confirmed ↦ already_confirmed
  | cancelled ↦ corrupt_cancelled
  | _ ↦ unexpected
]

-- `finalize_number`: compare-and-set CONFIRMING→CONFIRMED on the ticket.
unfoldable pub finalize_number : ℕ → ℕ → Db → Finalized × Db
finalize_number id ticket db =
    let pass = ticket_row is_confirming id ticket in
    if count_if pass db.documents == 0
    then (soft_fail (find_if (λ d. d.id == id) db.documents), db)
    else (done, record db { documents = update_if pass (with_status confirmed) db.documents })

-- MOTIVOS_SIN_ALERTA
unfoldable pub reasons_without_alert : List Text
reasons_without_alert =
    codes "cancelled_by_user"
    ∷ codes "digital_session_expired"
    ∷ codes "la tanda venció sin completarse"
    ∷ codes "la tanda cayó y quedó sin limpiar"
    ∷ []

-- `_es_final_normal`
unfoldable pub is_normal_end : Text → Bool
unfolding strip reasons_without_alert
is_normal_end reason = any_of (text_eq (strip reason)) reasons_without_alert

-- The mail that `cancel_number` sends: the number and the regime, where there is a row.
pub record Alert : Type 0 where
  pub number : Option Text
  pub regime : Option Regime

pub record Cancellation : Type 0 where
  pub rows_cancelled : ℕ
  pub mail : Option Alert

abbrev pub same_status : ReservationStatus → ReservationStatus → Bool
same_status reserved reserved = true
same_status confirming confirming = true
same_status confirmed confirmed = true
same_status cancelled cancelled = true
same_status _ _ = false

abbrev pub in_states : List ReservationStatus → ReservationStatus → Bool
in_states from s = any_of (same_status s) from

-- The WHERE of the UPDATE, with the ticket if one is given.
abbrev pub cancel_row : List ReservationStatus → ℕ → Option ℕ → OfficialDocument → Bool
cancel_row from id none d = d.id == id && in_states from d.status
cancel_row from id (some ticket) d = ticket_row (in_states from) id ticket d

abbrev pub cancel_found :
    List ReservationStatus → ℕ → Option ℕ → Db → Option OfficialDocument → ℕ × Db
cancel_found from id ticket db none = (0, db)
cancel_found from id ticket db (some od) =
    let pass = cancel_row from id ticket in
    let n = count_if pass db.documents in
    let db' = record db { documents = update_if pass (with_status cancelled) db.documents } in
    (n, if is_special od.regime && ltb 0 n then release_special_lane od id db' else db')

abbrev pub alert_of : Option OfficialDocument → Alert
alert_of none = record { number = none; regime = none }
alert_of (some od) = record { number = some od.official_number; regime = some od.regime }

-- `cancel_number`
unfoldable pub cancel_number :
    ℕ → Text → Option ℕ → Bool → List ReservationStatus → Db → Cancellation × Db
cancel_number id reason ticket alert from db =
    let od = find_if (λ d. d.id == id) db.documents in
    let (n, db') = cancel_found from id ticket db od in
    let sent = alert && not (is_normal_end reason) in
    (record { rows_cancelled = n; mail = if sent then some (alert_of od) else none }, db')
