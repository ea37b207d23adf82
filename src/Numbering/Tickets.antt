-- ===== src/Numbering/Tickets.antt =====
-- The ticket of a reservation (shared/numbering.py): of `confirm_number` and `cancel_number` on one
-- reservation only the first has an effect, and `finalize_number` follows a confirmation.
use gdi_backend.Prelude.{
  ℕ, ◌≤◌, ◌<◌, ◌≡◌, refl, ap, Bool, true, false, ◌&&◌, Bool-cases, Option, none, some, inl, inr,
  List, [], ◌∷◌, arith, if◌then◌else◌, count_if, find_if, update_if, ◌==◌,
}
use gdi_backend.Numbering.Format.{Text}
use gdi_backend.Numbering.Tables.{
  ReservationStatus, reserved, confirming, cancelled, OfficialDocument, Db, ok, raised,
  stale_reservation,
}
use gdi_backend.Numbering.Queries.{is_reserved, is_confirming}
use gdi_backend.Numbering.Special.{is_special}
use gdi_backend.Numbering.Lifecycle.{
  any_status, ticket_row, with_status, release_special_lane, release_if_special, has_live_sibling,
  confirm_number, done, finalize_number, cancel_row, in_states, cancel_found, cancel_number,
}

release-documents :
    (od : OfficialDocument) (id : ℕ) (db : Db)
    → (release_special_lane od id db).documents ≡ db.documents
unfolding release_special_lane
release-documents od id db = elim (Bool-cases (has_live_sibling od id db)) [
  | inl busy ↦ rw busy
  | inr quiet ↦ rw quiet
]

pub if_release-documents :
    (b : Bool) (od : OfficialDocument) (id : ℕ) (db : Db)
    → (if b then release_special_lane od id db else db).documents ≡ db.documents
if_release-documents true od id db = release-documents od id db
if_release-documents false od id db = refl

release_if-documents :
    (o : Option OfficialDocument) (id : ℕ) (db : Db)
    → (release_if_special o id db).documents ≡ db.documents
release_if-documents none id db = refl
release_if-documents (some od) id db = if_release-documents (is_special od.regime) od id db

-- The rows that `confirm_number` compares and sets.
abbrev pub waiting : ℕ → ℕ → OfficialDocument → Bool
waiting id ticket = ticket_row is_reserved id ticket

-- The tables after a confirmation.
abbrev pub after_confirm : ℕ → ℕ → Db → Db
after_confirm id ticket db =
    release_if_special (find_if (ticket_row any_status id ticket) db.documents) id (record db {
      documents = update_if (waiting id ticket) (with_status confirming) db.documents;
    })

pub confirm_ok :
    (id ticket : ℕ) (db : Db)
    → 0 < count_if (waiting id ticket) db.documents
    → confirm_number id ticket db ≡ ok (tt, after_confirm id ticket db)
unfolding confirm_number
confirm_ok id ticket db h = elim (Bool-cases (count_if (waiting id ticket) db.documents == 0)) [
  | inl stale ↦ absurd (ground arith)
  | inr held ↦ rw held
]

pub after_confirm-documents :
    (id ticket : ℕ) (db : Db)
    → (after_confirm id ticket db).documents
      ≡ update_if (waiting id ticket) (with_status confirming) db.documents
after_confirm-documents id ticket db = release_if-documents _ id _

none_left :
    (p : OfficialDocument → Bool) (s : ReservationStatus) (ds : List OfficialDocument)
    → ((d : OfficialDocument) → p (with_status s d) ≡ false)
    → count_if p (update_if p (with_status s) ds) ≡ 0
none_left p s [] gone = refl
none_left p s (d ∷ ds) gone = ground (arith, gone d, none_left p s ds gone)

waiting_gone :
    (id ticket : ℕ) (d : OfficialDocument) → waiting id ticket (with_status confirming d) ≡ false
waiting_gone id ticket d = ground arith

pub confirming_now :
    (id ticket : ℕ) (ds : List OfficialDocument)
    → count_if (waiting id ticket) ds
      ≤ count_if
          (ticket_row is_confirming id ticket)
          (update_if (waiting id ticket) (with_status confirming) ds)
confirming_now id ticket [] = omega arith
confirming_now id ticket (d ∷ ds) = ground (arith, confirming_now id ticket ds)

confirm_stale :
    (id ticket : ℕ) (db : Db)
    → count_if (waiting id ticket) db.documents ≡ 0
    → confirm_number id ticket db ≡ raised stale_reservation
unfolding confirm_number
confirm_stale id ticket db h = rw h

finalize_done :
    (id ticket : ℕ) (db : Db)
    → 0 < count_if (ticket_row is_confirming id ticket) db.documents
    → (finalize_number id ticket db).0 ≡ done
unfolding finalize_number
finalize_done id ticket db h =
    elim (Bool-cases (count_if (ticket_row is_confirming id ticket) db.documents == 0)) [
      | inl stale ↦ absurd (ground arith)
      | inr held ↦ rw held
    ]

update_none :
    (p : OfficialDocument → Bool) (f : OfficialDocument → OfficialDocument)
    (ds : List OfficialDocument)
    → count_if p ds ≡ 0
    → update_if p f ds ≡ ds
update_none p f [] h = refl
update_none p f (d ∷ ds) h = ground (arith, update_none p f ds)

and_false : (b : Bool) → (b && false) ≡ false
and_false true = refl
and_false false = refl

-- A cancellation that passes no row changes nothing.
cancel_nothing :
    (id : ℕ) (ticket : Option ℕ) (from : List ReservationStatus) (db : Db)
    (od : Option OfficialDocument)
    → count_if (cancel_row from id ticket) db.documents ≡ 0
    → cancel_found from id ticket db od ≡ (0, db)
cancel_nothing id ticket from db none h = refl
cancel_nothing id ticket from db (some od) h = rw (
  h,
  and_false (is_special od.regime),
  update_none (cancel_row from id ticket) (with_status cancelled) db.documents h,
)

cancel_waits :
    (id ticket : ℕ) (ds : List OfficialDocument)
    → count_if (cancel_row (reserved ∷ []) id (some ticket)) ds ≡ count_if (waiting id ticket) ds
cancel_waits id ticket [] = refl
cancel_waits id ticket (d ∷ ds) = ground (arith, cancel_waits id ticket ds)

-- Where the reservation is RESERVED under the ticket: `confirm_number` returns; a second
-- `confirm_number` with the ticket then raises StaleReservationError, `finalize_number` finds the
-- rows that it is to finalize, and `cancel_number` with the ticket, on its default states, cancels
-- no row and leaves the tables as they are.
pub confirm-once :
    (id ticket : ℕ) (db : Db)
    → 0 < count_if (waiting id ticket) db.documents
    → (db' : Db) × (confirm_number id ticket db ≡ ok (tt, db'))
      × (confirm_number id ticket db' ≡ raised stale_reservation)
      × ((finalize_number id ticket db').0 ≡ done)
      × ((reason : Text) (alert : Bool)
          → let (c, db'') = cancel_number id reason (some ticket) alert (reserved ∷ []) db' in
            (c.rows_cancelled ≡ 0) × (db'' ≡ db'))
unfolding cancel_number
confirm-once id ticket db h =
    let db' = after_confirm id ticket db in
    let moved = after_confirm-documents id ticket db in
    let nobody : count_if (waiting id ticket) db'.documents ≡ 0 =
      rw moved (none_left (waiting id ticket) confirming db.documents (waiting_gone id ticket)) in
    (
      db',
      confirm_ok id ticket db h,
      confirm_stale id ticket db' nobody,
      finalize_done id ticket db' (rw moved (omega (arith, confirming_now id ticket db.documents))),
      λ reason alert.
          let same =
            cancel_nothing id (some ticket) (reserved ∷ []) db' _
              (rw (cancel_waits id ticket db'.documents) nobody) in
          (ap (λ (p : ℕ × Db). p.0) same, ap (λ (p : ℕ × Db). p.1) same),
    )

-- The ticket that `cancel_number` is given is the reservation's, or it is given none.
abbrev pub Covers : Option ℕ → ℕ → Type 0
Covers none t = Unit
Covers (some c) t = c ≡ t

cancelled_not_waiting :
    (from : List ReservationStatus) (id t : ℕ) (ticket : Option ℕ) (d : OfficialDocument)
    → Covers ticket t
    → in_states from reserved ≡ true
    → waiting id t d ≡ true
    → cancel_row from id ticket d ≡ true
cancelled_not_waiting from id t none d c r w = ground (arith, r)
cancelled_not_waiting from id t (some u) d c r w = ground (arith, r)

missed :
    (from : List ReservationStatus) (id t : ℕ) (ticket : Option ℕ) (d : OfficialDocument)
    → Covers ticket t
    → in_states from reserved ≡ true
    → cancel_row from id ticket d ≡ false
    → waiting id t d ≡ false
missed from id t ticket d c r miss = elim (Bool-cases (waiting id t d)) [
  | inl w ↦ cc (cancelled_not_waiting from id t ticket d c r w)
  | inr n ↦ n
]

waiting_cancelled :
    (id t : ℕ) (from : List ReservationStatus) (ticket : Option ℕ) (ds : List OfficialDocument)
    → Covers ticket t
    → in_states from reserved ≡ true
    → count_if (waiting id t) (update_if (cancel_row from id ticket) (with_status cancelled) ds) ≡ 0
waiting_cancelled id t from ticket [] c r = refl
waiting_cancelled id t from ticket (d ∷ ds) c r = elim (Bool-cases (cancel_row from id ticket d)) [
  | inl hit ↦ rw hit (ground (arith, waiting_cancelled id t from ticket ds c r))
  | inr miss ↦ rw miss (
      ground (arith, waiting_cancelled id t from ticket ds c r, missed from id t ticket d c r miss))
]

nobody_waits :
    (id t : ℕ) (ds : List OfficialDocument)
    → find_if (λ d. d.id == id) ds ≡ none
    → count_if (waiting id t) ds ≡ 0
nobody_waits id t [] h = refl
nobody_waits id t (d ∷ ds) h = ground (arith, nobody_waits id t ds)

cancel_found-waiting :
    (id t : ℕ) (from : List ReservationStatus) (ticket : Option ℕ) (db : Db)
    (od : Option OfficialDocument)
    → find_if (λ d. d.id == id) db.documents ≡ od
    → Covers ticket t
    → in_states from reserved ≡ true
    → count_if (waiting id t) (cancel_found from id ticket db od).1.documents ≡ 0
cancel_found-waiting id t from ticket db none e c r = nobody_waits id t db.documents e
cancel_found-waiting id t from ticket db (some od) e c r =
    rw (if_release-documents _ od id _) (waiting_cancelled id t from ticket db.documents c r)

-- After `cancel_number`, on states that include RESERVED and with the ticket or none,
-- `confirm_number` with the ticket raises StaleReservationError.
pub cancel-beats-confirm :
    (id t : ℕ) (reason : Text) (ticket : Option ℕ) (alert : Bool) (from : List ReservationStatus)
    (db : Db)
    → Covers ticket t
    → in_states from reserved ≡ true
    → confirm_number id t (cancel_number id reason ticket alert from db).1
      ≡ raised stale_reservation
unfolding cancel_number
cancel-beats-confirm id t reason ticket alert from db c r =
    confirm_stale id t _
      (cancel_found-waiting id t from ticket db (find_if (λ d. d.id == id) db.documents) refl c r)
