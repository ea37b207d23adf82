-- ===== src/Signing/Orphans.antt =====
-- workers/sweeper_escri.py: the passes of the sweeper over the reservations that no signature is
-- working on any more.
use gdi_backend.Prelude.{
  ℕ, ◌+◌, Bool, true, false, ◌&&◌, ◌||◌, not, Option, none, some, List, [], ◌∷◌, ltb, leb, ◌==◌,
  if◌then◌else◌, any_of, keep_if, least_if,
}
use gdi_backend.Prelude.Texts.{Text, codes}
use gdi_backend.Numbering.Tables.{reserved, ReservationStatus, confirmed, OfficialDocument, Db}
use gdi_backend.Numbering.Queries.{is_reserved}
use gdi_backend.Numbering.Lifecycle.{cancel_number}
use gdi_backend.Signing.Tables.{
  sign, Payload, Session, Draft, DigitalStatus, completing, waiting_batch, DigitalSession,
  is_sent_to_sign, same_column, minutes, is_live,
}
use gdi_backend.Signing.Queue.{new_session, insert_soft, with_official_number}
use gdi_backend.Signing.Sweeper.{requeue_pending_ttl}

-- The tables that a pass reads and writes.
pub record Tenant : Type 0 where
  pub sessions : List Session
  pub digitals : List DigitalSession
  pub numbers : Db
  pub drafts : List Draft

-- What a pass finds around it: the settings RESERVED_EXPIRY_TTL, CONFIRMING_EXPIRY_TTL and
-- CONFIRMING_ORPHAN_GRACE_MINUTES of the environment, as times; the clock, the columns created_at and updated_at of
-- official_documents, the uuid4 and the time that a new session gets, what the bucket answers the
-- first and the second time it is asked for a PDF (`none`: it does not answer), and which documents'
-- numbers the database fails to change.
pub record Around : Type 0 where
  pub reserved_expiry_ttl : ℕ
  pub confirming_expiry_ttl : ℕ
  pub confirming_orphan_grace : ℕ
  pub now : ℕ
  pub schema : ℕ
  pub created_at : ℕ → ℕ
  pub updated_at : ℕ → ℕ
  pub new_id : ℕ → ℕ
  pub born : ℕ
  pub exists_oficial : Text → Option Bool
  pub exists_again : Text → Option Bool
  pub fails : ℕ → Bool

abbrev pub of_reservation : Option ℕ → Session → Bool
of_reservation ticket s = same_column s.reservation_id ticket

abbrev pub is_none : Option ℕ → Bool
is_none none = true
is_none (some n) = false

abbrev pub is_finishing : DigitalStatus → Bool
is_finishing completing = true
is_finishing waiting_batch = true
is_finishing _ = false

abbrev pub has_live_session : Around → Tenant → Option ℕ → Bool
has_live_session e t ticket =
    any_of (λ s. of_reservation ticket s && s.schema_name == e.schema && is_live s.status)
      t.sessions

abbrev pub of_digital : Around → Option ℕ → DigitalSession → Bool
of_digital e ticket d = same_column d.reservation_id ticket && d.schema_name == e.schema

abbrev pub has_digital : Around → Tenant → Option ℕ → Bool
has_digital e t ticket =
    any_of
      (λ d.
        of_digital e ticket d
        && ((is_none d.consumed_at && ltb e.now d.expires_at) || is_finishing d.status))
      t.digitals

abbrev pub is_abandoned : Around → Tenant → OfficialDocument → Bool
is_abandoned e t od =
    not (has_live_session e t od.reservation_id) && not (has_digital e t od.reservation_id)

unfoldable pub reserved_orphan : Around → Tenant → OfficialDocument → Bool
reserved_orphan e t od =
    is_reserved od.status
    && ltb (e.created_at od.id + e.reserved_expiry_ttl) e.now
    && is_abandoned e t od

abbrev pub cancel_orphan : Around → OfficialDocument → ℕ → Db → Db
cancel_orphan e od ticket db =
    let (c, db') =
      cancel_number od.id (codes "sweeper_reserved_orphan") (some ticket) false (reserved ∷ [])
        db in
    if e.fails od.id then db else db'

-- A row without a ticket stops the pass: the log line cuts the ticket before anything is tried.
abbrev pub cancel_on : (Db → Db) → Around → OfficialDocument → Db → Option ℕ → Db
cancel_on next e od db none = db
cancel_on next e od db (some ticket) = next (cancel_orphan e od ticket db)

abbrev pub cancel_orphans : Around → List OfficialDocument → Db → Db
cancel_orphans e [] db = db
cancel_orphans e (od ∷ found) db = cancel_on (cancel_orphans e found) e od db od.reservation_id

-- `_handle_reserved_orphans`
unfoldable pub handle_reserved_orphans : Around → Tenant → Tenant
handle_reserved_orphans e t = record t {
  numbers = cancel_orphans e (keep_if (reserved_orphan e t) t.numbers.documents) t.numbers;
}

abbrev pub newer : Session → Session → Bool
newer a b = leb b.created_at a.created_at

-- ORDER BY created_at DESC LIMIT 1
abbrev pub last_session : Tenant → Option ℕ → Option Session
last_session t ticket = least_if newer (of_reservation ticket) t.sessions

abbrev pub confirming_job : Text → Payload
confirming_job number = record (with_official_number number) { is_confirming = true }

abbrev pub autoheal_job : Text → Payload
autoheal_job number = record (confirming_job number) { confirmed_autoheal = true }

abbrev pub insert_job : Around → Tenant → OfficialDocument → Payload → Option Session → Tenant
insert_job e t od payload none = t
insert_job e t od payload (some s) =
    let job =
      new_session (e.new_id od.id) e.born e.schema s.document_id od.reservation_id s.user_id sign
        (e.now + minutes requeue_pending_ttl) payload in
    record t { sessions = insert_soft job t.sessions }

abbrev pub is_confirmed : ReservationStatus → Bool
is_confirmed confirmed = true
is_confirmed _ = false

abbrev pub has_draft : (Draft → Bool) → Tenant → ℕ → Bool
has_draft p t id = any_of (λ d. d.id == id && p d) t.drafts

unfoldable pub confirmed_not_signed : Around → Tenant → OfficialDocument → Bool
confirmed_not_signed e t od =
    is_confirmed od.status
    && has_draft (λ d. is_sent_to_sign d.status) t od.id
    && any_of (λ s. of_reservation od.reservation_id s && s.schema_name == e.schema) t.sessions
    && not (any_of (λ s. of_reservation od.reservation_id s && is_live s.status) t.sessions)

abbrev pub autoheal : Around → List OfficialDocument → Tenant → Tenant
autoheal e [] t = t
autoheal e (od ∷ found) t =
    let job = autoheal_job od.official_number in
    autoheal e found (insert_job e t od job (last_session t od.reservation_id))

-- `_handle_confirmed_not_signed`
unfoldable pub handle_confirmed_not_signed : Around → Tenant → Tenant
handle_confirmed_not_signed e t =
    autoheal e (keep_if (confirmed_not_signed e t) t.numbers.documents) t
