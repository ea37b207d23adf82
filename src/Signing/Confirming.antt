-- ===== src/Signing/Confirming.antt =====
-- workers/sweeper_escri.py: what becomes of a number that was confirmed and whose signature never
-- finished (`_handle_confirming_expired` and what it calls), and of a confirmed document that was
-- rejected (`_handle_confirmed_rejected_conflict`).
use gdi_backend.Prelude.{
  ℕ, ◌+◌, Bool, true, false, ◌&&◌, ◌||◌, Option, none, some, List, [], ◌∷◌, ltb, leb, ◌==◌,
  if◌then◌else◌, find_if, any_of, keep_if, update_if,
}
use gdi_backend.Prelude.Texts.{Text, codes, text_eq}
use gdi_backend.Numbering.Tables.{reserved, confirming, user, citizen, OfficialDocument}
use gdi_backend.Numbering.Queries.{is_confirming}
use gdi_backend.Numbering.Lifecycle.{cancel_number, finalize_number}
use gdi_backend.Signing.Tables.{
  failed, sign, Session, Draft, signed_draft, DigitalStatus, token_pending, closed_token,
  DigitalSession, is_sent_to_sign, is_rejected_draft,
}
use gdi_backend.Signing.Queue.{new_session, insert_soft, with_official_number}
use gdi_backend.Signing.Orphans.{
  Tenant, Around, of_reservation, of_digital, is_abandoned, last_session, confirming_job,
  insert_job, is_confirmed, has_draft,
}

abbrev pub sign_draft : Text → Draft → Draft
sign_draft number d = record d { status = signed_draft; document_number = some number }

-- UPDATE document_draft … WHERE id = … AND status = 'sent_to_sign'
abbrev pub close_draft : ℕ → Text → List Draft → List Draft
close_draft id number drafts =
    update_if (λ d. d.id == id && is_sent_to_sign d.status) (sign_draft number) drafts

-- `_complete_digital_confirming_orphan`, without the publication and the mail.
abbrev pub complete_orphan : Around → OfficialDocument → ℕ → Tenant → Tenant
complete_orphan e od ticket t = if e.fails od.id then t else record t {
  numbers = (finalize_number od.id ticket t.numbers).1;
  drafts = close_draft od.id od.official_number t.drafts;
}

abbrev pub is_token_pending : DigitalStatus → Bool
is_token_pending token_pending = true
is_token_pending _ = false

abbrev pub failed_token : DigitalSession → DigitalSession
failed_token d = record d {
  status = closed_token;
  failure_reason = some (codes "confirming_orphan_timeout");
}

abbrev pub fail_tokens : Around → Option ℕ → List DigitalSession → List DigitalSession
fail_tokens e ticket digitals =
    update_if (λ d. of_digital e ticket d && is_token_pending d.status) failed_token digitals

-- `_cancel_digital_confirming_orphan`
abbrev pub cancel_confirming : Around → OfficialDocument → ℕ → Tenant → Tenant
cancel_confirming e od ticket t =
    let (c, db') =
      cancel_number od.id (codes "confirming_orphan_timeout") (some ticket) false
        (reserved ∷ confirming ∷ []) t.numbers in
    if e.fails od.id || c.rows_cancelled == 0
    then t
    else record t { numbers = db'; digitals = fail_tokens e (some ticket) t.digitals }

abbrev pub resolve_asked_again : Around → OfficialDocument → ℕ → Tenant → Option Bool → Tenant
resolve_asked_again e od ticket t none = t
resolve_asked_again e od ticket t (some true) = complete_orphan e od ticket t
resolve_asked_again e od ticket t (some false) = cancel_confirming e od ticket t

abbrev pub resolve_asked : Around → OfficialDocument → ℕ → Tenant → Option Bool → Tenant
resolve_asked e od ticket t none = t
resolve_asked e od ticket t (some true) = complete_orphan e od ticket t
resolve_asked e od ticket t (some false) =
    resolve_asked_again e od ticket t (e.exists_again od.official_number)

-- `_resolve_digital_confirming_orphan`: the bucket is asked, and asked again before a number is
-- cancelled.
unfoldable pub resolve_orphan : Around → OfficialDocument → ℕ → Tenant → Tenant
resolve_orphan e od ticket t = resolve_asked e od ticket t (e.exists_oficial od.official_number)

abbrev pub has_reason : Text → Session → Bool
has_reason reason s = elim s.failure_reason [ none ↦ false | some r ↦ text_eq r reason ]

-- A closed row that only says that the alert was sent.
abbrev pub insert_marker : Around → OfficialDocument → ℕ → Option ℕ → Text → Tenant → Tenant
insert_marker e od document who reason t =
    let row =
      record (new_session (e.new_id od.id) e.born e.schema document od.reservation_id who sign e.now
        (with_official_number od.official_number)) {
          status = failed;
          failure_reason = some reason;
        } in
    record t { sessions = insert_soft row t.sessions }

abbrev pub observe_orphan : Around → OfficialDocument → DigitalSession → Tenant → Tenant
observe_orphan e od d t =
    let reason = codes "digital_confirming_orphan" in
    let pass = λ (s : Session). of_reservation od.reservation_id s && has_reason reason s in
    if any_of pass t.sessions then t else insert_marker e od od.id (some d.user_id) reason t

abbrev pub resolve_ticket : Around → OfficialDocument → Tenant → Option ℕ → Tenant
resolve_ticket e od t none = t
resolve_ticket e od t (some ticket) = resolve_orphan e od ticket t

abbrev pub digital_orphan : Around → OfficialDocument → DigitalSession → Tenant → Tenant
digital_orphan e od d t =
    if leb (e.updated_at od.id + e.confirming_orphan_grace) e.now
    then resolve_ticket e od t od.reservation_id
    else observe_orphan e od d t

abbrev pub confirming_row : Around → OfficialDocument → Option DigitalSession → Tenant → Tenant
confirming_row e od none t =
    insert_job e t od (confirming_job od.official_number) (last_session t od.reservation_id)
confirming_row e od (some d) t = digital_orphan e od d t

abbrev pub confirming_rows : Around → List OfficialDocument → Tenant → Tenant
confirming_rows e [] t = t
confirming_rows e (od ∷ found) t =
    let who = find_if (of_digital e od.reservation_id) t.digitals in
    confirming_rows e found (confirming_row e od who t)

unfoldable pub confirming_expired : Around → Tenant → OfficialDocument → Bool
confirming_expired e t od =
    is_confirming od.status
    && ltb (e.updated_at od.id + e.confirming_expiry_ttl) e.now
    && is_abandoned e t od

-- `_handle_confirming_expired`
unfoldable pub handle_confirming_expired : Around → Tenant → Tenant
handle_confirming_expired e t =
    confirming_rows e (keep_if (confirming_expired e t) t.numbers.documents) t

abbrev pub numerator_id : OfficialDocument → Option ℕ
numerator_id od = elim od.numerator [ user u ↦ some u | citizen c ↦ none ]

abbrev pub conflict_marker : Around → OfficialDocument → Option Session → Tenant → Tenant
conflict_marker e od (some s) t =
    insert_marker e od s.document_id s.user_id (codes "confirmed_rejected_conflict") t
conflict_marker e od none t = elim (numerator_id od) [
  | none ↦ t
  | some u ↦ insert_marker e od od.id (some u) (codes "confirmed_rejected_conflict") t
]

abbrev pub is_marked : Tenant → OfficialDocument → Bool
is_marked t od =
    any_of
      (λ s.
        of_reservation od.reservation_id s && has_reason (codes "confirmed_rejected_conflict") s)
      t.sessions

abbrev pub conflict_rows : Around → List OfficialDocument → Tenant → Tenant
conflict_rows e [] t = t
conflict_rows e (od ∷ found) t =
    let marked = conflict_marker e od (last_session t od.reservation_id) t in
    conflict_rows e found (if is_marked t od then t else marked)

-- `_handle_confirmed_rejected_conflict`
unfoldable pub handle_confirmed_rejected_conflict : Around → Tenant → Tenant
handle_confirmed_rejected_conflict e t =
    let pass = λ (od : OfficialDocument).
      is_confirmed od.status && has_draft (λ d. is_rejected_draft d.status) t od.id in
    conflict_rows e (keep_if pass t.numbers.documents) t
