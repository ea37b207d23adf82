-- ===== src/Signing/Sweeper.antt =====
-- workers/sweeper_escri.py: the passes of the sweeper over the queue and the reservations of a tenant.
use gdi_backend.Prelude.{
  ℕ, ◌+◌, Bool, true, ◌&&◌, Option, none, some, List, [], ◌∷◌, ltb, ◌==◌, if◌then◌else◌, keep_if,
  update_if,
}
use gdi_backend.Prelude.Texts.{Text, codes}
use gdi_backend.Numbering.Tables.{OfficialDocument}
use gdi_backend.Numbering.Queries.{is_confirming, truthy_text}
use gdi_backend.Signing.Tables.{
  Status, pending, processing, JobType, sign, sign_common, dts, Payload, Session, minutes,
  same_status, same_job, row_in, unclaimed,
}
use gdi_backend.Signing.Queue.{expired_row}

-- REQUEUE_PENDING_TTL and DTS_REQUEUE_PENDING_TTL
abbrev pub requeue_pending_ttl : ℕ
requeue_pending_ttl = 30

abbrev pub dts_requeue_pending_ttl : ℕ
dts_requeue_pending_ttl = 60

abbrev pub is_overdue : ℕ → ℕ → JobType → Status → Session → Bool
is_overdue now schema job status r =
    r.schema_name == schema
    && same_job r.job_type job
    && same_status r.status status
    && ltb r.expires_at now

abbrev pub offline_reason : Text
offline_reason = codes "pending_expired_worker_offline"

-- `_handle_pending_expired`, and the statement of `_handle_common_pending_expired`.
abbrev pub expire_pending : ℕ → ℕ → JobType → List Session → List Session
expire_pending now schema job rows =
    update_if (is_overdue now schema job pending) (expired_row offline_reason now) rows

-- RETURNING document_id: the documents whose lock `_handle_common_pending_expired` then releases.
abbrev pub expired_documents : ℕ → ℕ → List Session → List ℕ
expired_documents now schema [] = []
expired_documents now schema (r ∷ rows) =
    let rest = expired_documents now schema rows in
    if is_overdue now schema sign_common pending r then r.document_id ∷ rest else rest

abbrev pub healed_text : Option Text → Text → Option Text
healed_text p n = elim (truthy_text p) [
  | none ↦ elim (truthy_text (some n)) [ none ↦ p | some m ↦ some m ]
  | some m ↦ p
]

-- What `_handle_processing_expired` makes of the payload; `od` is the row of official_documents, or
-- nothing when it is missing or cannot be read.
abbrev pub confirming_payload : Option OfficialDocument → Payload → Payload
confirming_payload none p = p
confirming_payload (some od) p =
    if is_confirming od.status
    then record p {
      is_confirming = true;
      official_number = healed_text p.official_number od.official_number;
    }
    else p

abbrev pub reclaimed : ℕ → ℕ → Session → Session
reclaimed now ttl r = record (unclaimed r) { expires_at = now + minutes ttl; updated_at = now }

abbrev pub reclaimed_with : ℕ → Payload → Session → Session
reclaimed_with now payload r = record (reclaimed now 30 r) { payload = payload }

abbrev pub requeue_row : ℕ → (ℕ → Option OfficialDocument) → Session → List Session → List Session
requeue_row now od s rows =
    let payload = confirming_payload (od s.document_id) s.payload in
    update_if (row_in processing s.session_id) (reclaimed_with now payload) rows

-- The rows that the SELECT found, one after another.
abbrev pub requeue_rows :
    ℕ → (ℕ → Option OfficialDocument) → List Session → List Session → List Session
requeue_rows now od [] rows = rows
requeue_rows now od (s ∷ found) rows = requeue_rows now od found (requeue_row now od s rows)

-- `_handle_processing_expired`
unfoldable pub handle_processing_expired :
    ℕ → ℕ → (ℕ → Option OfficialDocument) → List Session → List Session
handle_processing_expired now schema od rows =
    requeue_rows now od (keep_if (is_overdue now schema sign processing) rows) rows

abbrev pub reclaimed_dts : ℕ → Session → Session
reclaimed_dts now r = record (reclaimed now dts_requeue_pending_ttl r) { available_at = none }

-- `_handle_dts_processing_expired`
abbrev pub handle_dts_processing_expired : ℕ → ℕ → List Session → List Session
handle_dts_processing_expired now schema rows =
    update_if (is_overdue now schema dts processing) (reclaimed_dts now) rows

-- `_handle_common_processing_expired`
abbrev pub handle_common_processing_expired : ℕ → ℕ → List Session → List Session
handle_common_processing_expired now schema rows =
    update_if (is_overdue now schema sign_common processing) (reclaimed now 30) rows
