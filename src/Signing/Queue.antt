-- ===== src/Signing/Queue.antt =====
-- services/documents/signing/unified_signing.py, the INSERTs that put a job in the queue, and the
-- statement of services/documents/lifecycle/rejection.py that takes the jobs of a document out.
use gdi_backend.Prelude.{
  ℕ, ◌+◌, Bool, ◌&&◌, Option, none, some, List, [], ◌∷◌, ◌++◌, leb, ◌==◌, if◌then◌else◌, any_of,
  least_if, update_if,
}
use gdi_backend.Prelude.Texts.{Text, codes}
use gdi_backend.Signing.Tables.{
  pending, expired, JobType, sign, sign_common, Payload, Session, minutes, empty_payload, same_job,
  same_column, is_live,
}
use gdi_backend.Signing.Closing.{pending_ttl_minutes}

-- The partial unique index that `_enqueue_sign_session` names in ON CONFLICT: (schema_name,
-- document_id, user_id) WHERE job_type = 'sign' AND status IN ('pending', 'processing').
abbrev pub same_key : Session → Session → Bool
same_key s r =
    r.schema_name == s.schema_name
    && r.document_id == s.document_id
    && same_column r.user_id s.user_id

abbrev pub is_live_job : JobType → Session → Bool
is_live_job job r = same_job r.job_type job && is_live r.status

unfoldable pub breaks_index : Session → List Session → Bool
breaks_index s rows = is_live_job sign s && any_of (λ r. same_key s r && is_live_job sign r) rows

-- What an INSERT of a pending job writes. `born` is what the column defaults give for created_at and
-- updated_at, `id` the uuid4 drawn.
abbrev pub new_session : ℕ → ℕ → ℕ → ℕ → Option ℕ → Option ℕ → JobType → ℕ → Payload → Session
new_session id born schema document reservation user job expires payload = record {
  session_id = id;
  schema_name = schema;
  document_id = document;
  reservation_id = reservation;
  user_id = user;
  citizen_id = none;
  job_type = job;
  status = pending;
  failure_reason = none;
  claimed_by = none;
  claimed_at = none;
  expires_at = expires;
  available_at = none;
  created_at = born;
  updated_at = born;
  payload = payload;
}

-- An INSERT, which raises where the row breaks the index.
abbrev pub insert_session : Session → List Session → Option (List Session)
insert_session s rows = if breaks_index s rows then none else some (rows ++ (s ∷ []))

-- An INSERT under a handler that only logs.
abbrev pub insert_soft : Session → List Session → List Session
insert_soft s rows = if breaks_index s rows then rows else rows ++ (s ∷ [])

abbrev pub with_official_number : Text → Payload
with_official_number n = record empty_payload { official_number = some n }

-- What an enqueue gives back: the id of a session, or the RuntimeError.
pub data Enqueued : Type 0 where
  queued existing : ℕ → Enqueued
  not_enqueued : Enqueued

abbrev pub older : Session → Session → Bool
older a b = leb a.created_at b.created_at

abbrev pub existing_session : Option Session → Enqueued
existing_session none = not_enqueued
existing_session (some r) = existing r.session_id

abbrev pub live_of : JobType → Session → Session → Bool
live_of job s r = same_key s r && is_live_job job r

-- `_enqueue_sign_session`: ON CONFLICT DO NOTHING, and on a conflict the live session there is.
unfoldable pub enqueue_sign_session :
    ℕ → ℕ → ℕ → ℕ → ℕ → ℕ → ℕ → Text → List Session → Enqueued × List Session
enqueue_sign_session id born now schema document user reservation number rows =
    let s =
      new_session id born schema document (some reservation) (some user) sign
        (now + minutes pending_ttl_minutes) (with_official_number number) in
    if breaks_index s rows
    then (existing_session (least_if older (live_of sign s) rows), rows)
    else (queued id, rows ++ (s ∷ []))

-- The INSERT of `_try_enqueue_common_signer`. `conflicts` stands for the indexes of the table, which
-- are declared outside this repository: ON CONFLICT names none.
unfoldable pub enqueue_common_session :
    (Session → List Session → Bool) → ℕ → ℕ → ℕ → ℕ → ℕ → ℕ → List Session → Enqueued × List Session
enqueue_common_session conflicts id born now schema document user rows =
    let s =
      new_session id born schema document none (some user) sign_common
        (now + minutes pending_ttl_minutes) empty_payload in
    if conflicts s rows
    then (existing_session (least_if older (live_of sign_common s) rows), rows)
    else (queued id, rows ++ (s ∷ []))

abbrev pub is_rejected : ℕ → ℕ → Session → Bool
is_rejected document schema r =
    r.document_id == document && is_live r.status && r.schema_name == schema

abbrev pub expired_row : Text → ℕ → Session → Session
expired_row reason now r = record r {
  status = expired;
  failure_reason = some reason;
  updated_at = now;
}

-- `_expire_pending_signing_sessions`
unfoldable pub expire_pending_signing_sessions : ℕ → ℕ → ℕ → List Session → List Session
expire_pending_signing_sessions now document schema rows =
    update_if (is_rejected document schema) (expired_row (codes "document_rejected") now) rows
