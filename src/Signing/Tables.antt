-- ===== src/Signing/Tables.antt =====
-- public.signing_sessions, the queue of signing jobs that workers/escri.py, the sweeper
-- (workers/sweeper_escri.py) and the endpoints share: a row, and the tests on it.
use gdi_backend.Prelude.{ℕ, ◌*◌, Bool, true, false, ◌&&◌, Option, none, some, ◌==◌, eq_some}
use gdi_backend.Prelude.Texts.{Text}

pub data Status : Type 0 where
  pending processing signed failed expired : Status

pub data JobType : Type 0 where
  sign sign_common sign_citizen digital_complete dts : JobType

-- The keys of the JSON column `payload` that the code reads. A key that is not there is `none`,
-- or `false` where the code only asks whether it is true.
pub record Payload : Type 0 where
  pub official_number : Option Text
  pub is_confirming : Bool
  pub confirmed_autoheal : Bool
  pub update_retry_count : Option ℕ
  pub guard_check_attempts : Option ℕ
  pub tsa_attempts : Option ℕ
  pub signed_uploaded : Bool
  pub unsigned_sha256 : Option ℕ
  pub publish_failed : Bool

-- A row. Times are in microseconds; a worker is the number of its `hostname:pid`.
pub record Session : Type 0 where
  pub session_id : ℕ
  pub schema_name : ℕ
  pub document_id : ℕ
  pub reservation_id : Option ℕ
  pub user_id : Option ℕ
  pub citizen_id : Option ℕ
  pub job_type : JobType
  pub status : Status
  pub failure_reason : Option Text
  pub claimed_by : Option ℕ
  pub claimed_at : Option ℕ
  pub expires_at : ℕ
  pub available_at : Option ℕ
  pub created_at : ℕ
  pub updated_at : ℕ
  pub payload : Payload

pub data DraftStatus : Type 0 where
  draft sent_to_sign signed_draft rejected other_draft : DraftStatus

-- A row of document_draft.
pub record Draft : Type 0 where
  pub id : ℕ
  pub status : DraftStatus
  pub document_number : Option Text

-- A row of document_signers; `signed_at` is the time of the signature.
pub record Signer : Type 0 where
  pub document_id : ℕ
  pub user_id : ℕ
  pub signed_at : Option ℕ

-- public.digital_signature_sessions, the signatures with a token; the statuses that the sweeper
-- tells apart.
pub data DigitalStatus : Type 0 where
  token_pending completing waiting_batch closed_token : DigitalStatus

pub record DigitalSession : Type 0 where
  pub reservation_id : Option ℕ
  pub schema_name : ℕ
  pub user_id : ℕ
  pub status : DigitalStatus
  pub failure_reason : Option Text
  pub consumed_at : Option ℕ
  pub expires_at : ℕ

abbrev pub is_sent_to_sign : DraftStatus → Bool
is_sent_to_sign sent_to_sign = true
is_sent_to_sign _ = false

abbrev pub is_signed_draft : DraftStatus → Bool
is_signed_draft signed_draft = true
is_signed_draft _ = false

abbrev pub is_rejected_draft : DraftStatus → Bool
is_rejected_draft rejected = true
is_rejected_draft _ = false

-- The comparison of two nullable columns.
abbrev pub same_column : Option ℕ → Option ℕ → Bool
same_column none b = false
same_column (some a) b = eq_some b a

abbrev pub seconds : ℕ → ℕ
seconds n = n * 1_000_000

abbrev pub minutes : ℕ → ℕ
minutes n = n * 60_000_000

-- COALESCE(payload, '{}')
abbrev pub empty_payload : Payload
empty_payload = record {
  official_number = none;
  is_confirming = false;
  confirmed_autoheal = false;
  update_retry_count = none;
  guard_check_attempts = none;
  tsa_attempts = none;
  signed_uploaded = false;
  unsigned_sha256 = none;
  publish_failed = false;
}

abbrev pub same_status : Status → Status → Bool
same_status pending pending = true
same_status processing processing = true
same_status signed signed = true
same_status failed failed = true
same_status expired expired = true
same_status _ _ = false

abbrev pub same_job : JobType → JobType → Bool
same_job sign sign = true
same_job sign_common sign_common = true
same_job sign_citizen sign_citizen = true
same_job digital_complete digital_complete = true
same_job dts dts = true
same_job _ _ = false

-- status IN ('pending', 'processing')
abbrev pub is_live : Status → Bool
is_live pending = true
is_live processing = true
is_live _ = false

-- session_id = … AND status = …
abbrev pub row_in : Status → ℕ → Session → Bool
row_in s id r = r.session_id == id && same_status r.status s

-- … AND claimed_by = …
abbrev pub claimed_row : ℕ → ℕ → Session → Bool
claimed_row worker id r = row_in processing id r && eq_some r.claimed_by worker

-- claimed_by = NULL, claimed_at = NULL, status = 'pending'
abbrev pub unclaimed : Session → Session
unclaimed r = record r { status = pending; claimed_by = none; claimed_at = none }
