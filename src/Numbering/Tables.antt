-- ===== src/Numbering/Tables.antt =====
-- The tables that shared/numbering.py reads and writes, as lists of rows, the errors that it
-- raises, and a transaction: a function on the tables that commits, or raises and rolls back.
use gdi_backend.Prelude.{ℕ, ◌≡◌, refl, Bool, Option, List}
use gdi_backend.Numbering.Format.{Text}

pub data ReservationStatus : Type 0 where
  reserved confirming confirmed cancelled : ReservationStatus

pub data Regime : Type 0 where
  global special : Regime

-- `numerator_id` or `numerator_citizen`: exactly one of the two columns is set.
pub data Numerator : Type 0 where
  user : ℕ → Numerator
  citizen : ℕ → Numerator

-- Columns that are stored and not read again by this module.
pub record Payload : Type 0 where
  pub reference : Text
  pub content : Text
  pub resume : Option Text
  pub signers : List ℕ
  pub signer_sector_ids : List ℕ

-- A row of official_documents. Times are in microseconds.
pub record OfficialDocument : Type 0 where
  pub id : ℕ
  pub official_number : Text
  pub year : ℕ
  pub department_id : ℕ
  pub numerator : Numerator
  pub document_type_id : ℕ
  pub global_sequence : Option ℕ
  pub special_number : Option ℕ
  pub regime : Regime
  pub status : ReservationStatus
  pub reserved_at : Option ℕ
  pub reservation_id : Option ℕ
  pub batch_id : Option ℕ
  pub payload : Payload

-- A row of document_number_counters.
pub record Counter : Type 0 where
  pub document_type_id : ℕ
  pub year : ℕ
  pub department_id : ℕ
  pub last_number : ℕ
  pub active_document_id : Option ℕ
  pub active_batch_id : Option ℕ

pub record Municipality : Type 0 where
  pub schema_name : ℕ
  pub acronym : Text

pub record Department : Type 0 where
  pub id : ℕ
  pub acronym : Option Text
  pub is_active : Bool
  pub is_system : Bool

pub record Sector : Type 0 where
  pub id : ℕ
  pub department_id : Option ℕ

pub record User : Type 0 where
  pub id : ℕ
  pub sector_id : Option ℕ

pub record DocumentType : Type 0 where
  pub id : ℕ
  pub special_numbering : Bool

-- `chunks` lists the official_document_id of each row of document_chunks.
pub record Db : Type 0 where
  pub municipalities : List Municipality
  pub departments : List Department
  pub sectors : List Sector
  pub users : List User
  pub document_types : List DocumentType
  pub documents : List OfficialDocument
  pub chunks : List ℕ
  pub counters : List Counter

pub data Constraint : Type 0 where
  official_documents_pkey : Constraint
  other_constraint : ℕ → Constraint

pub data Error : Type 0 where
  city_acronym_missing user_missing department_fallback_missing tad_department_missing : Error
  document_type_missing special_not_supported : Error
  type_error : Error
  stale_reservation : Error
  special_lane_busy : Error
  unique_violation : Constraint → Error

-- What a function of the module gives back: its value, or an exception.
pub data Result {ℓ} (A : Type ℓ) : Type ℓ where
  ok : A → Result A
  -- the exception, which leaves the transaction
  raised : Error → Result A

-- The statements that come after a call run when it returns.
module _ {ℓ κ} {A : Type ℓ} {B : Type κ} where
  infixl 5 ◌>>=◌
  abbrev pub ◌>>=◌ : Result A → (A → Result B) → Result B
  ok value >>= after = after value
  raised problem >>= after = raised problem

-- `async with get_conn(…)`: the tables that a raise leaves are those before the transaction.
abbrev pub committed {ℓ} : {A : Type ℓ} → Db → Result (A × Db) → Db
committed db (ok (a, db')) = db'
committed db (raised e) = db

-- A transaction that goes on after a step that reads: what holds of the tables at the start, and
-- after each way to go on, holds at the end.
pub committed-bind {ℓ κ ι} :
    {A : Type ℓ} {B : Type κ} (db : Db) (P : Db → Type ι) (m : Result A) (f : A → Result (B × Db))
    → P db
    → ((a : A) → m ≡ ok a → P (committed db (f a)))
    → P (committed db (m >>= f))
committed-bind db P (ok a) f h go = go a refl
committed-bind db P (raised e) f h go = h

-- What a run finds around it. `violated` is the database's answer to an INSERT (the constraints are
-- declared outside this repository), `locked` says which rows another transaction holds
-- (`FOR UPDATE SKIP LOCKED` leaves them out), `sorts_before` is the collation's order on
-- departments, `now` the clock and `ticket` the uuid4 drawn.
pub record Env : Type 0 where
  pub now : ℕ
  pub ticket : ℕ
  pub locked : ℕ → Bool
  pub violated : OfficialDocument → List OfficialDocument → Option Constraint
  pub sorts_before : Department → Department → Bool

-- The arguments of the numbering functions.
pub record Request : Type 0 where
  pub type_acronym : Text
  pub year : ℕ
  pub schema_name : ℕ
  pub document_id : ℕ
  pub document_type_id : ℕ
  pub payload : Payload
  pub batch_id : Option ℕ

-- `Tuple[str, str, int, str]`. A reused row's nullable columns come back as they are.
pub record Reservation : Type 0 where
  pub number : Text
  pub department : ℕ
  pub sequence : Option ℕ
  pub reservation : Option ℕ
