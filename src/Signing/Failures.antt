-- ===== src/Signing/Failures.antt =====
-- workers/escri.py, `_failure_code`: the exceptions that end a job, and the code that the job is failed
-- with.
use gdi_backend.Prelude.{
  ℕ, Bool, true, false, ◌&&◌, ◌||◌, Option, none, some, [], ◌∷◌, ◌++◌, leb, ◌==◌, if◌then◌else◌,
  ◌-◌, map,
}
use gdi_backend.Prelude.Texts.{Text, codes}
use gdi_backend.Numbering.Format.{decimal}

-- The classes that the code tells apart, with the attributes that it reads; `other` is any other
-- class, by its name and its message.
pub data Failure : Type 0 where
  hash_mismatch preoficial_not_provisioned notary_timeout postgres_error : Failure
  breaker_open : ℕ → Failure
  notary_business : Text → Failure
  notary_unavailable : Option ℕ → Bool → Failure
  other : Text → Text → Failure

unfoldable pub starts_with : Text → Text → Bool
starts_with [] t = true
starts_with (c ∷ s) [] = false
starts_with (c ∷ s) (d ∷ t) = c == d && starts_with s t

-- `needle in text`
unfoldable pub contains : Text → Text → Bool
contains needle [] = starts_with needle []
contains needle (c ∷ t) = starts_with needle (c ∷ t) || contains needle t

-- `upper()` on the letters of ASCII; no other letter becomes one of those looked for.
abbrev pub upper_code : ℕ → ℕ
upper_code c = if leb 97 c && leb c 122 then c - 32 else c

-- `"notary_fullpage" in str(exc).lower() or "FULLPAGE" in str(exc).upper()`: the second holds when the
-- first does.
abbrev pub is_fullpage : Text → Bool
is_fullpage message = contains (codes "FULLPAGE") (map upper_code message)

abbrev pub is_server_error : ℕ → Bool
is_server_error sc = sc == 500 || sc == 502 || sc == 503 || sc == 504

abbrev pub connect_code : Bool → Text
connect_code has_kind = if has_kind then codes "notary_connect_error" else codes "notary_5xx"

abbrev pub unavailable_code : Option ℕ → Bool → Text
unavailable_code none has_kind = connect_code has_kind
unavailable_code (some sc) has_kind =
    if is_server_error sc then codes "notary_" ++ decimal sc else connect_code has_kind

-- `_failure_code`
unfoldable pub failure_code : Failure → Text
failure_code hash_mismatch = codes "pdf_integrity_failed"
failure_code (breaker_open retry_after) = codes "notary_circuit_open"
failure_code preoficial_not_provisioned = codes "preoficial_not_provisioned"
failure_code (notary_business message) =
    if is_fullpage message then codes "notary_fullpage" else codes "notary_business_error"
failure_code notary_timeout = codes "notary_timeout"
failure_code (notary_unavailable sc has_kind) = unavailable_code sc has_kind
failure_code postgres_error = codes "db_error"
failure_code (other name message) =
    if contains (codes "pdf_too_large") message
    then codes "pdf_too_large"
    else codes "unknown:" ++ name
