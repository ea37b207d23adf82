-- ===== src/Signing/Lock.antt =====
-- services/documents/signing/r2_lock.py: the lock on the PDF of a document, a key in Redis and the
-- place of the PDF in the bucket `tosign`, which services/r2_client.py reads and writes.
use gdi_backend.Prelude.{
  ℕ, zero, suc, ◌+◌, Bool, true, false, ◌&&◌, not, Option, none, some, List, [], ◌∷◌, ltb, ◌==◌,
  if◌then◌else◌, keep_if,
}
use gdi_backend.Prelude.Texts.{Text}
use gdi_backend.Signing.Tables.{Session, seconds}
use gdi_backend.Signing.Closing.{mark_uploaded}

abbrev pub Pdf : Type 0
Pdf = List ℕ

-- `{doc_id}.pdf` and `inprocess/{doc_id}.pdf`
pub data ObjectKey : Type 0 where
  tosign_key inprocess_key : ℕ → ObjectKey

abbrev pub same_object : ObjectKey → ObjectKey → Bool
same_object (tosign_key d) (tosign_key e) = d == e
same_object (inprocess_key d) (inprocess_key e) = d == e
same_object _ _ = false

abbrev pub Bucket : Type 0
Bucket = List (ObjectKey × Pdf)

-- The object of a key; `none` is R2KeyNotFound.
unfoldable pub get_object : ObjectKey → Bucket → Option Pdf
get_object k [] = none
get_object k ((j, pdf) ∷ bucket) = if same_object j k then some pdf else get_object k bucket

-- `r2_delete`, which finds nothing wrong with a key that is not there.
unfoldable pub r2_delete : ObjectKey → Bucket → Bucket
r2_delete k [] = []
r2_delete k ((j, pdf) ∷ bucket) =
    let rest = r2_delete k bucket in if same_object j k then rest else (j, pdf) ∷ rest

-- `r2_put`
unfoldable pub r2_put : ObjectKey → Pdf → Bucket → Bucket
r2_put k pdf bucket = (k, pdf) ∷ bucket

-- What the lock is made of: the keys in Redis, each with the time it expires, the bucket, and the
-- jobs, which carry the marker of an upload.
pub record Desk : Type 0 where
  pub locks : List (ℕ × ℕ)
  pub bucket : Bucket
  pub sessions : List Session

-- There is no client, it raises, or it works.
pub data Redis : Type 0 where
  no_client failing working : Redis

-- _REDIS_LOCK_TTL, in seconds
abbrev pub redis_lock_ttl : ℕ
redis_lock_ttl = 120

unfoldable pub is_locked : ℕ → ℕ → List (ℕ × ℕ) → Bool
is_locked now doc [] = false
is_locked now doc ((d, expires) ∷ locks) =
    let rest = is_locked now doc locks in if d == doc && ltb now expires then true else rest

abbrev pub set_lock : ℕ → ℕ → Desk → Desk
set_lock now doc s = record s { locks = (doc, now + seconds redis_lock_ttl) ∷ s.locks }

-- `_acquire_redis_lock`: without Redis the lock is taken to be free.
unfoldable pub acquire_redis_lock : Redis → ℕ → ℕ → Desk → Bool × Desk
acquire_redis_lock working now doc s =
    if is_locked now doc s.locks then (false, s) else (true, set_lock now doc s)
acquire_redis_lock _ now doc s = (true, s)

unfoldable pub drop_lock : ℕ → List (ℕ × ℕ) → List (ℕ × ℕ)
drop_lock doc locks = keep_if (λ p. not (p.0 == doc)) locks

-- `_release_redis_lock`
unfoldable pub release_redis_lock : Redis → ℕ → Desk → Desk
release_redis_lock working doc s = record s { locks = drop_lock doc s.locks }
release_redis_lock _ doc s = s

-- Which calls of the bucket get through; one that does not raises.
pub record Net : Type 0 where
  pub head : Bool
  pub copy : Bool
  pub delete : Bool

pub data Acquired : Type 0 where
  acquired refused raises : Acquired

abbrev pub copied : Net → Redis → ℕ → Desk → Option Pdf → Acquired × Desk
copied net redis doc s none = (refused, release_redis_lock redis doc s)
copied net redis doc s (some pdf) =
    let bucket = r2_put (inprocess_key doc) pdf s.bucket in
    if net.delete
    then (acquired, record s { bucket = r2_delete (tosign_key doc) bucket })
    else (raises, record s { bucket = bucket })

abbrev pub headed : Net → Redis → ℕ → Desk → Option Pdf → Acquired × Desk
headed net redis doc s (some pdf) = (refused, release_redis_lock redis doc s)
headed net redis doc s none =
    if net.copy then copied net redis doc s (get_object (tosign_key doc) s.bucket) else (raises, s)

abbrev pub in_redis : Net → Redis → ℕ → Bool × Desk → Acquired × Desk
in_redis net redis doc (false, s) = (refused, s)
in_redis net redis doc (true, s) =
    if net.head
    then headed net redis doc s (get_object (inprocess_key doc) s.bucket)
    else (raises, s)

-- `acquire_signing_lock_R2`, its calls made with no other process between them; Signing/LockSteps has
-- them one by one.
unfoldable pub acquire_signing_lock : Net → Redis → ℕ → ℕ → Desk → Acquired × Desk
acquire_signing_lock net redis now doc s =
    in_redis net redis doc (acquire_redis_lock redis now doc s)

-- The attempts to delete the PDF in process, `through` telling which get through.
unfoldable pub delete_attempts : (ℕ → Bool) → ℕ → ℕ → ObjectKey → Bucket → Bool × Bucket
delete_attempts through attempt zero key bucket = (false, bucket)
delete_attempts through attempt (suc left) key bucket =
    let later = delete_attempts through (suc attempt) left key bucket in
    if through attempt then (true, r2_delete key bucket) else later

-- The session whose job uploads, and whether the UPDATE that marks it gets through.
abbrev pub mark_upload : Bool → ℕ → Option ℕ → List Session → List Session
mark_upload marks now none sessions = sessions
mark_upload marks now (some id) sessions = if marks then mark_uploaded now id sessions else sessions

abbrev pub clean_inprocess : (ℕ → Bool) → ℕ → Desk → Desk
clean_inprocess through doc s = record s {
  bucket = (delete_attempts through 0 3 (inprocess_key doc) s.bucket).1;
}

-- `is_numerator and number`: the PDF of a numerator is not put back.
abbrev pub puts_back : Bool → Option Text → Bool
puts_back is_numerator none = true
puts_back is_numerator (some []) = true
puts_back is_numerator (some (c ∷ t)) = not is_numerator

-- The arguments of `release_signing_lock_R2_success`, and which of its calls get through.
pub record Release : Type 0 where
  pub signed_pdf : Pdf
  pub is_numerator : Bool
  pub number : Option Text
  pub session_id : Option ℕ
  pub puts : Bool
  pub marks : Bool
  pub deletes : ℕ → Bool

abbrev pub uploaded : Release → ℕ → ℕ → Desk → Desk
uploaded q now doc s = record s {
  bucket = r2_put (tosign_key doc) q.signed_pdf s.bucket;
  sessions = mark_upload q.marks now q.session_id s.sessions;
}

-- `release_signing_lock_R2_success`; `none` when the upload raises, which is before anything has
-- changed.
unfoldable pub release_signing_lock_success : Redis → Release → ℕ → ℕ → Desk → Option Desk
release_signing_lock_success redis q now doc s =
    if puts_back q.is_numerator q.number
    then (if q.puts
        then some
            (clean_inprocess q.deletes doc (release_redis_lock redis doc (uploaded q now doc s)))
        else none)
    else some (clean_inprocess q.deletes doc (release_redis_lock redis doc s))

abbrev pub rolled_back : Net → ℕ → Desk → Option Pdf → Bool × Desk
rolled_back net doc s none = (true, s)
rolled_back net doc s (some pdf) =
    let bucket = r2_put (tosign_key doc) pdf s.bucket in
    if net.delete
    then (true, record s { bucket = r2_delete (inprocess_key doc) bucket })
    else (false, record s { bucket = bucket })

-- `release_signing_lock_R2_fail`, which `reclaim_orphan_inprocess` calls, and whether it returns.
unfoldable pub release_signing_lock_fail : Net → Redis → ℕ → Desk → Bool × Desk
release_signing_lock_fail net redis doc s =
    let freed = release_redis_lock redis doc s in
    if net.copy
    then rolled_back net doc freed (get_object (inprocess_key doc) freed.bucket)
    else (false, freed)

-- `delete_inprocess_on_reject`
unfoldable pub delete_inprocess_on_reject : Net → Redis → ℕ → Desk → Desk
delete_inprocess_on_reject net redis doc s =
    let freed = release_redis_lock redis doc s in
    if net.delete
    then record freed { bucket = r2_delete (inprocess_key doc) freed.bucket }
    else freed
