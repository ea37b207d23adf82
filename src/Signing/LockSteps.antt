-- ===== src/Signing/LockSteps.antt =====
-- services/documents/signing/r2_lock.py, `acquire_signing_lock_R2` call by call: the key in Redis, the
-- head, the copy and the deletion, between which other processes run.
use gdi_backend.Prelude.{ℕ, ◌+◌, ◌≤◌, ◌<◌, Option, none, some, ◌==◌, if◌then◌else◌}
use gdi_backend.Signing.Tables.{seconds}
use gdi_backend.Signing.Lock.{
  Pdf, tosign_key, inprocess_key, get_object, r2_delete, r2_put, Desk, Redis, working,
  redis_lock_ttl, acquire_redis_lock, release_redis_lock, Net, Acquired, acquired, refused, raises,
}

-- Where a process is: it has not begun; it has the key of Redis since a time and is about to ask for
-- the PDF in process, to copy the PDF, or to delete the one to sign; or it has ended.
pub data Stage : Type 0 where
  outside : Stage
  asking copying deleting : ℕ → Stage
  ended : Acquired → Stage

abbrev pub take_key : Redis → ℕ → ℕ → Desk → Stage × Desk
take_key redis now doc s =
    let (ok, s') = acquire_redis_lock redis now doc s in
    if ok then (asking now, s') else (ended refused, s')

abbrev pub ask_on : Redis → ℕ → ℕ → Desk → Option Pdf → Stage × Desk
ask_on redis doc t s (some pdf) = (ended refused, release_redis_lock redis doc s)
ask_on redis doc t s none = (copying t, s)

abbrev pub ask : Net → Redis → ℕ → ℕ → Desk → Stage × Desk
ask net redis doc t s =
    if net.head
    then ask_on redis doc t s (get_object (inprocess_key doc) s.bucket)
    else (ended raises, s)

abbrev pub copy_on : Redis → ℕ → ℕ → Desk → Option Pdf → Stage × Desk
copy_on redis doc t s none = (ended refused, release_redis_lock redis doc s)
copy_on redis doc t s (some pdf) =
    (deleting t, record s { bucket = r2_put (inprocess_key doc) pdf s.bucket })

abbrev pub copy : Net → Redis → ℕ → ℕ → Desk → Stage × Desk
copy net redis doc t s =
    if net.copy
    then copy_on redis doc t s (get_object (tosign_key doc) s.bucket)
    else (ended raises, s)

abbrev pub delete : Net → ℕ → Desk → Stage × Desk
delete net doc s =
    if net.delete
    then (ended acquired, record s { bucket = r2_delete (tosign_key doc) s.bucket })
    else (ended raises, s)

-- The next call of a process.
unfoldable pub advance : Net → Redis → ℕ → ℕ → Stage → Desk → Stage × Desk
advance net redis doc now outside s = take_key redis now doc s
advance net redis doc now (asking t) s = ask net redis doc t s
advance net redis doc now (copying t) s = copy net redis doc t s
advance net redis doc now (deleting t) s = delete net doc s
advance net redis doc now (ended a) s = (ended a, s)

-- The processes by their numbers, and what they share.
pub record World : Type 0 where
  pub now : ℕ
  pub desk : Desk
  pub stage : ℕ → Stage

abbrev pub set_stage : ℕ → Stage → (ℕ → Stage) → ℕ → Stage
set_stage i s f j = if j == i then s else f j

-- Process `i` makes its next call.
abbrev pub moved : Net → Redis → ℕ → ℕ → World → World
moved net redis doc i w =
    let (s, desk) = advance net redis doc w.now (w.stage i) w.desk in
    record w { desk = desk; stage = set_stage i s w.stage }

-- A process that is between the key and the end is so for less than the life of its key.
abbrev pub InTime : ℕ → Stage → Type 0
InTime now (asking t) = now < t + seconds redis_lock_ttl
InTime now (copying t) = now < t + seconds redis_lock_ttl
InTime now (deleting t) = now < t + seconds redis_lock_ttl
InTime now _ = Unit

-- The acquisitions of one document by any processes, with Redis working: some process makes its next
-- call, which may get through or raise, or time passes.
pub data Reach (doc : ℕ) : World → World → Type 0 where
  start : (w : World) → Reach doc w w
  moves :
      {v w : World} (net : Net) (i : ℕ) → Reach doc v w → Reach doc v (moved net working doc i w)
  passes :
      {v w : World} (later : ℕ)
      → Reach doc v w
      → w.now ≤ later
      → ((i : ℕ) → InTime later (w.stage i))
      → Reach doc v (record w { now = later })

abbrev again : Net → Redis → ℕ → ℕ → Stage × Desk → Stage × Desk
again net redis doc now (s, desk) = advance net redis doc now s desk

-- The calls of a process with no other process between them.
abbrev pub four_calls : Net → Redis → ℕ → ℕ → Desk → Stage × Desk
four_calls net redis doc now s =
    again net redis doc now
      (again net redis doc now (again net redis doc now (again net redis doc now (outside, s))))

abbrev pub as_stage : Acquired × Desk → Stage × Desk
as_stage (a, s) = (ended a, s)
