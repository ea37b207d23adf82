-- ===== src/Signing/LockScenarios.antt =====
-- Runs of the lock on a PDF (services/documents/signing/r2_lock.py) on a concrete bucket.
use gdi_backend.Prelude.{ℕ, ◌≡◌, ◌≢◌, refl, true, false, none, some, [], ◌∷◌, ◌==◌}
use gdi_backend.Signing.Lock.{
  Pdf, tosign_key, inprocess_key, get_object, r2_delete, r2_put, Desk, Redis, no_client, working,
  is_locked, acquire_redis_lock, drop_lock, release_redis_lock, Net, acquired, acquire_signing_lock,
  delete_attempts, Release, release_signing_lock_success, release_signing_lock_fail,
}
use gdi_backend.Signing.LockLaws.{sound, acquire-release_fail}
use gdi_backend.Signing.LockSteps.{outside, ended, World, moved, advance, Reach}
use gdi_backend.Signing.LockSafety.{in_process, is_past_head}
use gdi_backend.Signing.LockExclusion.{Reach-excludes}
use gdi_backend.Signing.LockNext.{any_through, release_success-next}

-- Document 42 waits for its signature.
abbrev desk : Desk
desk = record { locks = []; bucket = (tosign_key 42, 1 ∷ 2 ∷ []) ∷ []; sessions = [] }

abbrev held_desk : Desk
held_desk = (acquire_signing_lock sound working 10 42 desk).1

desk_acquired : acquire_signing_lock sound working 10 42 desk ≡ (acquired, held_desk)
unfolding acquire_signing_lock acquire_redis_lock is_locked get_object r2_put r2_delete
desk_acquired = refl

abbrev at_rest : World
at_rest = record { now = 10; desk = desk; stage = λ i. outside }

-- Process 1 takes the key, process 2 asks for it and is refused, and process 1 goes on to the end.
abbrev raced : World
raced = moved sound working 42 1 (
    moved sound working 42 1
      (moved sound working 42 1 (moved sound working 42 2 (moved sound working 42 1 at_rest))))

Reach-excludes_example :
    (in_process 42 raced.desk ≡ true) × ((j : ℕ) → is_past_head (raced.stage j) ≡ true → j ≡ 1)
unfolding advance acquire_redis_lock is_locked get_object r2_put r2_delete
Reach-excludes_example =
    Reach-excludes 42 {v = at_rest} {w = raced} (λ i. refl)
      (Reach.moves sound 1 (
        Reach.moves sound 1
          (Reach.moves sound 1 (Reach.moves sound 2 (Reach.moves sound 1 (Reach.start at_rest))))))
      1 refl

-- Without Redis both may acquire it: each asks before the other has copied.
abbrev in_turn : World → World
in_turn w = moved sound no_client 42 2 (moved sound no_client 42 1 w)

abbrev copied_by_both : World
copied_by_both = in_turn (in_turn (in_turn at_rest))

both_without_redis :
    let w = moved sound no_client 42 2 (moved sound no_client 42 1 copied_by_both) in
    (w.stage 1 ≡ ended acquired) × (w.stage 2 ≡ ended acquired)
unfolding advance acquire_redis_lock get_object r2_put r2_delete
both_without_redis = (refl, refl)

acquire-release_fail_example :
    let (returned, desk') = release_signing_lock_fail sound no_client 42 held_desk in
    (returned ≡ true)
    × (get_object (tosign_key 42) desk'.bucket ≡ get_object (tosign_key 42) desk.bucket)
acquire-release_fail_example =
    acquire-release_fail sound working no_client 10 42 desk held_desk (tosign_key 42) desk_acquired

-- The second attempt to delete gets through.
abbrev release : Release
release = record {
  signed_pdf = 3 ∷ [];
  is_numerator = false;
  number = none;
  session_id = none;
  puts = true;
  marks = true;
  deletes = λ n. n == 1;
}

abbrev released_desk : Desk
released_desk = record { locks = []; bucket = (tosign_key 42, 3 ∷ []) ∷ []; sessions = [] }

desk_released : release_signing_lock_success working release 20 42 held_desk ≡ some released_desk
unfolding acquire_signing_lock acquire_redis_lock is_locked get_object r2_put r2_delete
    release_signing_lock_success release_redis_lock drop_lock delete_attempts
desk_released = refl

release_success-next_example :
    (any_through release.deletes ≡ true
      → (later : ℕ)
      → (t : Desk) × (acquire_signing_lock sound working later 42 released_desk ≡ (acquired, t))
        × (get_object (inprocess_key 42) t.bucket ≡ some (3 ∷ [])))
    × (any_through release.deletes ≡ false
        → (pdf : Pdf) → get_object (inprocess_key 42) held_desk.bucket ≡ some pdf
        → (net : Net) (redis : Redis) (later : ℕ)
        → (acquire_signing_lock net redis later 42 released_desk).0 ≢ acquired)
release_success-next_example =
    release_success-next release 20 42 held_desk released_desk refl desk_released
