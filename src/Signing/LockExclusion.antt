-- ===== src/Signing/LockExclusion.antt =====
-- services/documents/signing/r2_lock.py: of the processes that acquire the lock of a document at the same
-- time one gets it.
use gdi_backend.Prelude.{
  ℕ, ◌+◌, ◌<◌, ◌≡◌, ◌≢◌, refl, sym, ap, ◌∙◌, Bool, true, false, Option, none, some, Memᴰ, arith,
  if◌then◌else◌, Bool-cases, Option-cases, inl, inr,
}
use gdi_backend.Signing.Tables.{seconds}
use gdi_backend.Signing.Lock.{
  Pdf, tosign_key, inprocess_key, get_object, r2_delete, r2_put, Desk, working, redis_lock_ttl,
  is_locked, set_lock, acquire_redis_lock, release_redis_lock, Net, Acquired, acquired, refused,
  raises,
}
use gdi_backend.Signing.LockLaws.{get_object-put_self, get_object-delete_other, release-bucket}
use gdi_backend.Signing.LockSteps.{
  Stage, outside, asking, copying, deleting, ended, take_key, ask, ask_on, copy, copy_on, delete,
  advance, World, moved, InTime, Reach, start, moves, passes,
}
use gdi_backend.Signing.LockSafety.{
  began, is_past_head, is_acquired, needs_pdf, is_there, in_process, Inv, is_locked-live,
  acquired-needs_pdf, after, lets_be, goes_on,
}

module _ (doc : ℕ) (w : World) (inv : Inv doc w) (i : ℕ) where
  abbrev now_at : Stage × Desk → World
  now_at (s, desk) = after doc w inv i s desk

  ends_without : (a : Acquired) → is_acquired (ended a) ≡ false → Inv doc (now_at (ended a, w.desk))
  ends_without acquired h = cc
  ends_without refused h' = lets_be doc w inv i (ended refused) refl (λ h. cc) (λ h. cc) (λ h. cc)
  ends_without raises h' = lets_be doc w inv i (ended raises) refl (λ h. cc) (λ h. cc) (λ h. cc)

  stays : (a : Acquired) → w.stage i ≡ ended a → Inv doc (now_at (ended a, w.desk))
  stays a e =
      lets_be doc w inv i (ended a) refl (λ h. ap is_past_head e ∙ h) (λ h. ap needs_pdf e ∙ h)
        (λ h. ap is_acquired e ∙ h)

  -- While a process has its key, no other has one.
  only_key : (t : ℕ) → began (w.stage i) ≡ some t → (j : ℕ) → j ≢ i → began (w.stage j) ≡ none
  only_key t mine j other = elim (Option-cases (began (w.stage j))) [
    | inl e ↦ e
    | inr (b, e) ↦ absurd (other (inv.one j i b t e mine))
  ]

  -- While the key is free, no process has one.
  no_key : is_locked w.now doc w.desk.locks ≡ false → (j : ℕ) → began (w.stage j) ≡ none
  no_key free j = elim (Option-cases (began (w.stage j))) [
    | inl e ↦ e
    | inr (b, e) ↦
        let (m, live) = inv.keyed j b e in
        let locked = is_locked-live w.now doc (b + seconds redis_lock_ttl) w.desk.locks m live in
        absurd (cc)
  ]

  nobody_has_it :
      get_object (inprocess_key doc) w.desk.bucket ≡ none
      → (j : ℕ) → is_acquired (w.stage j) ≡ false
  nobody_has_it missing j = elim (Bool-cases (is_acquired (w.stage j))) [
    | inl e ↦
        let there = inv.present j (acquired-needs_pdf (w.stage j) e) in
        let gone : in_process doc w.desk ≡ false = ap is_there missing in absurd (cc)
    | inr e ↦ e
  ]

  only_one : is_past_head (w.stage i) ≡ true → (j : ℕ) → j ≢ i → is_acquired (w.stage j) ≡ false
  only_one past j other = elim (Bool-cases (is_acquired (w.stage j))) [
    | inl e ↦ absurd (other (inv.alone j i e past))
    | inr e ↦ e
  ]

  gives_up :
      (t : ℕ)
      → began (w.stage i) ≡ some t
      → Inv doc (now_at (ended refused, release_redis_lock working doc w.desk))
  gives_up t mine =
      goes_on doc w inv i (ended refused) (release_redis_lock working doc w.desk) (only_key t mine)
        (λ u e. cc)
        (λ h.
          ap (λ b. is_there (get_object (inprocess_key doc) b)) (release-bucket working doc w.desk)
          ∙ h)
        (λ h. cc) (λ h. cc)

  take-Inv : Inv doc (now_at (take_key working w.now doc w.desk))
  unfolding acquire_redis_lock
  take-Inv = elim (Bool-cases (is_locked w.now doc w.desk.locks)) [
    | inl e ↦ rw e (ends_without refused refl)
    | inr e ↦ rw e (
        goes_on doc w inv i (asking w.now) (set_lock w.now doc w.desk) (λ j other. no_key e j)
          (λ t k. let same : w.now ≡ t = cc in rw (sym same) (Memᴰ.head refl, omega arith)) (λ h. h)
          (λ h. cc) (λ h. cc))
  ]

  ask-Inv :
      (net : Net) (t : ℕ)
      → began (w.stage i) ≡ some t
      → Inv doc (now_at (ask net working doc t w.desk))
  ask-Inv net t mine = go net.head
    where
      found :
          (o : Option Pdf)
          → get_object (inprocess_key doc) w.desk.bucket ≡ o
          → Inv doc (now_at (ask_on working doc t w.desk o))
      found (some pdf) e = gives_up t mine
      found none e =
          goes_on doc w inv i (copying t) w.desk (only_key t mine)
            (λ u k. let same : t ≡ u = cc in rw (sym same) (inv.keyed i t mine)) (λ h. h) (λ h. cc)
            (λ h j other. nobody_has_it e j)

      go :
          (b : Bool)
          → Inv doc (
              now_at (
                if b
                then ask_on working doc t w.desk (get_object (inprocess_key doc) w.desk.bucket)
                else (ended raises, w.desk)))
      go true = found (get_object (inprocess_key doc) w.desk.bucket) refl
      go false = ends_without raises refl

  copy-Inv :
      (net : Net) (t : ℕ) → w.stage i ≡ copying t → Inv doc (now_at (copy net working doc t w.desk))
  unfolding r2_put get_object
  copy-Inv net t here = go net.copy
    where
      mine : began (w.stage i) ≡ some t
      mine = ap began here

      past : is_past_head (w.stage i) ≡ true
      past = ap is_past_head here

      found : (o : Option Pdf) → Inv doc (now_at (copy_on working doc t w.desk o))
      found none = gives_up t mine
      found (some pdf) =
          let there : in_process doc
                (record w.desk { bucket = r2_put (inprocess_key doc) pdf w.desk.bucket })
              ≡ true =
            ap is_there (get_object-put_self (inprocess_key doc) pdf w.desk.bucket) in
          goes_on doc w inv i (deleting t) _ (only_key t mine)
            (λ u k. let same : t ≡ u = cc in rw (sym same) (inv.keyed i t mine)) (λ h. there)
            (λ h. there) (λ h j other. only_one past j other)

      go :
          (b : Bool)
          → Inv doc (
              now_at (
                if b
                then copy_on working doc t w.desk (get_object (tosign_key doc) w.desk.bucket)
                else (ended raises, w.desk)))
      go true = found (get_object (tosign_key doc) w.desk.bucket)
      go false = ends_without raises refl

  delete-Inv :
      (net : Net) (t : ℕ) → w.stage i ≡ deleting t → Inv doc (now_at (delete net doc w.desk))
  delete-Inv net t here = go net.delete
    where
      same :
          in_process doc (record w.desk { bucket = r2_delete (tosign_key doc) w.desk.bucket })
          ≡ in_process doc w.desk
      same =
          ap is_there
            (get_object-delete_other (tosign_key doc) (inprocess_key doc) w.desk.bucket refl)

      go :
          (b : Bool)
          → Inv doc (
              now_at (
                if b
                then (
                  ended acquired,
                  record w.desk { bucket = r2_delete (tosign_key doc) w.desk.bucket },
                )
                else (ended raises, w.desk)))
      go true =
          goes_on doc w inv i (ended acquired) _ (only_key t (ap began here)) (λ u k. cc)
            (λ h. same ∙ h) (λ h. same ∙ inv.present i (ap needs_pdf here))
            (λ h j other. only_one (ap is_past_head here) j other)
      go false = ends_without raises refl

  moved-Inv : (net : Net) → Inv doc (moved net working doc i w)
  unfolding advance
  moved-Inv net = go (w.stage i) refl
    where
      go : (s : Stage) → w.stage i ≡ s → Inv doc (now_at (advance net working doc w.now s w.desk))
      go outside e = take-Inv
      go (asking t) e = ask-Inv net t (ap began e)
      go (copying t) e = copy-Inv net t e
      go (deleting t) e = delete-Inv net t e
      go (ended a) e = stays a e

in_time :
    (later : ℕ) (s : Stage) {t : ℕ}
    → InTime later s
    → began s ≡ some t
    → later < t + seconds redis_lock_ttl
in_time later (asking a) {t} h e = let same : a ≡ t = cc in rw (sym same) h
in_time later (copying a) {t} h e = let same : a ≡ t = cc in rw (sym same) h
in_time later (deleting a) {t} h e = let same : a ≡ t = cc in rw (sym same) h
in_time later outside h e = cc
in_time later (ended a) h e = cc

passes-Inv :
    (doc : ℕ) (w : World) (later : ℕ)
    → Inv doc w
    → ((i : ℕ) → InTime later (w.stage i))
    → Inv doc (record w { now = later })
passes-Inv doc w later inv fine = record {
  one = inv.one;
  keyed = λ i t e. ((inv.keyed i t e).0, in_time later (w.stage i) (fine i) e);
  present = inv.present;
  alone = inv.alone;
}

Reach-Inv : {doc : ℕ} {v w : World} → Inv doc v → Reach doc v w → Inv doc w
Reach-Inv inv (start w) = inv
Reach-Inv inv (moves net i r) = moved-Inv _ _ (Reach-Inv inv r) i net
Reach-Inv inv (passes later r from fine) = passes-Inv _ _ later (Reach-Inv inv r) fine

outside-Inv : (doc : ℕ) (w : World) → ((i : ℕ) → w.stage i ≡ outside) → Inv doc w
outside-Inv doc w all = record {
  one = λ i j a b e f. let k = ap began (all i) in absurd (cc);
  keyed = λ i t e. let k = ap began (all i) in absurd (cc);
  present = λ i h. let k = ap needs_pdf (all i) in absurd (cc);
  alone = λ i j h l. let k = ap is_acquired (all i) in absurd (cc);
}

-- The lock excludes: however the calls of any processes that acquire it for a document mix, whatever
-- was there before and whichever calls of the bucket raise, while Redis works and each acquisition
-- takes less than the life of its key, two processes that have acquired the lock are one, the PDF is
-- then in process, and no other process is past asking for it.
pub Reach-excludes :
    (doc : ℕ) {v w : World}
    → ((i : ℕ) → v.stage i ≡ outside)
    → Reach doc v w
    → (i : ℕ) → w.stage i ≡ ended acquired
    → (in_process doc w.desk ≡ true) × ((j : ℕ) → is_past_head (w.stage j) ≡ true → j ≡ i)
Reach-excludes doc {v} {w} all r i got =
    let inv = Reach-Inv (outside-Inv doc v all) r in
    (inv.present i (ap needs_pdf got), λ j past. sym (inv.alone i j (ap is_acquired got) past))
