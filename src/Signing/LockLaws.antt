-- ===== src/Signing/LockLaws.antt =====
-- services/documents/signing/r2_lock.py: one signer at a time holds the PDF of a document, a failed
-- signature puts it back, and a finished one leaves it to the next signer.
use gdi_backend.Prelude.{
  ℕ, ◌≡◌, ◌≢◌, refl, sym, ap, ◌∙◌, Bool, true, false, Option, none, some, [], ◌∷◌, arith, ==_refl,
  Bool-cases, inl, inr,
}
use gdi_backend.Signing.Lock.{
  Pdf, ObjectKey, tosign_key, inprocess_key, same_object, Bucket, get_object, r2_delete, r2_put,
  Desk, Redis, no_client, failing, working, is_locked, acquire_redis_lock, release_redis_lock, Net,
  acquired, copied, headed, in_redis, acquire_signing_lock, release_signing_lock_fail,
}

same_object_refl : (k : ObjectKey) → same_object k k ≡ true
same_object_refl (tosign_key d) = ==_refl d
same_object_refl (inprocess_key d) = ==_refl d

same_object→eq : (j k : ObjectKey) → same_object j k ≡ true → j ≡ k
same_object→eq (tosign_key d) (tosign_key e) h = let q : d ≡ e = ground (arith, h) in rw q refl
same_object→eq (inprocess_key d) (inprocess_key e) h =
    let q : d ≡ e = ground (arith, h) in rw q refl
same_object→eq (tosign_key d) (inprocess_key e) h = cc
same_object→eq (inprocess_key d) (tosign_key e) h = cc

pub get_object-put_self :
    (k : ObjectKey) (pdf : Pdf) (b : Bucket) → get_object k (r2_put k pdf b) ≡ some pdf
unfolding get_object r2_put
get_object-put_self k pdf b = rw (same_object_refl k) refl

pub get_object-put_other :
    (j k : ObjectKey) (pdf : Pdf) (b : Bucket)
    → same_object j k ≡ false
    → get_object k (r2_put j pdf b) ≡ get_object k b
unfolding get_object r2_put
get_object-put_other j k pdf b h = rw h refl

pub get_object-delete_self : (k : ObjectKey) (b : Bucket) → get_object k (r2_delete k b) ≡ none
unfolding get_object r2_delete
get_object-delete_self k [] = refl
get_object-delete_self k ((j, pdf) ∷ b) = elim (Bool-cases (same_object j k)) [
  | inl e ↦ rw e (get_object-delete_self k b)
  | inr e ↦ rw e (rw e (get_object-delete_self k b))
]

pub get_object-delete_other :
    (j k : ObjectKey) (b : Bucket)
    → same_object j k ≡ false
    → get_object k (r2_delete j b) ≡ get_object k b
unfolding get_object r2_delete
get_object-delete_other j k [] h = refl
get_object-delete_other j k ((i, pdf) ∷ b) h = elim (Bool-cases (same_object i j)) [
  | inl e ↦
      let other : same_object i k ≡ false = rw (same_object→eq i j e) h in
      rw (e, other) (get_object-delete_other j k b h)
  | inr e ↦ elim (Bool-cases (same_object i k)) [
    | inl same ↦ rw (e, same) refl
    | inr differs ↦ rw (e, differs) (get_object-delete_other j k b h)
  ]
]

redis-bucket :
    (redis : Redis) (now doc : ℕ) (s : Desk)
    → (acquire_redis_lock redis now doc s).1.bucket ≡ s.bucket
unfolding acquire_redis_lock
redis-bucket no_client now doc s = refl
redis-bucket failing now doc s = refl
redis-bucket working now doc s = elim (Bool-cases (is_locked now doc s.locks)) [
  | inl e ↦ rw e refl
  | inr e ↦ rw e refl
]

pub release-bucket :
    (redis : Redis) (doc : ℕ) (s : Desk) → (release_redis_lock redis doc s).bucket ≡ s.bucket
unfolding release_redis_lock
release-bucket no_client doc s = refl
release-bucket failing doc s = refl
release-bucket working doc s = refl

-- While the PDF is in process, nobody acquires the lock.
pub acquire-blocked :
    (net : Net) (redis : Redis) (now doc : ℕ) (s : Desk) {pdf : Pdf}
    → get_object (inprocess_key doc) s.bucket ≡ some pdf
    → (acquire_signing_lock net redis now doc s).0 ≢ acquired
unfolding acquire_signing_lock
acquire-blocked net redis now doc s {pdf} held =
    go (acquire_redis_lock redis now doc s)
      (ap (λ b. get_object (inprocess_key doc) b) (redis-bucket redis now doc s) ∙ held)
  where
    go :
        (r : Bool × Desk)
        → get_object (inprocess_key doc) r.1.bucket ≡ some pdf
        → (in_redis net redis doc r).0 ≢ acquired
    go (false, s') h = λ e. cc
    go (true, s') h = elim (Bool-cases net.head) [
      | inl e ↦ rw (e, h) (λ k. cc)
      | inr e ↦ rw e (λ k. cc)
    ]

copied-acquired :
    (net : Net) (redis : Redis) (doc : ℕ) (q s' : Desk) (o : Option Pdf)
    → copied net redis doc q o ≡ (acquired, s')
    → (pdf : Pdf) × (o ≡ some pdf)
      × (s'.bucket ≡ r2_delete (tosign_key doc) (r2_put (inprocess_key doc) pdf q.bucket))
copied-acquired net redis doc q s' none k = cc
copied-acquired net redis doc q s' (some pdf) k = elim (Bool-cases net.delete) [
  | inl e ↦
      let b = r2_delete (tosign_key doc) (r2_put (inprocess_key doc) pdf q.bucket) in
      let same : record q { bucket = b } ≡ s' = cc in (pdf, refl, ap (λ x. x.bucket) (sym same))
  | inr e ↦ cc
]

headed-acquired :
    (net : Net) (redis : Redis) (doc : ℕ) (q s' : Desk) (o : Option Pdf)
    → headed net redis doc q o ≡ (acquired, s')
    → (o ≡ none) × (copied net redis doc q (get_object (tosign_key doc) q.bucket) ≡ (acquired, s'))
headed-acquired net redis doc q s' (some pdf) k = cc
headed-acquired net redis doc q s' none k = elim (Bool-cases net.copy) [
  | inl e ↦ (refl, cc)
  | inr e ↦ cc
]

in_redis-acquired :
    (net : Net) (redis : Redis) (doc : ℕ) (r : Bool × Desk) (s' : Desk)
    → in_redis net redis doc r ≡ (acquired, s')
    → headed net redis doc r.1 (get_object (inprocess_key doc) r.1.bucket) ≡ (acquired, s')
in_redis-acquired net redis doc (false, q) s' k = cc
in_redis-acquired net redis doc (true, q) s' k = elim (Bool-cases net.head) [
  | inl e ↦ cc
  | inr e ↦ cc
]

-- An acquired lock has moved the PDF: it was to sign and not in process, and is now in process only.
acquire-moves :
    (net : Net) (redis : Redis) (now doc : ℕ) (s s' : Desk)
    → acquire_signing_lock net redis now doc s ≡ (acquired, s')
    → (pdf : Pdf) × (get_object (tosign_key doc) s.bucket ≡ some pdf)
      × (get_object (inprocess_key doc) s.bucket ≡ none)
      × (s'.bucket ≡ r2_delete (tosign_key doc) (r2_put (inprocess_key doc) pdf s.bucket))
unfolding acquire_signing_lock
acquire-moves net redis now doc s s' h =
    let r = acquire_redis_lock redis now doc s in
    let same : r.1.bucket ≡ s.bucket = redis-bucket redis now doc s in
    let (gone, c) =
      headed-acquired net redis doc r.1 s' (get_object (inprocess_key doc) r.1.bucket)
        (in_redis-acquired net redis doc r s' h) in
    let (pdf, there, b) =
      copied-acquired net redis doc r.1 s' (get_object (tosign_key doc) r.1.bucket) c in
    (
      pdf,
      ap (λ x. get_object (tosign_key doc) x) (sym same) ∙ there,
      ap (λ x. get_object (inprocess_key doc) x) (sym same) ∙ gone,
      b ∙ ap (λ x. r2_delete (tosign_key doc) (r2_put (inprocess_key doc) pdf x)) same,
    )

-- Moving an object there and back changes no object.
there_and_back :
    (doc : ℕ) (pdf : Pdf) (k : ObjectKey) (b : Bucket)
    → get_object (tosign_key doc) b ≡ some pdf
    → get_object (inprocess_key doc) b ≡ none
    → get_object k (
        r2_delete (inprocess_key doc) (
          r2_put
            (tosign_key doc)
            pdf
            (r2_delete (tosign_key doc) (r2_put (inprocess_key doc) pdf b))))
      ≡ get_object k b
there_and_back doc pdf k b there gone =
    let tos = tosign_key doc in
    let inp = inprocess_key doc in
    let moved = r2_delete tos (r2_put inp pdf b) in
    elim (Bool-cases (same_object inp k)) [
      | inl e ↦
          rw (sym (same_object→eq inp k e))
            (get_object-delete_self inp (r2_put tos pdf moved) ∙ sym gone)
      | inr e ↦
          get_object-delete_other inp k (r2_put tos pdf moved) e
          ∙ elim (Bool-cases (same_object tos k)) [
            | inl f ↦
                rw (sym (same_object→eq tos k f)) (get_object-put_self tos pdf moved ∙ sym there)
            | inr f ↦
                get_object-put_other tos k pdf moved f
                ∙ (get_object-delete_other tos k (r2_put inp pdf b) f
                    ∙ get_object-put_other inp k pdf b e)
          ]
    ]

-- The calls of the bucket all get through.
abbrev pub sound : Net
sound = record { head = true; copy = true; delete = true }

-- A lock that was acquired and given back after a failure leaves every object of the bucket as it
-- was before.
pub acquire-release_fail :
    (net : Net) (redis redis' : Redis) (now doc : ℕ) (s s' : Desk) (k : ObjectKey)
    → acquire_signing_lock net redis now doc s ≡ (acquired, s')
    → let (returned, s'') = release_signing_lock_fail sound redis' doc s' in
      (returned ≡ true) × (get_object k s''.bucket ≡ get_object k s.bucket)
unfolding release_signing_lock_fail
acquire-release_fail net redis redis' now doc s s' k h =
    let (pdf, there, gone, b) = acquire-moves net redis now doc s s' h in
    let freed = release_redis_lock redis' doc s' in
    let same : freed.bucket ≡ r2_delete (tosign_key doc) (r2_put (inprocess_key doc) pdf s.bucket) =
      release-bucket redis' doc s' ∙ b in
    let held : get_object (inprocess_key doc) freed.bucket ≡ some pdf =
      ap (λ x. get_object (inprocess_key doc) x) same
      ∙ (get_object-delete_other (tosign_key doc) (inprocess_key doc)
            (r2_put (inprocess_key doc) pdf s.bucket) refl
          ∙ get_object-put_self (inprocess_key doc) pdf s.bucket) in
    (
      rw held refl,
      rw held (
          ap (λ x. get_object k (r2_delete (inprocess_key doc) (r2_put (tosign_key doc) pdf x)))
            same
          ∙ there_and_back doc pdf k s.bucket there gone),
    )
