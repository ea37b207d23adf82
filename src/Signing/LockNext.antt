-- ===== src/Signing/LockNext.antt =====
-- services/documents/signing/r2_lock.py: what a signature that went through leaves to the next signer.
use gdi_backend.Prelude.{
  ℕ, ◌≡◌, ◌≢◌, refl, sym, ap, ◌∙◌, Bool, true, false, ◌||◌, none, some, List, [], ◌∷◌, arith, ◌==◌,
  if◌then◌else◌, Bool-cases, inl, inr,
}
use gdi_backend.Signing.Lock.{
  Pdf, ObjectKey, tosign_key, inprocess_key, Bucket, get_object, r2_delete, r2_put, Desk, Redis,
  set_lock, working, is_locked, acquire_redis_lock, drop_lock, release_redis_lock, Net, acquired,
  acquire_signing_lock, delete_attempts, clean_inprocess, puts_back, Release, uploaded,
  release_signing_lock_success,
}
use gdi_backend.Signing.LockLaws.{
  get_object-put_self, get_object-put_other, get_object-delete_self, get_object-delete_other,
  acquire-blocked, sound,
}

is_locked-drop :
    (now doc : ℕ) (locks : List (ℕ × ℕ)) → is_locked now doc (drop_lock doc locks) ≡ false
unfolding is_locked drop_lock
is_locked-drop now doc [] = refl
is_locked-drop now doc ((d, expires) ∷ locks) = elim (Bool-cases (d == doc)) [
  | inl e ↦ rw e (is_locked-drop now doc locks)
  | inr e ↦ rw e (rw e (is_locked-drop now doc locks))
]

-- One of the three attempts gets through.
abbrev pub any_through : (ℕ → Bool) → Bool
any_through through = through 0 || through 1 || through 2

delete_attempts-through :
    (through : ℕ → Bool) (k : ObjectKey) (b : Bucket)
    → any_through through ≡ true
    → (delete_attempts through 0 3 k b).1 ≡ r2_delete k b
unfolding delete_attempts
delete_attempts-through through k b h = elim (Bool-cases (through 0)) [
  | inl a ↦ rw a refl
  | inr a ↦ elim (Bool-cases (through 1)) [
    | inl c ↦ rw (a, c) refl
    | inr c ↦ let last : through 2 ≡ true = ground (arith, h, a, c) in rw (a, c, last) refl
  ]
]

delete_attempts-never :
    (through : ℕ → Bool) (k : ObjectKey) (b : Bucket)
    → any_through through ≡ false
    → (delete_attempts through 0 3 k b).1 ≡ b
unfolding delete_attempts
delete_attempts-never through k b h =
    let a : through 0 ≡ false = ground (arith, h) in
    let c : through 1 ≡ false = ground (arith, h) in
    let d : through 2 ≡ false = ground (arith, h) in rw (a, c, d) refl

-- The next signer takes the PDF that was signed.
next_acquires :
    (later doc : ℕ) (s : Desk) {pdf : Pdf}
    → is_locked later doc s.locks ≡ false
    → get_object (inprocess_key doc) s.bucket ≡ none
    → get_object (tosign_key doc) s.bucket ≡ some pdf
    → (t : Desk) × (acquire_signing_lock sound working later doc s ≡ (acquired, t))
      × (get_object (inprocess_key doc) t.bucket ≡ some pdf)
unfolding acquire_signing_lock acquire_redis_lock
next_acquires later doc s {pdf} free gone there =
    let put = r2_put (inprocess_key doc) pdf s.bucket in
    (
      record (set_lock later doc s) { bucket = r2_delete (tosign_key doc) put },
      rw (free, gone, there) refl,
      get_object-delete_other (tosign_key doc) (inprocess_key doc) put refl
          ∙ get_object-put_self (inprocess_key doc) pdf s.bucket,
    )

-- After a signature that is put back and whose lock is released, with Redis working: if one of the
-- three attempts to delete the PDF in process gets through, the next signer acquires the lock and
-- has the signed PDF; if none does and there was a PDF in process, nobody acquires it.
pub release_success-next :
    (q : Release) (now doc : ℕ) (s s' : Desk)
    → puts_back q.is_numerator q.number ≡ true
    → release_signing_lock_success working q now doc s ≡ some s'
    → (any_through q.deletes ≡ true
        → (later : ℕ)
        → (t : Desk) × (acquire_signing_lock sound working later doc s' ≡ (acquired, t))
          × (get_object (inprocess_key doc) t.bucket ≡ some q.signed_pdf))
      × (any_through q.deletes ≡ false
          → (pdf : Pdf) → get_object (inprocess_key doc) s.bucket ≡ some pdf
          → (net : Net) (redis : Redis) (later : ℕ)
          → (acquire_signing_lock net redis later doc s').0 ≢ acquired)
unfolding release_signing_lock_success release_redis_lock
release_success-next q now doc s s' back h =
    let put = r2_put (tosign_key doc) q.signed_pdf s.bucket in
    let t = clean_inprocess q.deletes doc (release_redis_lock working doc (uploaded q now doc s)) in
    let same : t ≡ s' = released q.puts h in
    (
      λ any later.
          let b : s'.bucket ≡ r2_delete (inprocess_key doc) put =
            ap (λ x. x.bucket) (sym same)
            ∙ delete_attempts-through q.deletes (inprocess_key doc) put any in
          next_acquires later doc s'
            (ap (λ x. is_locked later doc x.locks) (sym same) ∙ is_locked-drop later doc s.locks)
            (ap (λ x. get_object (inprocess_key doc) x) b
              ∙ get_object-delete_self (inprocess_key doc) put)
            (ap (λ x. get_object (tosign_key doc) x) b
              ∙ (get_object-delete_other (inprocess_key doc) (tosign_key doc) put refl
                  ∙ get_object-put_self (tosign_key doc) q.signed_pdf s.bucket)),
      λ none_through pdf held net redis later.
          let b : s'.bucket ≡ put =
            ap (λ x. x.bucket) (sym same)
            ∙ delete_attempts-never q.deletes (inprocess_key doc) put none_through in
          acquire-blocked net redis later doc s' (
            ap (λ x. get_object (inprocess_key doc) x) b
            ∙ (get_object-put_other (tosign_key doc) (inprocess_key doc) q.signed_pdf s.bucket refl
                ∙ held)),
    )
  where
    released :
        (b : Bool)
        → (if puts_back q.is_numerator q.number
            then (if b
                then some (
                    clean_inprocess q.deletes doc
                      (release_redis_lock working doc (uploaded q now doc s)))
                else none)
            else some (clean_inprocess q.deletes doc (release_redis_lock working doc s)))
          ≡ some s'
        → clean_inprocess q.deletes doc (release_redis_lock working doc (uploaded q now doc s)) ≡ s'
    released true k = cc
    released false k = cc
