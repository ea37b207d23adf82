-- ===== src/Signing/ConfirmingLaws.antt =====
-- workers/sweeper_escri.py: what becomes of a confirming number of a token signature.
use gdi_backend.Prelude.{
  ℕ, ◌+◌, ◌≤◌, ◌≡◌, refl, sym, subst, Bool, true, false, Option, none, some, List, [], ◌∷◌, arith,
  ◌==◌, leb, Bool-cases, inl, inr, ◌⊎◌, update_if, count_if,
}
use gdi_backend.Numbering.Tables.{
  ReservationStatus, reserved, confirming, confirmed, cancelled, OfficialDocument, Db,
}
use gdi_backend.Numbering.Queries.{is_confirming, is_cancelled}
use gdi_backend.Numbering.Lifecycle.{with_status, ticket_row, finalize_number}
use gdi_backend.Signing.Tables.{DigitalSession}
use gdi_backend.Signing.Orphans.{Around, Tenant}
use gdi_backend.Signing.Confirming.{
  complete_orphan, resolve_asked_again, resolve_orphan, resolve_ticket, confirming_row,
  confirming_expired,
}

-- How many numbers are cancelled.
abbrev pub cancelled_count : Tenant → ℕ
cancelled_count t = count_if (λ d. is_cancelled d.status) t.numbers.documents

confirming-live : (s : ReservationStatus) → is_confirming s ≡ true → is_cancelled s ≡ false
confirming-live confirming h = refl
confirming-live reserved h = refl
confirming-live confirmed h = refl
confirming-live cancelled h = cc

cancelled_updated :
    (p : OfficialDocument → Bool) (ds : List OfficialDocument)
    → ((d : OfficialDocument) → p d ≡ true → is_cancelled d.status ≡ false)
    → count_if (λ d. is_cancelled d.status) (update_if p (with_status confirmed) ds)
      ≡ count_if (λ d. is_cancelled d.status) ds
cancelled_updated p [] live = refl
cancelled_updated p (d ∷ ds) live = elim (Bool-cases (p d)) [
  | inl e ↦ rw (e, live d e, cancelled_updated p ds live) refl
  | inr e ↦ rw (e, cancelled_updated p ds live) refl
]

finalize_number-cancelled :
    (id ticket : ℕ) (db : Db)
    → count_if (λ d. is_cancelled d.status) (finalize_number id ticket db).1.documents
      ≡ count_if (λ d. is_cancelled d.status) db.documents
unfolding finalize_number
finalize_number-cancelled id ticket db =
    let pass = ticket_row is_confirming id ticket in
    elim (Bool-cases (count_if pass db.documents == 0)) [
      | inl e ↦ rw e refl
      | inr e ↦ rw e (
          cancelled_updated pass db.documents (λ d h. confirming-live d.status (ground (arith, h))))
    ]

complete_orphan-cancelled :
    (e : Around) (od : OfficialDocument) (ticket : ℕ) (t : Tenant)
    → cancelled_count (complete_orphan e od ticket t) ≡ cancelled_count t
complete_orphan-cancelled e od ticket t = elim (Bool-cases (e.fails od.id)) [
  | inl k ↦ rw k refl
  | inr k ↦ rw k (finalize_number-cancelled od.id ticket t.numbers)
]

resolve_orphan-asks_twice :
    (e : Around) (od : OfficialDocument) (ticket : ℕ) (t : Tenant)
    → ((e.exists_oficial od.official_number ≡ some false)
        × (e.exists_again od.official_number ≡ some false))
      ⊎ (cancelled_count (resolve_orphan e od ticket t) ≡ cancelled_count t)
unfolding resolve_orphan
resolve_orphan-asks_twice e od ticket t =
    first (e.exists_oficial od.official_number) (e.exists_again od.official_number)
  where
    first :
        (a b : Option Bool)
        → ((a ≡ some false) × (b ≡ some false))
          ⊎ (cancelled_count (elim a [
            | none ↦ t
            | some true ↦ complete_orphan e od ticket t
            | some false ↦ resolve_asked_again e od ticket t b
          ])
              ≡ cancelled_count t)
    first none b = inr refl
    first (some true) b = inr (complete_orphan-cancelled e od ticket t)
    first (some false) none = inr refl
    first (some false) (some true) = inr (complete_orphan-cancelled e od ticket t)
    first (some false) (some false) = inl (refl, refl)

-- With settings whose grace for orphans is no longer than the time after which the pass selects a
-- confirming number: a token signature's number that the pass selects is resolved at once, and never
-- put under observation. It is then cancelled only if the bucket has said twice that its PDF is not
-- there; on any other answers as many numbers are cancelled as before.
pub confirming_row-resolves :
    (e : Around) (t : Tenant) (od : OfficialDocument) (d : DigitalSession) (ticket : ℕ)
    → e.confirming_orphan_grace ≤ e.confirming_expiry_ttl
    → confirming_expired e t od ≡ true
    → od.reservation_id ≡ some ticket
    → (confirming_row e od (some d) t ≡ resolve_orphan e od ticket t)
      × (((e.exists_oficial od.official_number ≡ some false)
            × (e.exists_again od.official_number ≡ some false))
          ⊎ (cancelled_count (confirming_row e od (some d) t) ≡ cancelled_count t))
unfolding confirming_expired
confirming_row-resolves e t od d ticket short h has =
    let late : leb (e.updated_at od.id + e.confirming_orphan_grace) e.now ≡ true =
      ground (arith, h, short) in
    let same : confirming_row e od (some d) t ≡ resolve_orphan e od ticket t =
      rw late
        (subst (λ o. resolve_ticket e od t o ≡ resolve_orphan e od ticket t) (sym has) refl) in
    (
      same,
      subst
          (λ u.
            ((e.exists_oficial od.official_number ≡ some false)
              × (e.exists_again od.official_number ≡ some false))
            ⊎ (cancelled_count u ≡ cancelled_count t))
          (sym same) (resolve_orphan-asks_twice e od ticket t),
    )
