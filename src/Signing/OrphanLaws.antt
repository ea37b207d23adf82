-- ===== src/Signing/OrphanLaws.antt =====
-- workers/sweeper_escri.py: which reservations the sweeper may cancel.
use gdi_backend.Prelude.{
  ℕ, ◌≡◌, refl, sym, subst, ◌∙◌, Bool, true, false, ◌&&◌, not, Option, none, some, List, [], ◌∷◌,
  Memᴰ, arith, ◌==◌, eq_some, ltb, Bool-cases, inl, inr, ◌⊎◌, find_if, keep_if, update_if, count_if,
  update_if-Mem, keep_if-passes,
}
use gdi_backend.Prelude.Texts.{Text, codes}
use gdi_backend.Numbering.Tables.{
  ReservationStatus, reserved, confirming, confirmed, cancelled, OfficialDocument, Db,
}
use gdi_backend.Numbering.Queries.{is_reserved}
use gdi_backend.Numbering.Special.{is_special}
use gdi_backend.Numbering.Lifecycle.{
  with_status, cancel_row, cancel_found, cancel_number, in_states,
}
use gdi_backend.Numbering.Tickets.{if_release-documents}
use gdi_backend.Signing.Orphans.{
  Around, Tenant, has_live_session, has_digital, is_abandoned, reserved_orphan, cancel_orphan,
  cancel_on, cancel_orphans, handle_reserved_orphans,
}

-- A row that an UPDATE of `cancel_number` does not match stays.
pub cancel_number-Mem :
    (id : ℕ) (reason : Text) (ticket : ℕ) (alert : Bool) (from : List ReservationStatus) (db : Db)
    {d : OfficialDocument}
    → Memᴰ d db.documents
    → cancel_row from id (some ticket) d ≡ false
    → Memᴰ d (cancel_number id reason (some ticket) alert from db).1.documents
unfolding cancel_number
cancel_number-Mem id reason ticket alert from db {d} m h =
    go (find_if (λ q. q.id == id) db.documents)
  where
    go :
        (o : Option OfficialDocument) → Memᴰ d (cancel_found from id (some ticket) db o).1.documents
    go none = m
    go (some od) =
        let pass = cancel_row from id (some ticket) in
        rw
          (if_release-documents (is_special od.regime && ltb 0 (count_if pass db.documents)) od id
            (record db { documents = update_if pass (with_status cancelled) db.documents }))
          (update_if-Mem (cancel_row from id (some ticket)) (with_status cancelled) db.documents m
            h)

-- A reservation that the sweeper has to leave: it is not RESERVED, or a session or a token works on it.
abbrev pub IsInUse : Around → Tenant → OfficialDocument → Type 0
IsInUse e t d =
    (is_reserved d.status ≡ false)
    ⊎ (has_live_session e t d.reservation_id ≡ true)
    ⊎ (has_digital e t d.reservation_id ≡ true)

unreserved-out :
    (s : ReservationStatus) → is_reserved s ≡ false → in_states (reserved ∷ []) s ≡ false
unreserved-out reserved h = cc
unreserved-out confirming h = refl
unreserved-out confirmed h = refl
unreserved-out cancelled h = refl

eq_some→eq : (o : Option ℕ) (u : ℕ) → eq_some o u ≡ true → o ≡ some u
eq_some→eq none u h = cc
eq_some→eq (some x) u h = let e : x ≡ u = ground (arith, h) in rw e refl

in_use-unmatched :
    (e : Around) (t : Tenant) (od d : OfficialDocument) (ticket : ℕ)
    → is_abandoned e t od ≡ true
    → od.reservation_id ≡ some ticket
    → IsInUse e t d
    → cancel_row (reserved ∷ []) od.id (some ticket) d ≡ false
in_use-unmatched e t od d ticket gone has (inl busy) = ground (arith, unreserved-out d.status busy)
in_use-unmatched e t od d ticket gone has (inr used) =
    elim (Bool-cases (eq_some d.reservation_id ticket)) [
      | inr other ↦ rw other (ground arith)
      | inl same ↦
          let one : od.reservation_id ≡ d.reservation_id =
            has ∙ sym (eq_some→eq d.reservation_id ticket same) in
          let left : not (has_live_session e t d.reservation_id)
                && not (has_digital e t d.reservation_id)
              ≡ true =
            subst (λ k. not (has_live_session e t k) && not (has_digital e t k) ≡ true) one gone in
          elim used [
            | inl live ↦ absurd (ground (arith, left, live))
            | inr token ↦ absurd (ground (arith, left, token))
          ]
    ]

cancel_on-Mem :
    (e : Around) (t : Tenant) (next : Db → Db) (od : OfficialDocument) (db : Db) (o : Option ℕ)
    {d : OfficialDocument}
    → od.reservation_id ≡ o
    → is_abandoned e t od ≡ true
    → IsInUse e t d
    → ((db' : Db) → Memᴰ d db'.documents → Memᴰ d (next db').documents)
    → Memᴰ d db.documents
    → Memᴰ d (cancel_on next e od db o).documents
cancel_on-Mem e t next od db none has gone used keeps m = m
cancel_on-Mem e t next od db (some ticket) {d} has gone used keeps m =
    keeps (cancel_orphan e od ticket db) (elim (Bool-cases (e.fails od.id)) [
      | inl k ↦ rw k m
      | inr k ↦ rw k (
          cancel_number-Mem od.id (codes "sweeper_reserved_orphan") ticket false (reserved ∷ []) db
            m (in_use-unmatched e t od d ticket gone has used))
    ])

cancel_orphans-Mem :
    (e : Around) (t : Tenant) (found : List OfficialDocument) (db : Db) {d : OfficialDocument}
    → ((od : OfficialDocument) → Memᴰ od found → is_abandoned e t od ≡ true)
    → IsInUse e t d
    → Memᴰ d db.documents
    → Memᴰ d (cancel_orphans e found db).documents
cancel_orphans-Mem e t [] db gone used m = m
cancel_orphans-Mem e t (od ∷ found) db {d} gone used m =
    cancel_on-Mem e t (cancel_orphans e found) od db od.reservation_id refl
      (gone od (Memᴰ.head refl)) used
      (λ db' n. cancel_orphans-Mem e t found db' (λ q k. gone q (Memᴰ.tail k)) used n) m

-- The pass over reserved orphans leaves every row that is in use as it is: one that is confirming,
-- confirmed or cancelled, and a reserved one whose ticket a live session of the tenant or a live or
-- finishing token session works on.
pub handle_reserved_orphans-spares :
    (e : Around) (t : Tenant) (d : OfficialDocument)
    → Memᴰ d t.numbers.documents
    → IsInUse e t d
    → Memᴰ d (handle_reserved_orphans e t).numbers.documents
unfolding handle_reserved_orphans reserved_orphan
handle_reserved_orphans-spares e t d m used =
    cancel_orphans-Mem e t (keep_if (reserved_orphan e t) t.numbers.documents) t.numbers
      (λ od k.
        let passes : reserved_orphan e t od ≡ true =
          keep_if-passes (reserved_orphan e t) t.numbers.documents k in
        ground (arith, passes))
      used m
