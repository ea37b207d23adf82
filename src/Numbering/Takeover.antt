-- ===== src/Numbering/Takeover.antt =====
-- The SPECIAL lane of shared/numbering.py while its holder is reserved, and after the holder has
-- gone on with siblings of its batch still waiting.
use gdi_backend.Prelude.{
  ℕ, ◌≡◌, ◌≢◌, refl, sym, ap, subst, ==_iff, ◌∙◌, Memᴰ, find_if-updated, ==_refl, keep_if, true,
  false, ◌&&◌, not, Bool-cases, Option-cases, Option, none, some, inl, inr, List, [], ◌∷◌, arith,
  count_if, find_if, update_if, ◌==◌, ◌↔◌,
}
use gdi_backend.Numbering.Format.{Text}
use gdi_backend.Numbering.Tables.{
  OfficialDocument, Counter, Db, Constraint, ok, raised, special_lane_busy, Env, Request,
  Reservation,
}
use gdi_backend.Numbering.Queries.{is_cancelled, oldest, delete_own_cancelled}
use gdi_backend.Numbering.Reserve.{reservation_of, reserved_row, live_row}
use gdi_backend.Numbering.Lifecycle.{live_sibling}
use gdi_backend.Numbering.Special.{
  on_lane, special_recyclable, hold_lane, upsert_counter, active_reservation, lane_shared,
  enter_lane, take_special, insert_special, special_raced, retried, next_special_number,
  reserve_special, special_document,
}
use gdi_backend.Numbering.Retry.{has_id, HasPrimaryKey}
use gdi_backend.Numbering.Lanes.{next_special_number-Shrinks, delete_own-Shrinks}
use gdi_backend.Numbering.Blocked.{Blocks, HasOneRow, lane_shared_iff, active-found, found-active}

-- Deleting cancelled rows leaves the documents that wait.
siblings_delete :
    (b id k : ℕ) (ds : List OfficialDocument)
    → count_if (live_sibling b id) (keep_if (λ d. not (d.id == k && is_cancelled d.status)) ds)
      ≡ count_if (live_sibling b id) ds
siblings_delete b id k [] = refl
siblings_delete b id k (d ∷ ds) = ground (arith, siblings_delete b id k ds)

siblings_own :
    (b id k : ℕ) (db : Db)
    → count_if (live_sibling b id) (delete_own_cancelled k db).documents
      ≡ count_if (live_sibling b id) db.documents
unfolding delete_own_cancelled
siblings_own b id k db = siblings_delete b id k db.documents

siblings_next :
    (b id : ℕ) (env : Env) (t dp y : ℕ) (c : Counter) (db : Db)
    → count_if (live_sibling b id) (next_special_number env t dp y c db).1.documents
      ≡ count_if (live_sibling b id) db.documents
unfolding next_special_number
siblings_next b id env t dp y c db =
    elim (Option-cases (oldest (special_recyclable env t dp y) db.documents)) [
      | inl empty ↦ rw empty
      | inr (r, found) ↦ rw found (siblings_delete b id r.id db.documents)
    ]

-- Choosing a number leaves the counters to the end.
next-counters :
    (env : Env) (t dp y : ℕ) (c : Counter) (db : Db)
    → (next_special_number env t dp y c db).1.counters ≡ db.counters
unfolding next_special_number
next-counters env t dp y c db =
    elim (Option-cases (oldest (special_recyclable env t dp y) db.documents)) [
      | inl empty ↦ rw empty refl
      | inr (r, found) ↦ rw found refl
    ]

raced_not_busy :
    (c : Constraint) (db : Db) (o : Option OfficialDocument)
    → special_raced c db o ≢ raised special_lane_busy
raced_not_busy c db none h = cc
raced_not_busy c db (some e) h = cc

insert_not_busy :
    (q : Request) (dept n : ℕ) (d : OfficialDocument) (db : Db) (v : Option Constraint)
    → insert_special q dept n d db v ≢ raised special_lane_busy
insert_not_busy q dept n d db none h = cc
insert_not_busy q dept n d db (some c) h =
    raced_not_busy c db (find_if (live_row q.document_id) db.documents) h

take_not_busy :
    (env : Env) (q : Request) (user_id : ℕ) (city : Text) (dept : Text × ℕ) (c : Counter) (db : Db)
    → take_special env q user_id city dept c db ≢ raised special_lane_busy
unfolding take_special
take_not_busy env q user_id city dept c db h =
    let (n, db₁) = next_special_number env q.document_type_id dept.1 q.year c db in
    let db₂ = delete_own_cancelled q.document_id db₁ in
    let d = special_document env q user_id city dept n in
    insert_not_busy q dept.1 n d db₂ (env.violated d db₂.documents) h

retried_not_busy :
    (db : Db) (o : Option OfficialDocument) (holder : OfficialDocument)
    → retried db o holder ≢ raised special_lane_busy
retried_not_busy db none holder h = cc
retried_not_busy db (some e) holder h = cc

module _ (env : Env) (q : Request) (user_id : ℕ) (city : Text) (dept : Text × ℕ) where
  enter_lane-busy_iff :
      (c : Counter) (db : Db) (d : OfficialDocument)
      → (enter_lane env q user_id city dept c db (some d) ≡ raised special_lane_busy)
        ↔ (((d.id == q.document_id) ≡ false) × (lane_shared c q user_id d ≡ false))
  enter_lane-busy_iff c db d = elim (Bool-cases (d.id == q.document_id)) [
    | inl own ↦ rw own (
      λ h. absurd (retried_not_busy db (find_if (λ d. d.id == q.document_id) db.documents) d h),
      λ (h, k). cc,
    )
    | inr other ↦ rw other (elim (Bool-cases (lane_shared c q user_id d)) [
      | inl shared ↦
          rw shared (λ h. absurd (take_not_busy env q user_id city dept c db h), λ (h, k). cc)
      | inr busy ↦ rw busy (λ h. (refl, refl), λ h. refl)
    ])
  ]

  blocked-Blocks :
      (c : Counter) (db : Db) (d : OfficialDocument)
      → active_reservation c db ≡ some d
      → enter_lane env q user_id city dept c db (some d) ≡ raised special_lane_busy
      → Memᴰ d db.documents × Blocks c q user_id d
  blocked-Blocks c db d found h =
      let (m, active, waits) = active-found c db found in
      let (other, alone) = (enter_lane-busy_iff c db d).0 h in
      (
        m,
        (
          active,
          waits,
          λ same. let own : (d.id == q.document_id) ≡ true = rw same (==_refl q.document_id) in cc,
          λ shares. let shared = (lane_shared_iff c q user_id d).1 shares in cc,
        ),
      )

  Blocks-blocked :
      (c : Counter) (db : Db) (d : OfficialDocument)
      → Blocks c q user_id d
      → enter_lane env q user_id city dept c db (some d) ≡ raised special_lane_busy
  Blocks-blocked c db d (active, waits, other, alone) = (enter_lane-busy_iff c db d).1 (
    elim (Bool-cases (d.id == q.document_id)) [
      | inl own ↦ absurd (other ((==_iff d.id q.document_id).0 own))
      | inr k ↦ k
    ],
    elim (Bool-cases (lane_shared c q user_id d)) [
      | inl shared ↦ absurd (alone ((lane_shared_iff c q user_id d).0 shared))
      | inr k ↦ k
    ],
  )

  busy-Blocks :
      (c : Counter) (db : Db) (o : Option OfficialDocument)
      → active_reservation c db ≡ o
      → enter_lane env q user_id city dept c db o ≡ raised special_lane_busy
      → (d : OfficialDocument) × Memᴰ d db.documents × Blocks c q user_id d
  busy-Blocks c db none found h = absurd (take_not_busy env q user_id city dept c db h)
  busy-Blocks c db (some d) found h = let (m, b) = blocked-Blocks c db d found h in (d, m, b)

  -- Where the rows of one id are one row: `reserve_number` in the SPECIAL regime raises
  -- SpecialLaneBusyError exactly when the lane has a counter and there is a RESERVED row of its active
  -- document, which is another document than the one that asks, and is not of the counter's batch
  -- while the request is of that batch and of the user that the row is numbered by.
  pub reserve_special-busy_iff :
      (db : Db)
      → HasOneRow db
      → (reserve_special env q user_id city dept db ≡ raised special_lane_busy) ↔ (
          (c : Counter) × (d : OfficialDocument) × (find_if
              (on_lane q.document_type_id q.year dept.1)
              db.counters
            ≡ some c)
          × Memᴰ d db.documents
          × Blocks c q user_id d)
  unfolding reserve_special upsert_counter
  reserve_special-busy_iff db one =
      let lane = find_if (on_lane q.document_type_id q.year dept.1) db.counters in
      elim (Option-cases lane) [
        | inl missing ↦
            rw missing
              (λ h. absurd (take_not_busy env q user_id city dept _ _ h), λ (c, d, found, m, b). cc)
        | inr (c, found) ↦ rw found (
          λ h.
              let (d, m, b) = busy-Blocks c db (active_reservation c db) refl h in
              (c, d, refl, m, b),
          λ (c', d, same, m, b).
              let e : c' ≡ c = cc in
              let b' = subst (λ x. Blocks x q user_id d) e b in
              subst (λ o. enter_lane env q user_id city dept c db o ≡ raised special_lane_busy)
                (sym (found-active c db d one m b'.0 b'.1)) (Blocks-blocked c db d b'),
        )
      ]

  -- Once the lane's active document has left RESERVED, a request for a document without a row enters
  -- the lane, whatever documents of a batch wait: the lane's counter then has this document and its
  -- batch, and the documents of every batch that wait with RESERVED numbers are as many as before.
  pub reserve_special-takes_over :
      {c : Counter} {a : ℕ}
      → HasPrimaryKey env
      → (db : Db) → find_if (on_lane q.document_type_id q.year dept.1) db.counters ≡ some c
      → c.active_document_id ≡ some a
      → find_if (reserved_row a) db.documents ≡ none
      → count_if (has_id q.document_id) db.documents ≡ 0
      → (r : Reservation × Db) × (reserve_special env q user_id city dept db ≡ ok r)
        × ((b : ℕ)
            → count_if (live_sibling b q.document_id) r.1.documents
              ≡ count_if (live_sibling b q.document_id) db.documents)
        × ((c' : Counter) × (find_if (on_lane q.document_type_id q.year dept.1) r.1.counters
              ≡ some c')
            × (c'.active_document_id ≡ some q.document_id)
            × (c'.active_batch_id ≡ q.batch_id))
  unfolding reserve_special upsert_counter take_special delete_own_cancelled
  reserve_special-takes_over {c} {a} key db lane active gone absent =
      let (n, db₁) = next_special_number env q.document_type_id dept.1 q.year c db in
      let db₂ = delete_own_cancelled q.document_id db₁ in
      let d = special_document env q user_id city dept n in
      let counters_kept : find_if (on_lane q.document_type_id q.year dept.1) db₂.counters
          ≡ find_if (on_lane q.document_type_id q.year dept.1) db.counters =
        ap (λ cs. find_if (on_lane q.document_type_id q.year dept.1) cs)
          (next-counters env q.document_type_id dept.1 q.year c db) in
      let idle : active_reservation c db ≡ none = rw active gone in
      let free : count_if (has_id q.document_id) db₂.documents ≡ 0 = omega (
        arith,
        absent,
        (next_special_number-Shrinks env q.document_type_id dept.1 q.year c db).rows
            (has_id q.document_id),
        (delete_own-Shrinks q.document_id db₁).rows (has_id q.document_id),
      ) in
      (
        (
          reservation_of d d.special_number,
          record db₂ {
            documents = d ∷ db₂.documents;
            counters =
                update_if (on_lane q.document_type_id q.year dept.1) (hold_lane q n) db₂.counters;
          },
        ),
        rw (lane, idle, key.admits d db₂.documents free) refl,
        λ b. ground (
          arith,
          siblings_own b q.document_id q.document_id db₁,
          siblings_next b q.document_id env q.document_type_id dept.1 q.year c db,
        ),
        (
          hold_lane q n c,
          find_if-updated (on_lane q.document_type_id q.year dept.1) (hold_lane q n) db₂.counters
              (λ y passes. passes) (counters_kept ∙ lane),
          refl,
          refl,
        ),
      )
