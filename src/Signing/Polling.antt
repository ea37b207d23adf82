-- ===== src/Signing/Polling.antt =====
-- services/documents/signing/async_poll_status.py: whose jobs a poll shows, and that polling once
-- more shows the same.
use gdi_backend.Prelude.{
  ℕ, ◌≡◌, refl, Bool, true, false, ◌&&◌, Option, none, some, List, [], ◌∷◌, Memᴰ, arith, ◌==◌,
  ==_refl, eq_some, Bool-cases, Option-cases, inl, inr, ◌⊎◌, find_if, find_if-Mem, update_if,
}
use gdi_backend.Prelude.Texts.{Text}
use gdi_backend.Signing.Tables.{Session, Draft, is_live}
use gdi_backend.Signing.Closing.{signed_row}
use gdi_backend.Signing.Poll.{
  polled_row, live_row, healed_number, poll_answer, get_async_poll_status,
}

eq_some→eq : (o : Option ℕ) (u : ℕ) → eq_some o u ≡ true → o ≡ some u
eq_some→eq none u h = cc
eq_some→eq (some x) u h = let e : x ≡ u = ground (arith, h) in rw e refl

get_async_poll_status-owner :
    (answers : Bool) (now id user schema : ℕ) (drafts : List Draft) (rows : List Session)
    → (let (a, rows') = get_async_poll_status answers now id user schema drafts rows in
        (a ≡ none) × (rows' ≡ rows))
      ⊎ ((r : Session) × Memᴰ r rows
          × (r.session_id ≡ id)
          × (r.schema_name ≡ schema)
          × (r.user_id ≡ some user)
          × ((get_async_poll_status answers now id user schema drafts rows).0
              ≡ some (poll_answer r (healed_number drafts r))))
unfolding get_async_poll_status
get_async_poll_status-owner answers now id user schema drafts rows =
    elim (Option-cases (find_if (polled_row id) rows)) [
      | inl e ↦ inl (rw e refl, rw e refl)
      | inr (r, e) ↦ elim (Bool-cases (r.schema_name == schema && eq_some r.user_id user)) [
        | inl own ↦
            let (m, passes) = find_if-Mem (polled_row id) rows e in
            inr (
              r,
              m,
              ground (arith, passes),
              ground (arith, own),
              eq_some→eq r.user_id user (ground (arith, own)),
              rw (e, own) refl,
            )
        | inr other ↦ inl (rw (e, other) refl, rw (e, other) refl)
      ]
    ]

-- A row that a test finds is found as well after an UPDATE that the test does not see.
find_if-through :
    (p q : Session → Bool) (f : Session → Session) (rows : List Session) {r : Session}
    → ((s : Session) → p (f s) ≡ p s)
    → q r ≡ true
    → find_if p rows ≡ some r
    → find_if p (update_if q f rows) ≡ some (f r)
find_if-through p q f [] same h found = cc
find_if-through p q f (s ∷ rows) {r} same h found = elim (Bool-cases (p s)) [
  | inl e ↦ let eq : s ≡ r = cc in let here : q s ≡ true = rw eq h in rw (here, same s, e, eq) refl
  | inr e ↦ elim (Bool-cases (q s)) [
    | inl k ↦ rw (k, same s, e) (find_if-through p q f rows same h (cc))
    | inr k ↦ rw (k, e) (find_if-through p q f rows same h (cc))
  ]
]

healed-live :
    (drafts : List Draft) (r : Session) {n : Text}
    → healed_number drafts r ≡ some n
    → is_live r.status ≡ true
unfolding healed_number
healed-live drafts r h = elim (Bool-cases (is_live r.status)) [ inl e ↦ e | inr e ↦ cc ]

closed-unhealed :
    (drafts : List Draft) (r : Session) → is_live r.status ≡ false → healed_number drafts r ≡ none
unfolding healed_number
closed-unhealed drafts r h = rw h refl

get_async_poll_status-again :
    (answers : Bool) (now later id user schema : ℕ) (drafts : List Draft) (rows : List Session)
    → let (a, rows') = get_async_poll_status true now id user schema drafts rows in
      (get_async_poll_status answers later id user schema drafts rows').0 ≡ a
unfolding get_async_poll_status
get_async_poll_status-again answers now later id user schema drafts rows =
    elim (Option-cases (find_if (polled_row id) rows)) [
      | inl e ↦ rw (e, e) refl
      | inr (r, e) ↦ elim (Bool-cases (r.schema_name == schema && eq_some r.user_id user)) [
        | inr other ↦ rw (e, other, e, other) refl
        | inl own ↦ elim (Option-cases (healed_number drafts r)) [
          | inl quiet ↦ rw (e, own, quiet, e, own, quiet) refl
          | inr (n, healed) ↦
              let live : is_live r.status ≡ true = healed-live drafts r healed in
              let there : live_row r.session_id r ≡ true = rw (==_refl r.session_id, live) refl in
              let found : find_if (polled_row id)
                    (update_if (live_row r.session_id) (signed_row (some n) now) rows)
                  ≡ some (signed_row (some n) now r) =
                find_if-through (polled_row id) (live_row r.session_id) (signed_row (some n) now)
                  rows (λ s. refl) there e in
              let closed : healed_number drafts (signed_row (some n) now r) ≡ none =
                closed-unhealed drafts (signed_row (some n) now r) refl in
              rw (e, own, healed, found, own, closed) refl
        ]
      ]
    ]

-- An answer is about a job of the asked id, tenant and user, and without one the rows are as they
-- were; and once a poll has reconciled the job, polling again gives the same answer, whenever it is
-- asked and whether or not an UPDATE gets through by then.
pub get_async_poll_status-consistent :
    (answers again : Bool) (now later id user schema : ℕ) (drafts : List Draft)
    (rows : List Session)
    → ((let (a, rows') = get_async_poll_status answers now id user schema drafts rows in
          (a ≡ none) × (rows' ≡ rows))
        ⊎ ((r : Session) × Memᴰ r rows
            × (r.session_id ≡ id)
            × (r.schema_name ≡ schema)
            × (r.user_id ≡ some user)
            × ((get_async_poll_status answers now id user schema drafts rows).0
                ≡ some (poll_answer r (healed_number drafts r)))))
      × (let (a, rows') = get_async_poll_status true now id user schema drafts rows in
          (get_async_poll_status again later id user schema drafts rows').0 ≡ a)
get_async_poll_status-consistent answers again now later id user schema drafts rows = (
  get_async_poll_status-owner answers now id user schema drafts rows,
  get_async_poll_status-again again now later id user schema drafts rows,
)
