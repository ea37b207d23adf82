-- ===== src/Signing/Runs/Keys.antt =====
-- session_id is the primary key of public.signing_sessions: two rows with one id are one row.
use gdi_backend.Prelude.{
  ℕ, ◌≤◌, ◌≡◌, refl, true, some, Option-cases, inl, inr, find_if, find_if-none, find_if-Mem, List,
  [], ◌∷◌, Memᴰ, arith, ◌==◌, ==_refl, count_if, count_if-Mem, sym,
}
use gdi_backend.Signing.Tables.{Session}
use gdi_backend.Signing.Claims.{with_id}

-- session_id is the primary key.
pub record UniqueIds (rows : List Session) : Type 0 where
  pub at_most_one : (id : ℕ) → count_if (with_id id) rows ≤ 1

pub same_id-eq :
    {a b : Session} (rows : List Session)
    → Memᴰ a rows
    → Memᴰ b rows
    → a.session_id ≡ b.session_id
    → ((id : ℕ) → count_if (with_id id) rows ≤ 1)
    → a ≡ b
same_id-eq [] m n e u = elim m [ ]
same_id-eq {a} {b} (r ∷ rows) (Memᴰ.head x) (Memᴰ.head y) e u = rw (x, y) refl
same_id-eq {a} {b} (r ∷ rows) (Memᴰ.head x) (Memᴰ.tail n) e u =
    let key : (r.session_id == a.session_id) ≡ true = rw (sym x) (==_refl a.session_id) in
    let there : (b.session_id == a.session_id) ≡ true = rw e (==_refl b.session_id) in
    ground (arith, u a.session_id, key, count_if-Mem (with_id a.session_id) rows n there)
same_id-eq {a} {b} (r ∷ rows) (Memᴰ.tail m) (Memᴰ.head y) e u =
    let key : (r.session_id == b.session_id) ≡ true = rw (sym y) (==_refl b.session_id) in
    let there : (a.session_id == b.session_id) ≡ true = rw e (==_refl b.session_id) in
    ground (arith, u b.session_id, key, count_if-Mem (with_id b.session_id) rows m there)
same_id-eq {a} {b} (r ∷ rows) (Memᴰ.tail m) (Memᴰ.tail n) e u =
    same_id-eq rows m n e (λ id. omega (arith, u id))

-- The row of an id is found by it.
pub find-row :
    {s : Session} (rows : List Session)
    → UniqueIds rows
    → Memᴰ s rows
    → find_if (with_id s.session_id) rows ≡ some s
find-row {s} rows u m = elim (Option-cases (find_if (with_id s.session_id) rows)) [
  | inl e ↦
      absurd (ground (arith, find_if-none (with_id s.session_id) rows e m, ==_refl s.session_id))
  | inr (r, e) ↦
      let (n, same) = find_if-Mem (with_id s.session_id) rows e in
      let eq : r ≡ s = same_id-eq rows n m (ground (arith, same)) u.at_most_one in rw (e, eq) refl
]
