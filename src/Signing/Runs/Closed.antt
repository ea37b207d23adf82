-- ===== src/Signing/Runs/Closed.antt =====
-- public.signing_sessions: what is signed, failed or expired stays so.
use gdi_backend.Prelude.{
  ℕ, ◌≡◌, refl, subst, true, false, some, List, [], ◌∷◌, ◌++◌, Bool-cases, inl, inr, find_if,
}
use gdi_backend.Signing.Tables.{Session, is_live}
use gdi_backend.Signing.Claims.{with_id}
use gdi_backend.Signing.Runs.{Allowed, Evolves, Run}
use gdi_backend.Signing.Runs.Rows.{Allowed-refl, Allowed-trans}
use gdi_backend.Signing.Runs.Changes.{Change, Step-Change}
use gdi_backend.Signing.Runs.WellFormed.{WellFormed, Run-WellFormed}

Evolves-find :
    (id : ℕ) {rows rows' : List Session} {r : Session}
    → Evolves rows rows'
    → find_if (with_id id) rows ≡ some r
    → (r' : Session) × (find_if (with_id id) rows' ≡ some r') × Allowed r r'
Evolves-find id Evolves.nothing h = cc
Evolves-find id {r} (Evolves.row {r = q} {r' = q'} a rest) h = elim (Bool-cases (with_id id q)) [
  | inl e ↦
      let same : q ≡ r = cc in
      let there : with_id id q' ≡ true = rw a.same_id e in
      (q', rw there refl, subst (λ x. Allowed x q') same a)
  | inr e ↦
      let other : with_id id q' ≡ false = rw a.same_id e in
      let (r', found, allowed) = Evolves-find id rest (cc) in (r', rw other found, allowed)
]

find-append :
    (id : ℕ) (s : Session) (rows : List Session) {r : Session}
    → find_if (with_id id) rows ≡ some r
    → find_if (with_id id) (rows ++ (s ∷ [])) ≡ some r
find-append id s [] h = cc
find-append id s (q ∷ rows) h = elim (Bool-cases (with_id id q)) [
  | inl e ↦ rw e (cc)
  | inr e ↦ rw e (find-append id s rows cc)
]

Change-find :
    (id : ℕ) {rows rows' : List Session} {r : Session}
    → Change rows rows'
    → find_if (with_id id) rows ≡ some r
    → (r' : Session) × (find_if (with_id id) rows' ≡ some r') × Allowed r r'
Change-find id (Change.evolved x) h = Evolves-find id x h
Change-find id {r} (Change.inserted s rows fresh fit free) h =
    (r, find-append id s rows h, Allowed-refl r)

Run-find :
    (id : ℕ) {rows rows' : List Session} {r : Session}
    → WellFormed rows
    → Run rows rows'
    → find_if (with_id id) rows ≡ some r
    → (r' : Session) × (find_if (with_id id) rows' ≡ some r') × Allowed r r'
Run-find id {r} w (Run.stop rows) h = (r, h, Allowed-refl r)
Run-find id w (Run.then_step run s) h =
    let (q, found, a) = Run-find id w run h in
    let (q', found', b) = Change-find id (Step-Change (Run-WellFormed w run).unique_ids s) found in
    (q', found', Allowed-trans a b)

-- A job that is signed, failed or expired keeps its status and its failure reason, and the document
-- and the user that it is for, whatever the worker, the sweeper and the endpoints run after that.
pub Run-keeps_closed :
    (id : ℕ) {rows rows' : List Session} {r : Session}
    → WellFormed rows
    → Run rows rows'
    → find_if (with_id id) rows ≡ some r
    → is_live r.status ≡ false
    → (r' : Session) × (find_if (with_id id) rows' ≡ some r')
      × (r'.status ≡ r.status)
      × (r'.failure_reason ≡ r.failure_reason)
      × (r'.document_id ≡ r.document_id)
      × (r'.user_id ≡ r.user_id)
Run-keeps_closed id w run h closed =
    let (r', found, a) = Run-find id w run h in
    let (s, f) = a.stays_closed closed in (r', found, s, f, a.same_document, a.same_user)
