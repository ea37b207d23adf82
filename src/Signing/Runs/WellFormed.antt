-- ===== src/Signing/Runs/WellFormed.antt =====
-- The invariants of public.signing_sessions over every run of the statements of the worker, the
-- sweeper and the endpoints, and what such a run cannot do.
use gdi_backend.Prelude.{
  ℕ, ◌≤◌, ◌≡◌, sym, ap, ◌∙◌, Bool, true, false, ◌&&◌, Option, none, some, List, [], ◌∷◌, ◌++◌,
  arith, ◌==◌, eq_some, Bool-cases, inl, inr, any_of, all_of, count_if, count_if-append,
}
use gdi_backend.Signing.Tables.{sign, Session, is_live, same_column}
use gdi_backend.Signing.Claims.{with_id}
use gdi_backend.Signing.Queue.{is_live_job, same_key, breaks_index}
use gdi_backend.Signing.Runs.{claim_fits, Allowed, Evolves, Run}
use gdi_backend.Signing.Runs.Keys.{UniqueIds}
use gdi_backend.Signing.Runs.Changes.{Change, Step-Change}

-- The live jobs of type 'sign' of a user on a document of a tenant.
abbrev pub live_sign : ℕ → ℕ → ℕ → Session → Bool
live_sign schema document user r =
    r.schema_name == schema
    && r.document_id == document
    && eq_some r.user_id user
    && is_live_job sign r

pub record WellFormed (rows : List Session) : Type 0 where
  pub unique_ids : UniqueIds rows
  pub claims_fit : all_of claim_fits rows ≡ true
  pub one_live : (schema document user : ℕ) → count_if (live_sign schema document user) rows ≤ 1

-- A test that an allowed change cannot make true counts no more rows afterwards.
Evolves-count :
    (p : Session → Bool) {rows rows' : List Session}
    → ((r r' : Session) → Allowed r r' → p r' ≡ true → p r ≡ true)
    → Evolves rows rows'
    → count_if p rows' ≤ count_if p rows
Evolves-count p back Evolves.nothing = omega arith
Evolves-count p back (Evolves.row {r} {r'} a rest) = elim (Bool-cases (p r')) [
  | inl e ↦ ground (arith, e, back r r' a e, Evolves-count p back rest)
  | inr e ↦ ground (arith, e, Evolves-count p back rest)
]

live_sign-back :
    (schema document user : ℕ) (r r' : Session)
    → Allowed r r'
    → live_sign schema document user r' ≡ true
    → live_sign schema document user r ≡ true
live_sign-back schema document user r r' a h = elim (Bool-cases (is_live r.status)) [
  | inl live ↦
      rw (sym a.same_schema, sym a.same_document, sym a.same_user, sym a.same_type, live)
        (ground (arith, h))
  | inr dead ↦
      let closed : is_live r'.status ≡ false =
        ap (λ q. is_live q) ((a.stays_closed dead).0) ∙ dead in
      ground (arith, h, closed)
]

Evolves-fit :
    {rows rows' : List Session}
    → Evolves rows rows'
    → all_of claim_fits rows ≡ true
    → all_of claim_fits rows' ≡ true
Evolves-fit Evolves.nothing h = h
Evolves-fit (Evolves.row {r} {r'} a rest) h =
    ground (arith, h, a.keeps_fit (ground (arith, h)), Evolves-fit rest (ground (arith, h)))

with_id-back : (id : ℕ) (r r' : Session) → Allowed r r' → with_id id r' ≡ true → with_id id r ≡ true
with_id-back id r r' a h = rw (sym a.same_id) h

Evolves-WellFormed :
    {rows rows' : List Session} → Evolves rows rows' → WellFormed rows → WellFormed rows'
Evolves-WellFormed {rows} {rows'} x w = record {
  unique_ids = record {
    at_most_one = λ id. omega (
      arith,
      Evolves-count (with_id id) (λ r r' a h. with_id-back id r r' a h) x,
      w.unique_ids.at_most_one id,
    );
  };
  claims_fit = Evolves-fit x w.claims_fit;
  one_live = λ schema document user. omega (
    arith,
    Evolves-count (live_sign schema document user)
        (λ r r' a h. live_sign-back schema document user r r' a h) x,
    w.one_live schema document user,
  );
}

-- Where no row passes, none is counted.
none_counted :
    (p q : Session → Bool) (rows : List Session)
    → ((r : Session) → p r ≡ true → q r ≡ true)
    → any_of q rows ≡ false
    → count_if p rows ≡ 0
none_counted p q [] f h = omega arith
none_counted p q (r ∷ rows) f h = elim (Bool-cases (p r)) [
  | inl e ↦ ground (arith, h, f r e)
  | inr e ↦ ground (arith, h, e, none_counted p q rows f (ground (arith, h)))
]

all_fit-append :
    (rows : List Session) (s : Session)
    → all_of claim_fits rows ≡ true
    → claim_fits s ≡ true
    → all_of claim_fits (rows ++ (s ∷ [])) ≡ true
all_fit-append [] s h k = ground (arith, k)
all_fit-append (r ∷ rows) s h k = ground (arith, h, all_fit-append rows s (ground (arith, h)) k)

shared_user :
    (a b : Option ℕ) (u : ℕ) → eq_some a u ≡ true → eq_some b u ≡ true → same_column b a ≡ true
shared_user none b u h k = cc
shared_user (some x) none u h k = cc
shared_user (some x) (some y) u h k = ground (arith, h, k)

-- Two rows that the test of one key passes are rows of one key.
same_key-live :
    (schema document user : ℕ) (s r : Session)
    → live_sign schema document user s ≡ true
    → live_sign schema document user r ≡ true
    → same_key s r && is_live_job sign r ≡ true
same_key-live schema document user s r h k =
    ground
      (arith, h, k, shared_user s.user_id r.user_id user (ground (arith, h)) (ground (arith, k)))

inserted-one_live :
    (schema document user : ℕ) (s : Session) (rows : List Session)
    → breaks_index s rows ≡ false
    → count_if (live_sign schema document user) rows ≤ 1
    → count_if (live_sign schema document user) (rows ++ (s ∷ [])) ≤ 1
unfolding breaks_index
inserted-one_live schema document user s rows free u =
    let p = live_sign schema document user in
    elim (Bool-cases (p s)) [
      | inl e ↦
          let job : is_live_job sign s ≡ true = ground (arith, e) in
          ground (
            arith,
            e,
            count_if-append p rows (s ∷ []),
            none_counted p (λ r. same_key s r && is_live_job sign r) rows
                (λ r k. same_key-live schema document user s r e k) (ground (arith, free, job)),
          )
      | inr e ↦ ground (arith, e, u, count_if-append p rows (s ∷ []))
    ]

inserted_unique :
    (id : ℕ) (s : Session) (rows : List Session)
    → any_of (with_id s.session_id) rows ≡ false
    → count_if (with_id id) rows ≤ 1
    → count_if (with_id id) (rows ++ (s ∷ [])) ≤ 1
inserted_unique id s rows fresh u =
    let p = with_id id in
    elim (Bool-cases (p s)) [
      | inl e ↦ ground (
        arith,
        e,
        count_if-append p rows (s ∷ []),
        none_counted p (with_id s.session_id) rows (λ r k. ground (arith, e, k)) fresh,
      )
      | inr e ↦ ground (arith, e, u, count_if-append p rows (s ∷ []))
    ]

step-WellFormed :
    {rows rows' : List Session} → WellFormed rows → Change rows rows' → WellFormed rows'
step-WellFormed w (Change.evolved x) = Evolves-WellFormed x w
step-WellFormed w (Change.inserted s rows fresh fit free) = record {
  unique_ids = record {
    at_most_one = λ id. inserted_unique id s rows fresh (w.unique_ids.at_most_one id);
  };
  claims_fit = all_fit-append rows s w.claims_fit fit;
  one_live = λ schema document user.
      inserted-one_live schema document user s rows free (w.one_live schema document user);
}

-- The statements of the worker, the sweeper and the endpoints, run in any order, keep the queue well
-- formed: ids stay unique, a job in process is claimed by somebody and a waiting one by nobody, and
-- a user has at most one live job of type 'sign' on a document.
pub Run-WellFormed :
    {rows rows' : List Session} → WellFormed rows → Run rows rows' → WellFormed rows'
Run-WellFormed w (Run.stop rows) = w
Run-WellFormed w (Run.then_step run s) =
    let w' = Run-WellFormed w run in step-WellFormed w' (Step-Change w'.unique_ids s)
