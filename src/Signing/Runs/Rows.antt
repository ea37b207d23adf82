-- ===== src/Signing/Runs/Rows.antt =====
-- What the UPDATEs on public.signing_sessions may do to a row: the rows they rewrite stay the rows of
-- their jobs, and only a live job changes its status.
use gdi_backend.Prelude.{
  ℕ, ◌≡◌, refl, ◌∙◌, Bool, true, Option, List, Memᴰ, [], ◌∷◌, arith, Bool-cases, inl, inr,
  update_if, ap,
}
use gdi_backend.Prelude.Texts.{Text}
use gdi_backend.Signing.Tables.{Status, Payload, Session, same_status, is_live}
use gdi_backend.Signing.Runs.{fits, claim_fits, Allowed, Evolves}

pub Allowed-refl : (r : Session) → Allowed r r
Allowed-refl r = record {
  same_id = refl;
  same_schema = refl;
  same_document = refl;
  same_user = refl;
  same_type = refl;
  stays_closed = λ h. (refl, refl);
  keeps_fit = λ h. h;
}

pub Allowed-trans : {a b c : Session} → Allowed a b → Allowed b c → Allowed a c
Allowed-trans {a} {b} {c} x y = record {
  same_id = y.same_id ∙ x.same_id;
  same_schema = y.same_schema ∙ x.same_schema;
  same_document = y.same_document ∙ x.same_document;
  same_user = y.same_user ∙ x.same_user;
  same_type = y.same_type ∙ x.same_type;
  stays_closed = λ h.
      let (s, f) = x.stays_closed h in
      let (s', f') = y.stays_closed (ap (λ q. is_live q) s ∙ h) in (s' ∙ s, f' ∙ f);
  keeps_fit = λ h. y.keeps_fit (x.keeps_fit h);
}

pub Evolves_refl : (rows : List Session) → Evolves rows rows
Evolves_refl [] = Evolves.nothing
Evolves_refl (r ∷ rows) = Evolves.row (Allowed-refl r) (Evolves_refl rows)

pub Evolves_trans : {a b c : List Session} → Evolves a b → Evolves b c → Evolves a c
Evolves_trans Evolves.nothing y = y
Evolves_trans (Evolves.row h x) (Evolves.row k y) =
    Evolves.row (Allowed-trans h k) (Evolves_trans x y)

pub update_if-Evolves :
    (p : Session → Bool) (f : Session → Session) (rows : List Session)
    → ((r : Session) → Memᴰ r rows → p r ≡ true → Allowed r (f r))
    → Evolves rows (update_if p f rows)
update_if-Evolves p f [] allowed = Evolves.nothing
update_if-Evolves p f (r ∷ rows) allowed =
    let rest : Evolves rows (update_if p f rows) =
      update_if-Evolves p f rows (λ q m. allowed q (Memᴰ.tail m)) in
    elim (Bool-cases (p r)) [
      | inl e ↦ rw e (Evolves.row (allowed r (Memᴰ.head refl) e) rest)
      | inr e ↦ rw e (Evolves.row (Allowed-refl r) rest)
    ]

-- A statement that leaves the status, the reason and the claim.
pub note-Allowed :
    (r : Session) {e : ℕ} {a : Option ℕ} {u : ℕ} {p : Payload}
    → Allowed r (record r { expires_at = e; available_at = a; updated_at = u; payload = p })
note-Allowed r = record {
  same_id = refl;
  same_schema = refl;
  same_document = refl;
  same_user = refl;
  same_type = refl;
  stays_closed = λ h. (refl, refl);
  keeps_fit = λ h. h;
}

-- A statement on a live job: it may change everything that a claim, a requeue or a close changes.
pub live-Allowed :
    (r : Session) {s : Status} {f : Option Text} {w c : Option ℕ} {e : ℕ} {a : Option ℕ} {u : ℕ}
    {p : Payload}
    → is_live r.status ≡ true
    → (claim_fits r ≡ true → fits s w ≡ true)
    → Allowed r (record r {
      status = s;
      failure_reason = f;
      claimed_by = w;
      claimed_at = c;
      expires_at = e;
      available_at = a;
      updated_at = u;
      payload = p;
    })
live-Allowed r live keeps = record {
  same_id = refl;
  same_schema = refl;
  same_document = refl;
  same_user = refl;
  same_type = refl;
  stays_closed = λ h. cc;
  keeps_fit = keeps;
}

pub live_of_same : (s t : Status) → is_live t ≡ true → same_status s t ≡ true → is_live s ≡ true
live_of_same s t live same = ground (arith, live, same)
