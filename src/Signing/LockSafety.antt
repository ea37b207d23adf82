-- ===== src/Signing/LockSafety.antt =====
-- services/documents/signing/r2_lock.py: what holds of the processes that acquire the lock of a document
-- at the same time, and when a move of one of them keeps it.
use gdi_backend.Prelude.{
  ℕ, ◌+◌, ◌<◌, ◌≡◌, ◌≢◌, refl, sym, ap, ◌∙◌, Bool, true, false, Option, none, some, List, [], ◌∷◌,
  Memᴰ, arith, ◌==◌, ==_iff, Bool-cases, inl, inr, ◌⊎◌,
}
use gdi_backend.Signing.Tables.{seconds}
use gdi_backend.Signing.Lock.{
  Pdf, inprocess_key, get_object, Desk, redis_lock_ttl, is_locked, acquired, refused, raises,
}
use gdi_backend.Signing.LockSteps.{
  Stage, outside, asking, copying, deleting, ended, World, set_stage,
}

-- Since when a process has the key and has not ended.
abbrev pub began : Stage → Option ℕ
began (asking t) = some t
began (copying t) = some t
began (deleting t) = some t
began _ = none

-- The stages that a process with the lock excludes: after the PDF in process was not found.
abbrev pub is_past_head : Stage → Bool
is_past_head (copying t) = true
is_past_head (deleting t) = true
is_past_head (ended acquired) = true
is_past_head _ = false

abbrev pub is_acquired : Stage → Bool
is_acquired (ended acquired) = true
is_acquired _ = false

abbrev pub needs_pdf : Stage → Bool
needs_pdf (deleting t) = true
needs_pdf (ended acquired) = true
needs_pdf _ = false

abbrev pub is_there : Option Pdf → Bool
is_there none = false
is_there (some pdf) = true

abbrev pub in_process : ℕ → Desk → Bool
in_process doc s = is_there (get_object (inprocess_key doc) s.bucket)

-- The key that a process has taken at `t` is there, and is alive.
abbrev pub IsKeyed : ℕ → ℕ → Desk → ℕ → Type 0
IsKeyed doc now s t =
    Memᴰ (doc, t + seconds redis_lock_ttl) s.locks × (now < t + seconds redis_lock_ttl)

pub record Inv (doc : ℕ) (w : World) : Type 0 where
  pub one : (i j a b : ℕ) → began (w.stage i) ≡ some a → began (w.stage j) ≡ some b → i ≡ j
  pub keyed : (i t : ℕ) → began (w.stage i) ≡ some t → IsKeyed doc w.now w.desk t
  pub present : (i : ℕ) → needs_pdf (w.stage i) ≡ true → in_process doc w.desk ≡ true
  pub alone : (i j : ℕ) → is_acquired (w.stage i) ≡ true → is_past_head (w.stage j) ≡ true → i ≡ j

set_stage-cases :
    (i : ℕ) (s : Stage) (f : ℕ → Stage) (j : ℕ)
    → ((j ≡ i) × (set_stage i s f j ≡ s)) ⊎ ((j ≢ i) × (set_stage i s f j ≡ f j))
set_stage-cases i s f j = elim (Bool-cases (j == i)) [
  | inl e ↦ inl ((==_iff j i).0 e, rw e refl)
  | inr e ↦ inr (λ same. let own : (j == i) ≡ true = (==_iff j i).1 same in cc, rw e refl)
]

pub is_locked-live :
    (now doc t : ℕ) (locks : List (ℕ × ℕ))
    → Memᴰ (doc, t) locks
    → now < t
    → is_locked now doc locks ≡ true
unfolding is_locked
is_locked-live now doc t [] m live = elim m [ ]
is_locked-live now doc t ((d, e) ∷ locks) (Memᴰ.head h) live =
    let a : doc ≡ d = ap (λ (p : ℕ × ℕ). p.0) h in
    let b : t ≡ e = ap (λ (p : ℕ × ℕ). p.1) h in ground (arith, live)
is_locked-live now doc t ((d, e) ∷ locks) (Memᴰ.tail m) live =
    rw (is_locked-live now doc t locks m live) (ground arith)

past_head-acquired : (s : Stage) → is_past_head s ≡ true → began s ≡ none → is_acquired s ≡ true
past_head-acquired (ended acquired) h b = refl
past_head-acquired (ended refused) h b = cc
past_head-acquired (ended raises) h b = cc
past_head-acquired outside h b = cc
past_head-acquired (asking t) h b = cc
past_head-acquired (copying t) h b = cc
past_head-acquired (deleting t) h b = cc

pub acquired-past_head : (s : Stage) → is_acquired s ≡ true → is_past_head s ≡ true
acquired-past_head (ended acquired) h = refl
acquired-past_head (ended refused) h = cc
acquired-past_head (ended raises) h = cc
acquired-past_head outside h = cc
acquired-past_head (asking t) h = cc
acquired-past_head (copying t) h = cc
acquired-past_head (deleting t) h = cc

pub acquired-needs_pdf : (s : Stage) → is_acquired s ≡ true → needs_pdf s ≡ true
acquired-needs_pdf (ended acquired) h = refl
acquired-needs_pdf (ended refused) h = cc
acquired-needs_pdf (ended raises) h = cc
acquired-needs_pdf outside h = cc
acquired-needs_pdf (asking t) h = cc
acquired-needs_pdf (copying t) h = cc
acquired-needs_pdf (deleting t) h = cc

module _ (doc : ℕ) (w : World) (inv : Inv doc w) (i : ℕ) where
  abbrev pub after : Stage → Desk → World
  after s desk = record w { desk = desk; stage = set_stage i s w.stage }

  -- A process that has no key any more, or never had, leaves the others as they are.
  pub lets_be :
      (s : Stage)
      → began s ≡ none
      → (is_past_head s ≡ true → is_past_head (w.stage i) ≡ true)
      → (needs_pdf s ≡ true → needs_pdf (w.stage i) ≡ true)
      → (is_acquired s ≡ true → is_acquired (w.stage i) ≡ true)
      → Inv doc (after s w.desk)
  lets_be s idle past needs got = record {
    one = λ j k a b e f. inv.one j k a b (old_began j e) (old_began k f);
    keyed = λ j t e. inv.keyed j t (old_began j e);
    present = λ j h. elim (set_stage-cases i s w.stage j) [
      | inl (same, e) ↦ inv.present i (needs (sym (ap needs_pdf e) ∙ h))
      | inr (other, e) ↦ inv.present j (sym (ap needs_pdf e) ∙ h)
    ];
    alone = λ j k h l. inv.alone j k (old_got j h) (old_past k l);
  }
    where
      old_began :
          (j : ℕ) {a : ℕ} → began (set_stage i s w.stage j) ≡ some a → began (w.stage j) ≡ some a
      old_began j e = elim (set_stage-cases i s w.stage j) [
        | inl (same, q) ↦ let n = ap began q ∙ idle in cc
        | inr (other, q) ↦ sym (ap began q) ∙ e
      ]

      old_past :
          (j : ℕ) → is_past_head (set_stage i s w.stage j) ≡ true → is_past_head (w.stage j) ≡ true
      old_past j h = elim (set_stage-cases i s w.stage j) [
        | inl (same, q) ↦ rw same (past (sym (ap is_past_head q) ∙ h))
        | inr (other, q) ↦ sym (ap is_past_head q) ∙ h
      ]

      old_got :
          (j : ℕ) → is_acquired (set_stage i s w.stage j) ≡ true → is_acquired (w.stage j) ≡ true
      old_got j h = elim (set_stage-cases i s w.stage j) [
        | inl (same, q) ↦ rw same (got (sym (ap is_acquired q) ∙ h))
        | inr (other, q) ↦ sym (ap is_acquired q) ∙ h
      ]

  -- A process that is the only one with a key moves.
  pub goes_on :
      (s : Stage) (desk : Desk)
      → ((j : ℕ) → j ≢ i → began (w.stage j) ≡ none)
      → ((t : ℕ) → began s ≡ some t → IsKeyed doc w.now desk t)
      → (in_process doc w.desk ≡ true → in_process doc desk ≡ true)
      → (needs_pdf s ≡ true → in_process doc desk ≡ true)
      → (is_past_head s ≡ true → (j : ℕ) → j ≢ i → is_acquired (w.stage j) ≡ false)
      → Inv doc (after s desk)
  goes_on s desk others has_key kept put clear = record {
    one = λ j k a b e f. (only j e).0 ∙ sym (only k f).0;
    keyed = λ j t e. has_key t (only j e).1;
    present = λ j h. elim (set_stage-cases i s w.stage j) [
      | inl (same, e) ↦ put (sym (ap needs_pdf e) ∙ h)
      | inr (other, e) ↦ kept (inv.present j (sym (ap needs_pdf e) ∙ h))
    ];
    alone = λ j k h l. elim (set_stage-cases i s w.stage j) [
      | inl (same, e) ↦ elim (set_stage-cases i s w.stage k) [
        | inl (same', f) ↦ same ∙ sym same'
        | inr (other, f) ↦
            let past = acquired-past_head s (sym (ap is_acquired e) ∙ h) in
            let denied = clear past k other in
            let yes =
              past_head-acquired (w.stage k) (sym (ap is_past_head f) ∙ l) (others k other) in
            cc
      ]
      | inr (other, e) ↦ elim (set_stage-cases i s w.stage k) [
        | inl (same', f) ↦
            let denied = clear (sym (ap is_past_head f) ∙ l) j other in
            let yes = sym (ap is_acquired e) ∙ h in cc
        | inr (other', f) ↦ inv.alone j k (sym (ap is_acquired e) ∙ h) (sym (ap is_past_head f) ∙ l)
      ]
    ];
  }
    where
      only :
          (j : ℕ) {a : ℕ} → began (set_stage i s w.stage j) ≡ some a → (j ≡ i) × (began s ≡ some a)
      only j e = elim (set_stage-cases i s w.stage j) [
        | inl (same, q) ↦ (same, sym (ap began q) ∙ e)
        | inr (other, q) ↦ let n = ap began q ∙ others j other in absurd (cc)
      ]
