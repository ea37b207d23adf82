-- ===== src/Signing/Fair.antt =====
-- workers/escri.py, `_claim_one`: which job is claimed.
use gdi_backend.Prelude.{
  ℕ, ◌≤◌, ◌<◌, ◌≡◌, refl, Bool, true, false, some, List, Memᴰ, arith, Option-cases, none, inl, inr,
  ◌⊎◌, least_if, least_if-Mem, least_if-none, least_if-least,
}
use gdi_backend.Signing.Tables.{Session}
use gdi_backend.Signing.Claims.{in_flight, goes_first, is_claimable, claim_by, claim_one}

goes_first_refl : (rows : List Session) (a : Session) → goes_first rows a a ≡ true
unfolding goes_first
goes_first_refl rows a = ground arith

goes_first_total :
    (rows : List Session) (a b : Session) → goes_first rows a b ≡ false → goes_first rows b a ≡ true
unfolding goes_first
goes_first_total rows a b h = ground (arith, h)

goes_first_trans :
    (rows : List Session) (a b c : Session)
    → goes_first rows a b ≡ true
    → goes_first rows b c ≡ true
    → goes_first rows a c ≡ true
unfolding goes_first
goes_first_trans rows a b c h k = ground (arith, h, k)

goes_first_means :
    (rows : List Session) (a b : Session)
    → goes_first rows a b ≡ true
    → (in_flight rows a.schema_name < in_flight rows b.schema_name)
      ⊎ ((in_flight rows a.schema_name ≡ in_flight rows b.schema_name)
          × (a.created_at ≤ b.created_at))
unfolding goes_first
goes_first_means rows a b h = ground (arith, h)

-- `_claim_one` finds no job only when none is claimable. Otherwise it claims one that is: of the
-- claimable jobs, none belongs to a tenant with fewer jobs in process, nor is older where the
-- tenants have as many.
pub claim_one-fair :
    (worker now : ℕ) (locked : ℕ → Bool) (rows : List Session)
    → (((claim_one worker now locked rows).0 ≡ none)
        × ((z : Session) → Memᴰ z rows → is_claimable now locked z ≡ false))
      ⊎ ((s : Session) × ((claim_one worker now locked rows).0 ≡ some (claim_by worker now s))
          × Memᴰ s rows
          × (is_claimable now locked s ≡ true)
          × ((z : Session)
              → Memᴰ z rows
              → is_claimable now locked z ≡ true
              → (in_flight rows s.schema_name < in_flight rows z.schema_name)
                ⊎ ((in_flight rows s.schema_name ≡ in_flight rows z.schema_name)
                    × (s.created_at ≤ z.created_at))))
unfolding claim_one
claim_one-fair worker now locked rows =
    let before = goes_first rows in
    let p = is_claimable now locked in
    elim (Option-cases (least_if before p rows)) [
      | inl e ↦ inl (rw e refl, λ z m. least_if-none before p rows e m)
      | inr (s, e) ↦
          let (there, passes) = least_if-Mem before p rows e in
          inr (
            s,
            rw e refl,
            there,
            passes,
            λ z m pass. goes_first_means rows s z (
                least_if-least before p (goes_first_refl rows) (goes_first_total rows)
                  (goes_first_trans rows) rows e m pass),
          )
    ]
