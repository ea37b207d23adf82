-- ===== src/RateLimit/Address.antt =====
-- shared/ip_rate_limit.py: a fixed window for each address and bucket, refused when Redis is not
-- there.
use gdi_backend.Prelude.Texts.{Text, codes, or_else}
use gdi_backend.Prelude.{
  ℕ, ◌+◌, ◌*◌, ◌/◌, ◌<◌, ◌≤◌, ◌≡◌, refl, sym, subst, ◌∙◌, Bool, true, false, ◌&&◌, not, Option,
  none, some, List, [], ◌∷◌, ◌++◌, arith, leb, ◌==◌, if◌then◌else◌, Bool-cases, Option-cases, inl,
  inr,
}
use gdi_backend.RateLimit.Counters.{
  second, Slot, Key, key_eq, Counters, is_live, slot_of, set_slot, read, incremented, same_window,
  slot_of-set_slot_self, slot_of-set_slot_other, key_eq→eq,
}

-- `get_client_ip`: the header fly-client-ip, else the peer's host, if there is a peer.
unfoldable pub get_client_ip : Option Text → Option Text → Text
get_client_ip fly_client_ip host =
    or_else fly_client_ip (elim host [ none ↦ codes "unknown" | some h ↦ h ])

-- No client, INCR raises, INCR is done but EXPIRE raises, or both are done.
pub data Redis : Type 0 where
  absent incr_fails expire_fails answers : Redis

pub record Bucket : Type 0 where
  pub bucket_name : Text
  pub limit : ℕ
  pub window_seconds : ℕ

pub record Call : Type 0 where
  pub redis : Redis
  pub now : ℕ
  pub ip : Text

-- IpRateLimitExceeded with its delay, or the call goes on.
pub data Verdict : Type 0 where
  admitted : Verdict
  exceeded : ℕ → Verdict

abbrev pub key_of : Bucket → Call → Key
key_of b c = (b.bucket_name ++ b':' ∷ c.ip, c.now / (b.window_seconds * second))

abbrev pub reaches : Redis → Bool
reaches expire_fails = true
reaches answers = true
reaches _ = false

abbrev pub expires_keys : Redis → Bool
expires_keys answers = true
expires_keys _ = false

-- INCR, and EXPIRE when the count is 1.
abbrev pub counted : Bucket → Call → Option Slot → Slot
counted b c slot =
    let s = incremented slot in
    if s.count == 1 && expires_keys c.redis
    then record s { expires = some (c.now + (b.window_seconds + 5) * second) }
    else s

-- EXPIRE has not raised, and `actual > limit` is false.
abbrev pub within : Bucket → Call → Slot → Bool
within b c s = not (s.count == 1 && not (expires_keys c.redis)) && leb s.count b.limit

-- `check_ip_rate_limit`
unfoldable pub check_ip_rate_limit : Bucket → Call → Counters → Verdict × Counters
check_ip_rate_limit b c cs =
    let s = counted b c (read c.now (key_of b c) cs) in
    if reaches c.redis
    then (if within b c s then admitted else exceeded b.window_seconds, set_slot (key_of b c) s cs)
    else (exceeded b.window_seconds, cs)

abbrev pub is_admitted : Verdict → ℕ
is_admitted admitted = 1
is_admitted (exceeded r) = 0

-- How many of a run of calls are admitted on a key.
unfoldable pub admitted_on : Bucket → Key → List Call → Counters → ℕ
admitted_on b k [] cs = 0
admitted_on b k (c ∷ calls) cs =
    let (v, cs') = check_ip_rate_limit b c cs in
    (if key_eq (key_of b c) k then is_admitted v else 0) + admitted_on b k calls cs'

-- What the slot of a key says after `a` calls were admitted on it: it counts them all, and it is
-- there through the whole window.
record Counted (b : Bucket) (k : Key) (a : ℕ) (cs : Counters) : Type 0 where
  covers : (s : Slot) → slot_of k cs ≡ some s → (a ≤ s.count) × (1 ≤ s.count)
  lasts :
      (s : Slot) (now : ℕ)
      → slot_of k cs ≡ some s
      → now / (b.window_seconds * second) ≡ k.1
      → is_live now s ≡ true
  starts : slot_of k cs ≡ none → a ≡ 0
  bound : a ≤ b.limit

some_injective : {s t : Slot} → some s ≡ some t → s ≡ t
some_injective e = cc

some_not_none : {s : Slot} (a : ℕ) → some s ≡ none → a ≡ 0
some_not_none a e = cc

-- The key gets a slot that counts one call more, and that lasts.
Counted-set_slot :
    (b : Bucket) (k : Key) (a : ℕ) (s : Slot) (cs : Counters)
    → a ≤ s.count
    → 1 ≤ s.count
    → ((now : ℕ) → now / (b.window_seconds * second) ≡ k.1 → is_live now s ≡ true)
    → a ≤ b.limit
    → Counted b k a (set_slot k s cs)
Counted-set_slot b k a s cs c p l u = record {
  covers = λ t e.
      subst (λ t. (a ≤ t.count) × (1 ≤ t.count))
        (some_injective (sym (slot_of-set_slot_self k s cs) ∙ e)) (c, p);
  lasts = λ t now e w.
      subst (λ t. is_live now t ≡ true) (some_injective (sym (slot_of-set_slot_self k s cs) ∙ e))
        (l now w);
  starts = λ e. some_not_none a (sym (slot_of-set_slot_self k s cs) ∙ e);
  bound = u;
}

-- The verdict on a slot.
abbrev pub verdict : Bucket → Call → Slot → Verdict
verdict b c s = if within b c s then admitted else exceeded b.window_seconds

-- The first call on a key.
first_slot-Counted :
    (b : Bucket) (c : Call) (a : ℕ) (cs : Counters)
    → 0 < b.window_seconds
    → a ≡ 0
    → Counted b
        (key_of b c)
        (is_admitted (verdict b c (counted b c none)) + a)
        (set_slot (key_of b c) (counted b c none) cs)
first_slot-Counted b c a cs p z =
    Counted-set_slot b (key_of b c) _ (counted b c none) cs (ground (arith, z)) (ground arith)
      (λ now w. ground (arith, same_window (b.window_seconds * second) now c.now (omega arith) w))
      (ground (arith, z))

-- A later call, on a slot that lasts.
next_slot-Counted :
    (b : Bucket) (c : Call) (a : ℕ) (s : Slot) (cs : Counters)
    → slot_of (key_of b c) cs ≡ some s
    → Counted b (key_of b c) a cs
    → Counted b
        (key_of b c)
        (is_admitted (verdict b c (counted b c (some s))) + a)
        (set_slot (key_of b c) (counted b c (some s)) cs)
next_slot-Counted b c a s cs e i =
    Counted-set_slot b (key_of b c) _ (counted b c (some s)) cs (ground (arith, i.covers s e))
      (ground (arith, i.covers s e)) (λ now w. ground (arith, i.covers s e, i.lasts s now e w))
      (ground (arith, i.covers s e, i.bound))

-- A call on the key.
same_key-Counted :
    (b : Bucket) (c : Call) (a : ℕ) (cs : Counters)
    → 0 < b.window_seconds
    → Counted b (key_of b c) a cs
    → let (v, cs') = check_ip_rate_limit b c cs in Counted b (key_of b c) (is_admitted v + a) cs'
unfolding check_ip_rate_limit
same_key-Counted b c a cs p i = elim (Bool-cases (reaches c.redis)) [
  | inr away ↦ rw away (subst (λ n. Counted b (key_of b c) n cs) (omega arith) i)
  | inl there ↦ elim (Option-cases (slot_of (key_of b c) cs)) [
    | inl none_yet ↦ rw (there, none_yet) (first_slot-Counted b c a cs p (i.starts none_yet))
    | inr (s, e) ↦ rw (there, e, i.lasts s c.now e refl) (next_slot-Counted b c a s cs e i)
  ]
]

-- A call on another key.
other_key-Counted :
    (b : Bucket) (k : Key) (c : Call) (a : ℕ) (cs : Counters)
    → key_eq (key_of b c) k ≡ false
    → Counted b k a cs
    → Counted b k a (check_ip_rate_limit b c cs).1
unfolding check_ip_rate_limit
other_key-Counted b k c a cs ne i = elim (Bool-cases (reaches c.redis)) [
  | inr away ↦ rw away i
  | inl there ↦ rw there (record {
    covers = λ s e. i.covers s (sym (slot_of-set_slot_other k (key_of b c) _ cs ne) ∙ e);
    lasts = λ s now e w. i.lasts s now (sym (slot_of-set_slot_other k (key_of b c) _ cs ne) ∙ e) w;
    starts = λ e. i.starts (sym (slot_of-set_slot_other k (key_of b c) _ cs ne) ∙ e);
    bound = i.bound;
  })
]

admitted_on-le :
    (b : Bucket) (k : Key) (calls : List Call) (a : ℕ) (cs : Counters)
    → 0 < b.window_seconds
    → Counted b k a cs
    → admitted_on b k calls cs + a ≤ b.limit
unfolding admitted_on
admitted_on-le b k [] a cs p i = omega (arith, i.bound)
admitted_on-le b k (c ∷ calls) a cs p i = elim (Bool-cases (key_eq (key_of b c) k)) [
  | inl same ↦
      let on_k = key_eq→eq (key_of b c) k same in
      let n = is_admitted (check_ip_rate_limit b c cs).0 in
      let cs' = (check_ip_rate_limit b c cs).1 in
      let one_more =
        subst (λ j. Counted b j (n + a) cs') on_k
          (same_key-Counted b c a cs p (subst (λ j. Counted b j a cs) (sym on_k) i)) in
      rw same (omega (arith, admitted_on-le b k calls (n + a) cs' p one_more))
  | inr other ↦ rw other (
      omega (
        arith,
        admitted_on-le b k calls a (check_ip_rate_limit b c cs).1 p
            (other_key-Counted b k c a cs other i),
      ))
]

-- For a bucket with a window, whatever calls come, at whatever times and in whatever order, from
-- that address and from others, and whether or not Redis answers each of them: at most `limit` calls
-- of one address are admitted in one window.
pub admitted_on-bound :
    (b : Bucket) (k : Key) (calls : List Call)
    → 0 < b.window_seconds
    → admitted_on b k calls [] ≤ b.limit
admitted_on-bound b k calls p = omega (
  arith,
  admitted_on-le b k calls 0 [] p (record {
    covers = λ s e. cc;
    lasts = λ s now e w. cc;
    starts = λ e. refl;
    bound = omega arith;
  }),
)
