-- ===== src/E2e/Protection/Laws.antt =====
-- The counter of `E2EProtection`.
use Prim.Native.Nat.{bit_and}
use opensomeip_python.Prelude.{
  ℕ, suc, ◌+◌, ◌%◌, ◌<◌, ◌≡◌, ◌↔◌, refl, ◌∙◌, ap, true, none, some, List, [], ◌∷◌, ◌==◌, ==_iff,
  length, map, arith,
}
use opensomeip_python.Prelude.Bits.{all_below, all_below_sound}
use opensomeip_python.Exceptions.{Result, ok, err}
use opensomeip_python.E2e.Crc.Detection.{IsBytes}
use opensomeip_python.E2e.Protection.{
  status_ok, E2eConfig, E2eProfile, E2eProtection, new_protection, protect, check, protect_all,
}

mask_table : all_below 257 (λ c. bit_and c 0xff == c % 256) ≡ true
unfolding all_below
mask_table = refl

pub mask-mod : (c : ℕ) → c < 257 → bit_and c 0xff ≡ c % 256
mask-mod c h = (==_iff _ _).0 (all_below_sound 257 _ c mask_table h)

-- How many of the calls returned.
abbrev pub returned : List (Result (List ℕ)) → ℕ
returned [] = 0
returned (ok bytes ∷ rs) = suc (returned rs)
returned (err e ∷ rs) = returned rs

returned-cons :
    (r : Result (List ℕ)) (rs : List (Result (List ℕ)))
    → returned (r ∷ rs) ≡ returned (r ∷ []) + returned rs
returned-cons (ok bytes) rs = omega arith
returned-cons (err e) rs = omega arith

pub protect-counter :
    (profile : E2eProfile) (payload : List ℕ) (p : E2eProtection)
    → p.profile ≡ some profile
    → p.counter < 256
    → ((protect payload p).1.profile ≡ some profile)
      × ((protect payload p).1.counter ≡ (p.counter + returned ((protect payload p).0 ∷ [])) % 256)
unfolding protect
protect-counter profile payload p has h = ground (arith, has, mask-mod (p.counter + 1))

-- With a profile, the counter counts the calls of `protect` that returned, modulo 256; a call that
-- raises does not count.
pub counter-protect_all :
    (profile : E2eProfile) (payloads : List (List ℕ)) (p : E2eProtection)
    → p.profile ≡ some profile
    → p.counter < 256
    → let out = protect_all payloads p in
      (out.1.counter ≡ (p.counter + returned out.0) % 256) × (length out.0 ≡ length payloads)
unfolding protect_all
counter-protect_all profile [] p has h = omega arith
counter-protect_all profile (payload ∷ rest) p has h =
    let here = protect-counter profile payload p has h in
    let p' = (protect payload p).1 in
    let later = counter-protect_all profile rest p' here.0 (omega (arith, here)) in
    (
      later.0 ∙ omega (arith, here, returned-cons (protect payload p).0 (protect_all rest p').0),
      ap suc later.1,
    )

-- Without a profile the configuration has no effect: every payload is passed on as it is, however
-- many there are, and every payload passes the check.
pub no_profile :
    (config : E2eConfig) (payloads : List (List ℕ)) (received : List ℕ)
    → let p = new_protection config none in
      (protect_all payloads p ≡ (map ok payloads, p)) × (check received p ≡ ok status_ok)
unfolding protect_all new_protection check
no_profile config [] received = (refl, refl)
no_profile config (payload ∷ rest) received =
    let later = no_profile config rest received in
    (ap (λ (t : List (Result (List ℕ)) × E2eProtection). (ok payload ∷ t.0, t.1)) later.0, refl)

-- A profile that accepts a protected payload exactly under the counters that agree, in their low byte,
-- with the one that it was protected with.
abbrev pub ChecksCounter : E2eProfile → Type 0
ChecksCounter profile =
    (payload bytes : List ℕ) (sent expected : ℕ)
    → IsBytes payload
    → profile.protect_bytes payload sent ≡ ok bytes
    → (profile.check_bytes bytes expected ≡ ok status_ok) ↔ (sent % 256 ≡ expected % 256)
