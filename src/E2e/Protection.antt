-- ===== src/E2e/Protection.antt =====
-- `E2eProtection` of src/opensomeip/e2e.py. A profile is the application's subclass of
-- `E2eProfile`; the model takes one whose answers depend on the arguments alone.
pub mod Laws
use Prim.Native.Nat.{bit_and}
use opensomeip_python.Prelude.{
  ℕ, zero, suc, ◌+◌, ◌%◌, ◌<◌, ◌≡◌, refl, Option, none, some, List, [], ◌∷◌, arith,
}
use opensomeip_python.Exceptions.{Exn, Result, ok, err}

pub data ProfileId : Type 0 where
  profile_01 profile_02 profile_04 profile_05 : ProfileId
  profile_06 profile_07 profile_11 profile_22 : ProfileId

pub data CheckStatus : Type 0 where
  status_ok repeated wrong_sequence status_error not_available no_new_data : CheckStatus

pub record E2eConfig : Type 0 where
  pub profile_id : ProfileId
  pub data_id : ℕ
  pub data_length : ℕ
  pub max_delta_counter : ℕ
  pub crc_offset : ℕ
  pub counter_offset : ℕ

-- The two methods of a profile, which may raise.
pub record E2eProfile : Type 0 where
  pub protect_bytes : List ℕ → ℕ → Result (List ℕ)
  pub check_bytes : List ℕ → ℕ → Result CheckStatus

pub record E2eProtection : Type 0 where
  pub config : E2eConfig
  pub profile : Option E2eProfile
  pub counter : ℕ

-- `E2eProtection(config, profile)`
unfoldable pub new_protection : E2eConfig → Option E2eProfile → E2eProtection
new_protection c p = record { config = c; profile = p; counter = 0 }

-- The counter moves on when the profile has returned.
abbrev pub counted : E2eProtection → Result (List ℕ) → Result (List ℕ) × E2eProtection
counted p (ok bytes) = (ok bytes, record p { counter = bit_and (p.counter + 1) 0xff })
counted p (err e) = (err e, p)

unfoldable pub protect : List ℕ → E2eProtection → Result (List ℕ) × E2eProtection
protect payload p = elim p.profile [
  | none ↦ (ok payload, p)
  | some profile ↦ counted p (profile.protect_bytes payload p.counter)
]

unfoldable pub check : List ℕ → E2eProtection → Result CheckStatus
check payload p = elim p.profile [
  | none ↦ ok status_ok
  | some profile ↦ profile.check_bytes payload p.counter
]

-- A run of `protect` on one payload after the other, with the results.
unfoldable pub protect_all : List (List ℕ) → E2eProtection → List (Result (List ℕ)) × E2eProtection
unfolding protect
protect_all [] p = ([], p)
protect_all (payload ∷ rest) p =
    let later = protect_all rest (protect payload p).1 in ((protect payload p).0 ∷ later.0, later.1)
