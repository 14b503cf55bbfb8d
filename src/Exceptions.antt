-- ===== src/Exceptions.antt =====
-- src/opensomeip/exceptions.py: the exception classes, what a call may raise, and Python's `except`.
-- The text of an exception is not modelled.
use opensomeip_python.Prelude.{◌≡◌, ◌⊎◌, inl, inr, refl, Option, none, some}

-- `SomeIpError` and its subclasses.
pub data ErrorClass : Type 0 where
  some_ip_error transport_error connection_error connection_lost_error : ErrorClass
  serialization_error timeout_error service_discovery_error : ErrorClass
  rpc_error e2e_error configuration_error : ErrorClass

-- What the code may raise. `native_error` is any exception that the extension raises, and
-- `callback_error` any that a function of the application raises.
pub data Exn : Type 0 where
  library : ErrorClass → Exn
  value_error runtime_error struct_error zero_division_error : Exn
  queue_full stop_iteration stop_async_iteration attribute_error : Exn
  type_error overflow_error import_warning invalid_state_error : Exn
  native_error callback_error : Exn

-- The base class, `none` for `Exception`.
unfoldable pub base : ErrorClass → Option ErrorClass
base some_ip_error = none
base transport_error = some some_ip_error
base connection_error = some transport_error
base connection_lost_error = some transport_error
base serialization_error = some some_ip_error
base timeout_error = some some_ip_error
base service_discovery_error = some some_ip_error
base rpc_error = some some_ip_error
base e2e_error = some some_ip_error
base configuration_error = some some_ip_error

pub data Result {ℓ} (A : Type ℓ) : Type ℓ where
  ok : A → Result A
  err : Exn → Result A

abbrev pub map_result {ℓ κ} : {A : Type ℓ} {B : Type κ} → (A → B) → Result A → Result B
map_result f (ok a) = ok (f a)
map_result f (err e) = err e

abbrev pub bind {ℓ κ} : {A : Type ℓ} {B : Type κ} → Result A → (A → Result B) → Result B
bind (ok a) f = f a
bind (err e) f = err e

pub Result-cases {ℓ} :
    {A : Type ℓ} (r : Result A) → ((a : A) × (r ≡ ok a)) ⊎ ((e : Exn) × (r ≡ err e))
Result-cases (ok a) = inl (a, refl)
Result-cases (err e) = inr (e, refl)
