-- ===== src/Endpoint.antt =====
-- `Endpoint` of src/opensomeip/transport.py.
use Prim.Native.String.{String}
use opensomeip_python.Prelude.{ℕ, if◌then◌else◌}
use opensomeip_python.Prelude.Int.{ℤ, in_range, to_ℕ}
use opensomeip_python.Exceptions.{Result, ok, err, value_error}

pub record Endpoint : Type 0 where
  pub ip : String
  pub port : ℕ

-- The call `Endpoint(ip, port)` with the check of `__post_init__`.
unfoldable pub new : String → ℤ → Result Endpoint
new ip port =
    if in_range port 65535 then ok (record { ip = ip; port = to_ℕ port }) else err value_error
