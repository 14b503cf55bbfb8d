-- ===== src/Tests/Loading.antt =====
-- Runs of the import of the extension, of the conversion of a configuration and of the logger.
use opensomeip_python.Prelude.{ℕ, ◌≡◌, refl, true, false, none, some, [], ◌∷◌}
use opensomeip_python.Prelude.Int.{pos, negsuc}
use opensomeip_python.Exceptions.{ok, err, import_warning, native_error}
use opensomeip_python.Bridge.Extension.{imported, import_error, fresh, get_all}
use opensomeip_python.Sd.Config.{Kept, keeping, to_cpp_sd_config}
use opensomeip_python.Logging.{warning, debug, console, Logger, python_level, configure_all}
use opensomeip_python.Tests.Fixtures.{here, sd_config}

-- An import that failed is not tried again; a warning that raises is given again.
tries :
    (get_all ℕ (import_error true ∷ import_error false ∷ imported 7 ∷ []) (fresh ℕ)).0
    ≡ err import_warning ∷ ok none ∷ ok none ∷ []
unfolding get_all fresh
tries = refl

found :
    (get_all ℕ (imported 7 ∷ import_error true ∷ []) (fresh ℕ)).0 ≡ ok (some 7) ∷ ok (some 7) ∷ []
unfolding get_all fresh
found = refl

abbrev empty : Kept
empty = record { multicast = here; unicast = here; ttl = 0; repetition_max = 0 }

converted :
    to_cpp_sd_config (keeping empty true) sd_config
    ≡ ok (record {
      multicast = sd_config.multicast_endpoint;
      unicast = here;
      ttl = 3000;
      repetition_max = 30;
    })
unfolding to_cpp_sd_config keeping
converted = refl

levels : (python_level (pos 3) ≡ warning) × (python_level (negsuc 0) ≡ debug)
unfolding python_level
levels = (refl, refl)

abbrev logger : Logger
logger = record { level = pos 0; handlers = []; callback = false }

configured : configure_all ((some (err native_error), pos 20) ∷ (none, pos 10) ∷ []) logger ≡ (
  err native_error ∷ ok tt ∷ [],
  record { level = pos 10; handlers = console ∷ []; callback = false },
)
unfolding configure_all
configured = refl
