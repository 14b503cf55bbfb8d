-- ===== src/Logging.antt =====
-- src/opensomeip/_logging.py: the levels of the extension's log, and `configure_logging`.
pub mod Laws
use Prim.Native.String.{String}
use opensomeip_python.Prelude.{ℕ, Bool, true, false, Option, none, some, List, [], ◌∷◌, ◌++◌, map}
use opensomeip_python.Prelude.Dict.{Dict, lookup}
use opensomeip_python.Prelude.Int.{ℤ, pos, negsuc}
use opensomeip_python.Exceptions.{Result, ok, err}

-- The levels of Python's `logging` that the table names.
pub data Level : Type 0 where
  debug info warning error critical : Level

-- Their values in `logging`.
unfoldable pub level_value : Level → ℕ
level_value debug = 10
level_value info = 20
level_value warning = 30
level_value error = 40
level_value critical = 50

-- `_CPP_TO_PYTHON_LEVEL`
unfoldable pub cpp_to_python_level : Dict Level
cpp_to_python_level =
    (0, debug) ∷ (1, debug) ∷ (2, info) ∷ (3, warning) ∷ (4, error) ∷ (5, critical) ∷ []

unfoldable get_or : Level → Option Level → Level
get_or default none = default
get_or default (some l) = l

-- `….get(level, logging.DEBUG)`: a negative integer is no key.
unfoldable pub python_level : ℤ → Level
unfolding lookup cpp_to_python_level get_or
python_level (pos n) = get_or debug (lookup n cpp_to_python_level)
python_level (negsuc n) = debug

-- What `_logger.log` is called with, besides the format "[%s] %s".
pub record LogRecord : Type 0 where
  pub level : Level
  pub component : String
  pub message : String

-- `_on_cpp_log`
unfoldable pub on_cpp_log : ℤ → String → String → LogRecord
unfolding python_level
on_cpp_log level component message = record {
  level = python_level level;
  component = component;
  message = message;
}

-- `logging.StreamHandler()` with the format that `configure_logging` gives it, or a handler that the
-- application added.
pub data Handler : Type 0 where
  console : Handler
  application : ℕ → Handler

-- The logger "opensomeip", and whether the extension has the callback.
pub record Logger : Type 0 where
  pub level : ℤ
  pub handlers : List Handler
  pub callback : Bool

-- `if not _logger.handlers:`
unfoldable pub add_console : List Handler → List Handler
add_console [] = console ∷ []
add_console (h ∷ hs) = h ∷ hs

-- `ext.set_log_callback(_on_cpp_log)`, with what the call gives, if there is an extension that has it.
unfoldable register : Option (Result (Unit {0})) → Logger → Result (Unit {0}) × Logger
register none s = (ok tt, s)
register (some (ok u)) s = (ok tt, record s { callback = true })
register (some (err e)) s = (err e, s)

unfoldable pub configure_logging :
    Option (Result (Unit {0})) → ℤ → Logger → Result (Unit {0}) × Logger
unfolding add_console register
configure_logging ext level s =
    register ext (record s { level = level; handlers = add_console s.handlers })

-- Several calls; each of them may raise.
unfoldable pub configure_all :
    List (Option (Result (Unit {0})) × ℤ) → Logger → List (Result (Unit {0})) × Logger
unfolding configure_logging
configure_all [] s = ([], s)
configure_all (c ∷ cs) s =
    let first = configure_logging c.0 c.1 s in
    let rest = configure_all cs first.1 in (first.0 ∷ rest.0, rest.1)
