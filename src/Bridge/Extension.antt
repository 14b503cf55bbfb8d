-- ===== src/Bridge/Extension.antt =====
-- `_load_extension` and `get_ext` of src/opensomeip/_bridge.py: the import of the extension, with the
-- variables of the module and the cache of `functools.lru_cache`. The extension's type is a parameter.
use opensomeip_python.Prelude.{ℕ, suc, Bool, true, false, Option, none, some, List, [], ◌∷◌}
use opensomeip_python.Exceptions.{Exn, Result, ok, err, import_warning}

-- What the statement `from opensomeip import _opensomeip` does. After an `ImportError` a warning is
-- given, which raises if the filter of the warnings makes errors of them.
pub data Import (E : Type 0) : Type 0 where
  imported : E → Import E
  import_error : Bool → Import E
  other_error : Exn → Import E

pub record Loader (E : Type 0) : Type 0 where
  pub ext : Option E
  pub has_native : Bool
  pub cached : Option (Option E)
  pub warnings : ℕ

module _ (E : Type 0) where
  unfoldable pub fresh : Loader E
  fresh = record { ext = none; has_native = false; cached = none; warnings = 0 }

  -- The body of the `try` and its `except`, where `_ext` is `None`.
  unfoldable pub run_import : Import E → Loader E → Result (Option E) × Loader E
  run_import (imported e) s = (ok (some e), record s { ext = some e; has_native = true })
  run_import (import_error false) s =
      (ok none, record s { has_native = false; warnings = suc s.warnings })
  run_import (import_error true) s = (err import_warning, record s { has_native = false })
  run_import (other_error x) s = (err x, s)

  unfoldable load_from : Option E → Import E → Loader E → Result (Option E) × Loader E
  unfolding run_import
  load_from (some e) i s = (ok (some e), s)
  load_from none i s = run_import i s

  unfoldable pub load_extension : Import E → Loader E → Result (Option E) × Loader E
  unfolding load_from
  load_extension i s = load_from s.ext i s

  -- The cache keeps what a call returned, and nothing when it raised.
  unfoldable remember : Result (Option E) × Loader E → Result (Option E) × Loader E
  remember (ok a, s) = (ok a, record s { cached = some a })
  remember (err x, s) = (err x, s)

  unfoldable get_from : Option (Option E) → Import E → Loader E → Result (Option E) × Loader E
  unfolding load_extension remember
  get_from (some a) i s = (ok a, s)
  get_from none i s = remember (load_extension i s)

  unfoldable pub get_ext : Import E → Loader E → Result (Option E) × Loader E
  unfolding get_from
  get_ext i s = get_from s.cached i s

  -- Several calls, each with what an import would do at that time.
  unfoldable pub get_all : List (Import E) → Loader E → List (Result (Option E)) × Loader E
  unfolding get_ext
  get_all [] s = ([], s)
  get_all (i ∷ is) s =
      let first = get_ext i s in let rest = get_all is first.1 in (first.0 ∷ rest.0, rest.1)
