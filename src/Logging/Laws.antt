-- ===== src/Logging/Laws.antt =====
-- The order of the levels, and the logger after several configurations.
use opensomeip_python.Prelude.{
  ℕ, ◌≤◌, ◌<◌, ◌≡◌, refl, ap, ◌∙◌, Option, none, some, List, [], ◌∷◌, arith,
}
use opensomeip_python.Prelude.Dict.{lookup}
use opensomeip_python.Prelude.Int.{ℤ, pos}
use opensomeip_python.Exceptions.{Result, ok, err}
use opensomeip_python.Logging.{
  debug, level_value, python_level, Handler, console, Logger, add_console, configure_logging,
  configure_all,
}

-- Of two levels of the extension, 0 to 5, the more severe one is not less severe in Python.
pub python_level-monotone :
    (a b : ℕ)
    → a ≤ b
    → b ≤ 5
    → level_value (python_level (pos a)) ≤ level_value (python_level (pos b))
unfolding python_level lookup level_value
python_level-monotone a b h top = ground arith

-- A level that the table lacks is logged as DEBUG.
pub unknown_level : (a : ℕ) → 5 < a → python_level (pos a) ≡ debug
unfolding python_level lookup
unknown_level a h = ground arith

configure_logging-handlers :
    (ext : Option (Result (Unit {0}))) (level : ℤ) (s : Logger)
    → (configure_logging ext level s).1.handlers ≡ add_console s.handlers
unfolding configure_logging
configure_logging-handlers none level s = refl
configure_logging-handlers (some (ok u)) level s = refl
configure_logging-handlers (some (err x)) level s = refl

-- Once a logger has a handler, configuring it again, however often and whatever the extension does,
-- leaves the handlers as they are: no message is printed twice.
pub configure_all-handlers :
    (cs : List (Option (Result (Unit {0})) × ℤ)) (s : Logger) (h : Handler) (hs : List Handler)
    → s.handlers ≡ h ∷ hs
    → (configure_all cs s).1.handlers ≡ h ∷ hs
unfolding configure_all
configure_all-handlers [] s h hs e = e
configure_all-handlers (c ∷ cs) s h hs e =
    configure_all-handlers cs (configure_logging c.0 c.1 s).1 h hs
      (configure_logging-handlers c.0 c.1 s ∙ ap add_console e)

-- The first configuration of a logger without handlers adds the console, and no later one adds
-- another.
pub configure_all-console :
    (c : Option (Result (Unit {0})) × ℤ) (cs : List (Option (Result (Unit {0})) × ℤ)) (s : Logger)
    → s.handlers ≡ []
    → (configure_all (c ∷ cs) s).1.handlers ≡ console ∷ []
unfolding configure_all
configure_all-console c cs s e =
    configure_all-handlers cs (configure_logging c.0 c.1 s).1 console []
      (configure_logging-handlers c.0 c.1 s ∙ ap add_console e)
