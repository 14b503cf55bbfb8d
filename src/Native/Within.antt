-- ===== src/Native/Within.antt =====
-- What a `with` block leaves behind.
use opensomeip_python.Prelude.{◌≡◌, ◌⊎◌, inl, inr, arith, List}
use opensomeip_python.Exceptions.{Exn, Result, ok, err, Result-cases}
use opensomeip_python.Native.Calls.{Call}
use opensomeip_python.Native.Run.{Exec, within}

module _ {S A : Type 0} (enter exit : Exec S (Unit {0})) (body : Exec S A) (s : S)
    (l : List Call) where
  -- The state after the body, and the calls.
  abbrev pub after_body : Result A × S × List Call
  after_body = let t = enter s l in body t.1 t.2

  abbrev pub after_exit : Result (Unit {0}) × S × List Call
  after_exit = exit after_body.1 after_body.2

  -- Where `__enter__` returned, the object is as `__exit__` leaves it, and the outcome is that of
  -- the body, an exception included, unless `__exit__` raised.
  pub within_entered :
      (enter s l).0 ≡ ok tt
      → ((within enter exit body s l).1 ≡ after_exit.1)
        × (((after_exit.0 ≡ ok tt) × ((within enter exit body s l).0 ≡ after_body.0))
            ⊎ ((x : Exn) × (after_exit.0 ≡ err x) × ((within enter exit body s l).0 ≡ err x)))
  within_entered h = elim (Result-cases after_exit.0) [
    | inl (u, e) ↦ (ground (arith, h, e), inl (e, ground (arith, h, e)))
    | inr (x, e) ↦ (ground (arith, h, e), inr (x, e, ground (arith, h, e)))
  ]
