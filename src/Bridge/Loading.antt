-- ===== src/Bridge/Loading.antt =====
-- What the package may rely on when it asks for the extension, however often and whenever it does.
use opensomeip_python.Prelude.{
  ◌≤◌, true, false, Option, none, some, is_some, List, [], ◌∷◌, ◌≡◌, ◌⊎◌, inl, inr, refl, ap, sym,
  arith,
}
use opensomeip_python.Exceptions.{Result, ok}
use opensomeip_python.Bridge.Extension.{
  Import, imported, import_error, other_error, Loader, fresh, run_import, load_extension, get_ext,
  get_all,
}

-- `HAS_NATIVE` says whether `_ext` is set. Before there is an answer in the cache `_ext` is not set
-- and nobody was warned; afterwards `_ext` is the answer, and there was at most one warning.
pub record IsConsistent {E : Type 0} (s : Loader E) : Type 0 where
  pub flag : s.has_native ≡ is_some s.ext
  pub answer :
      ((s.cached ≡ none) × (s.ext ≡ none) × (s.warnings ≡ 0))
      ⊎ ((s.cached ≡ some s.ext) × (s.warnings ≤ 1))

module _ (E : Type 0) where
  pub fresh-IsConsistent : IsConsistent (fresh E)
  unfolding fresh
  fresh-IsConsistent = record { flag = refl; answer = inl (refl, refl, refl) }

  -- The first import, from a state without an answer.
  import-IsConsistent :
      (i : Import E) (s : Loader E)
      → s.has_native ≡ is_some s.ext
      → s.cached ≡ none
      → s.ext ≡ none
      → s.warnings ≡ 0
      → IsConsistent (get_ext E i s).1
  unfolding get_ext load_extension run_import
  import-IsConsistent (imported e) s f hc he hw = record {
    flag = ground arith;
    answer = ground arith;
  }
  import-IsConsistent (import_error true) s f hc he hw = record {
    flag = ground arith;
    answer = ground arith;
  }
  import-IsConsistent (import_error false) s f hc he hw = record {
    flag = ground arith;
    answer = ground arith;
  }
  import-IsConsistent (other_error x) s f hc he hw = record {
    flag = ground arith;
    answer = ground arith;
  }

  cached-get_ext :
      (i : Import E) (s : Loader E) (a : Option E) → s.cached ≡ some a → get_ext E i s ≡ (ok a, s)
  unfolding get_ext
  cached-get_ext i s a h = rw h refl

  pub get_ext-IsConsistent :
      (i : Import E) (s : Loader E) → IsConsistent s → IsConsistent (get_ext E i s).1
  get_ext-IsConsistent i s c = elim c.answer as (λ _. IsConsistent (get_ext E i s).1) [
    | inl h ↦ import-IsConsistent i s c.flag h.0 h.1 h.2
    | inr h ↦ rw (cached-get_ext i s s.ext h.0) c
  ]

  answered-cached :
      (i : Import E) (s t : Loader E) (a : Option E) → get_ext E i s ≡ (ok a, t) → t.cached ≡ some a
  unfolding get_ext load_extension run_import
  answered-cached i s t a h = ground arith

  -- `HAS_NATIVE` agrees with every answer.
  pub get_ext-flag :
      (i : Import E) (s t : Loader E) (a : Option E)
      → IsConsistent s
      → get_ext E i s ≡ (ok a, t)
      → t.has_native ≡ is_some a
  get_ext-flag i s t a c h =
      let after : IsConsistent t =
        rw (sym (ap (λ (r : Result (Option E) × Loader E). r.1) h)) (get_ext-IsConsistent i s c) in
      let f = after.flag in
      let ans = after.answer in let ca = answered-cached i s t a h in ground arith

  get_all-warned :
      (is : List (Import E)) (s : Loader E) → IsConsistent s → (get_all E is s).1.warnings ≤ 1
  unfolding get_all
  get_all-warned [] s c = ground (arith, c.answer)
  get_all-warned (i ∷ is) s c = get_all-warned is (get_ext E i s).1 (get_ext-IsConsistent i s c)

  -- However often the extension is asked for, at most one warning is given.
  pub get_all-warnings : (is : List (Import E)) → (get_all E is (fresh E)).1.warnings ≤ 1
  get_all-warnings is = get_all-warned is (fresh E) fresh-IsConsistent
