-- ===== src/Native/Run.antt =====
-- Methods as actions: an object's state and the calls made so far, both kept when a method raises.
use opensomeip_python.Prelude.{Bool, List, [], ◌∷◌, ◌++◌, if◌then◌else◌}
use opensomeip_python.Exceptions.{Exn, Result, ok, err}
use opensomeip_python.Native.Calls.{Call, Reply, Native}

abbrev pub Exec : Type 0 → Type 0 → Type 0
Exec S A = S → List Call → Result A × S × List Call

abbrev pub next :
    {S A B : Type 0} → Result A × S × List Call → (A → Exec S B) → Result B × S × List Call
next (ok a, s, l) f = f a s l
next (err e, s, l) f = (err e, s, l)

infixl 5 ◌>>=◌ ◌>>◌
abbrev pub ◌>>=◌ : {S A B : Type 0} → Exec S A → (A → Exec S B) → Exec S B
◌>>=◌ m f s l = next (m s l) f

abbrev pub ◌>>◌ : {S B : Type 0} → Exec S (Unit {0}) → Exec S B → Exec S B
◌>>◌ m k s l = next (m s l) (λ _. k)

abbrev pub pure : {S A : Type 0} → A → Exec S A
pure a s l = (ok a, s, l)

abbrev pub raise : {S A : Type 0} → Exn → Exec S A
raise e s l = (err e, s, l)

abbrev pub lift : {S A : Type 0} → Result A → Exec S A
lift r s l = (r, s, l)

abbrev pub get : {S : Type 0} → Exec S S
get s l = (ok s, s, l)

abbrev pub modify : {S : Type 0} → (S → S) → Exec S (Unit {0})
modify f s l = (ok tt, f s, l)

-- A method of a pure Python object, which calls nothing.
abbrev pub local : {S A : Type 0} → (S → Result A × S) → Exec S A
local f s l = let (r, s') = f s in (r, s', l)

-- A method of an object that another object holds.
abbrev pub zoom : {S T A : Type 0} → (T → S) → (T → S → T) → Exec S A → Exec T A
zoom part replace m t l = let (r, s', l') = m (part t) l in (r, replace t s', l')

-- `try: m` with `except Exception: pass`.
abbrev pub attempt : {S A : Type 0} → Exec S A → Exec S (Unit {0})
attempt m s l = let (r, s', l') = m s l in (ok tt, s', l')

-- `if self._cpp is not None: m`
abbrev pub when : {S : Type 0} → Bool → Exec S (Unit {0}) → Exec S (Unit {0})
when b m s l = if b then m s l else (ok tt, s, l)

-- A call on the extension.
abbrev pub invoke : Native → {S : Type 0} (c : Call) → Exec S (Reply c)
invoke native c s l = (native l c, s, l ++ c ∷ [])

-- `with x: body` for an object whose `__exit__` returns `None`: an exception of the body goes on,
-- unless `__exit__` raises one itself.
abbrev pub within : {S A : Type 0} → Exec S (Unit {0}) → Exec S (Unit {0}) → Exec S A → Exec S A
within enter exit body s l =
    next (enter s l)
      λ _ s1 l1. (let (r, s2, l2) = body s1 l1 in next (exit s2 l2) λ _ s3 l3. (r, s3, l3))
