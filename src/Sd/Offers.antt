-- ===== src/Sd/Offers.antt =====
-- What `SdServer` offers after any sequence of its operations.
use opensomeip_python.Prelude.{
  ◌≡◌, refl, ap, sym, ◌∙◌, Bool, true, false, List, [], ◌∷◌, ◌++◌, arith, if◌then◌else◌, Bool-cases,
  inl, inr,
}
use opensomeip_python.Exceptions.{Result, ok, err}
use opensomeip_python.Native.Calls.{Call, Native}
use opensomeip_python.Native.Run.{Exec, next, ◌>>◌, pure}
use opensomeip_python.Sd.{
  ServiceInstance, SdServer, same, contains, add, discard, start, stop, offer, stop_offer,
}

pub data Operation : Type 0 where
  starts stops : Operation
  offers withdraws : ServiceInstance → Operation

-- One call of the application.
unfoldable pub perform : Native → Operation → Exec SdServer (Unit {0})
unfolding start stop offer stop_offer
perform native starts = start native
perform native stops = stop native
perform native (offers x) = offer native x
perform native (withdraws x) = stop_offer native x

unfoldable pub perform_all : Native → List Operation → Exec SdServer (Unit {0})
perform_all native [] = pure tt
perform_all native (o ∷ os) = perform native o >> perform_all native os

-- Whether a service is on offer after the operations, by what each says of it.
unfoldable pub on_offer : ServiceInstance → Bool → List Operation → Bool
on_offer x b [] = b
on_offer x b (starts ∷ os) = on_offer x b os
on_offer x b (stops ∷ os) = on_offer x false os
on_offer x b (offers y ∷ os) = on_offer x (if same x y then true else b) os
on_offer x b (withdraws y ∷ os) = on_offer x (if same x y then false else b) os

same_trans : (x y z : ServiceInstance) → same x y ≡ true → same x z ≡ same y z
unfolding same
same_trans x y z h = ground (arith, h)

same_comm : (x y : ServiceInstance) → same x y ≡ same y x
unfolding same
same_comm x y = ground arith

contains-append :
    (x y : ServiceInstance) (ys : List ServiceInstance)
    → contains x (ys ++ y ∷ []) ≡ (if contains x ys then true else same x y)
unfolding contains
contains-append x y [] = ground arith
contains-append x y (z ∷ zs) = ground (arith, contains-append x y zs)

contains_same :
    (x y : ServiceInstance) (ys : List ServiceInstance)
    → same x y ≡ true
    → contains x ys ≡ contains y ys
unfolding contains
contains_same x y [] h = refl
contains_same x y (z ∷ zs) h = ground (arith, contains_same x y zs h, same_trans x y z h)

pub contains-add :
    (x y : ServiceInstance) (ys : List ServiceInstance)
    → contains x (add y ys) ≡ (if same x y then true else contains x ys)
unfolding add
contains-add x y ys = elim (Bool-cases (same x y)) [
  | inl e ↦ ground (arith, e, contains_same x y ys, contains-append x y ys)
  | inr e ↦ ground (arith, e, contains-append x y ys)
]

contains-discard :
    (x y : ServiceInstance) (ys : List ServiceInstance)
    → contains x (discard y ys) ≡ (if same x y then false else contains x ys)
unfolding contains discard
contains-discard x y [] = ground arith
contains-discard x y (z ∷ zs) = elim (Bool-cases (same x y)) [
  | inl e ↦ ground (arith, e, contains-discard x y zs, same_trans x y z e)
  | inr e ↦ elim (Bool-cases (same y z)) [
    | inl f ↦
        ground
          (arith, e, f, contains-discard x y zs, same_trans y z x f, same_comm x y, same_comm x z)
    | inr f ↦ ground (arith, e, f, contains-discard x y zs)
  ]
]

perform_lem :
    (native : Native) (o : Operation) (x : ServiceInstance) (s : SdServer) (l : List Call)
    → ((perform native o s l).0 ≡ ok tt)
      × (contains x (perform native o s l).1.offered ≡ on_offer x (contains x s.offered) (o ∷ []))
unfolding perform on_offer start stop offer stop_offer contains
perform_lem native starts x s l = (ground arith, ground arith)
perform_lem native stops x s l = (ground arith, ground arith)
perform_lem native (offers y) x s l = (ground arith, ground (arith, contains-add x y s.offered))
perform_lem native (withdraws y) x s l =
    (ground arith, ground (arith, contains-discard x y s.offered))

on_offer_step :
    (x : ServiceInstance) (b : Bool) (o : Operation) (os : List Operation)
    → on_offer x b (o ∷ os) ≡ on_offer x (on_offer x b (o ∷ [])) os
unfolding on_offer
on_offer_step x b starts os = refl
on_offer_step x b stops os = refl
on_offer_step x b (offers y) os = refl
on_offer_step x b (withdraws y) os = refl

next_ok :
    {S A B : Type 0} (t : Result A × S × List Call) (f : A → Exec S B) (a : A)
    → t.0 ≡ ok a
    → next t f ≡ f a t.1 t.2
next_ok (ok b, s, l) f a h = ground (arith, h)
next_ok (err e, s, l) f a h = absurd (ground (arith, h))

-- No sequence of `start`, `stop`, `offer` and `stop_offer` raises, whatever the extension does, and
-- after it the server offers a service exactly if the operations say so: it was offered since it
-- was last withdrawn and since the last `stop`.
pub perform_all-offered :
    (native : Native) (os : List Operation) (x : ServiceInstance) (s : SdServer) (l : List Call)
    → ((perform_all native os s l).0 ≡ ok tt)
      × (contains x (perform_all native os s l).1.offered ≡ on_offer x (contains x s.offered) os)
unfolding perform_all on_offer
perform_all-offered native [] x s l = (refl, refl)
perform_all-offered native (o ∷ os) x s l =
    let t : Result (Unit {0}) × SdServer × List Call = perform native o s l in
    let (returns, now) = perform_lem native o x s l in
    let (ih, later) = perform_all-offered native os x t.1 t.2 in
    let step = next_ok t (λ _. perform_all native os) tt returns in
    (
      ap (λ (u : Result (Unit {0}) × SdServer × List Call). u.0) step ∙ ih,
      ap (λ (u : Result (Unit {0}) × SdServer × List Call). contains x u.1.offered) step
          ∙ later
          ∙ ap (λ b. on_offer x b os) now
          ∙ sym (on_offer_step x (contains x s.offered) o os),
    )
