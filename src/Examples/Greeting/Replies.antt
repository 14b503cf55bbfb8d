-- ===== src/Examples/Greeting/Replies.antt =====
-- The servers of hello_world and sd_demo answer as a server with one handler does.
use opensomeip_python.Prelude.{ℕ, ◌≡◌, refl, ap, ◌∙◌, List, [], ◌∷◌, ◌++◌, arith}
use opensomeip_python.Prelude.Dict.{Dict, lookup}
use opensomeip_python.Exceptions.{Result, ok, err}
use opensomeip_python.Message.{Message, make_message}
use opensomeip_python.Transport.{Transport}
use opensomeip_python.Native.Calls.{Call, Native}
use opensomeip_python.Native.Run.{next}
use opensomeip_python.Examples.Serving.{Program, Handler, run_handler, handle, serve}
use opensomeip_python.Examples.Serving.Replies.{Answers, serve-Answers}
use opensomeip_python.Examples.Greeting.{greet, greet_all}

-- `greeting` as the handler of the one method.
abbrev pub only_hello : (List ℕ → List ℕ) → Dict (Handler (Unit {0}))
only_hello greeting = (1, λ payload g. (ok (greeting payload), g)) ∷ []

abbrev pub program : Transport → Program (Unit {0})
program t = record { globals = tt; transport = t }

-- The outcome of a loop, on the transport alone.
abbrev pub on_transport_alone :
    Result (Unit {0}) × Program (Unit {0}) × List Call → Result (Unit {0}) × Transport × List Call
on_transport_alone (r, p, l) = (r, p.transport, l)

greet-handle :
    (native : Native) (greeting : List ℕ → List ℕ) (m : Message) (t : Transport) (l : List Call)
    → greet native greeting m t l
      ≡ on_transport_alone (handle native 0x1000 (only_hello greeting) m (program t) l)
unfolding greet handle run_handler lookup make_message
greet-handle native greeting m t l = ground arith

greet_all-serve :
    (native : Native) (greeting : List ℕ → List ℕ) (ms : List Message) (t : Transport)
    (l : List Call)
    → greet_all native greeting ms t l
      ≡ on_transport_alone (serve native 0x1000 (only_hello greeting) ms (program t) l)
unfolding greet_all serve
greet_all-serve native greeting [] t l = refl
greet_all-serve native greeting (m ∷ ms) t l =
    let u = handle native 0x1000 (only_hello greeting) m (program t) l in
    ap (λ v. next v (λ _. greet_all native greeting ms)) (greet-handle native greeting m t l)
    ∙ go u (greet_all-serve native greeting ms)
  where
    go :
        (u : Result (Unit {0}) × Program (Unit {0}) × List Call)
        → ((t' : Transport) (l' : List Call)
            → greet_all native greeting ms t' l'
              ≡ on_transport_alone (serve native 0x1000 (only_hello greeting) ms (program t') l'))
        → next (on_transport_alone u) (λ _. greet_all native greeting ms)
          ≡ on_transport_alone (next u (λ _. serve native 0x1000 (only_hello greeting) ms))
    go (ok v, p, l') rest = rest p.transport l'
    go (err x, p, l') rest = refl

-- The servers of hello_world and sd_demo send one reply for each request to say hello, in order
-- and to its sender, and nothing else, up to the first exception.
pub greet_all-Answers :
    (native : Native) (greeting : List ℕ → List ℕ) (ms : List Message) (t : Transport)
    (l : List Call)
    → let r = greet_all native greeting ms t l in
      (calls : List Call) × (r.2 ≡ l ++ calls)
      × Answers native 0x1000 (only_hello greeting) t tt l r.0 ms calls
greet_all-Answers native greeting ms t l =
    rw (greet_all-serve native greeting ms t l)
      (serve-Answers native 0x1000 (only_hello greeting) ms (program t) l)
