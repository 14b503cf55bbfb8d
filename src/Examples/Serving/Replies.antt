-- ===== src/Examples/Serving/Replies.antt =====
-- What a server program sends: one reply for each request that it has a handler for, and no more.
use opensomeip_python.Prelude.{
  ℕ, ◌≡◌, refl, sym, ap, ◌∙◌, ◌⊎◌, inl, inr, true, false, ◌&&◌, Bool-cases, Option-cases, Option,
  none, some, or_else, List, [], ◌∷◌, ◌++◌, append-nil, append_assoc, arith, if◌then◌else◌,
}
use opensomeip_python.Prelude.Dict.{Dict, lookup}
use opensomeip_python.Exceptions.{Exn, Result, ok, err, Result-cases, library, transport_error}
use opensomeip_python.Endpoint.{Endpoint}
use opensomeip_python.Message.{Message, make_message}
use opensomeip_python.Bridge.{to_cpp_message}
use opensomeip_python.Transport.{Transport, send}
use opensomeip_python.Native.Calls.{Call, Native, send_message}
use opensomeip_python.Examples.Serving.{
  Program, Handler, is_wanted, reply_to, run_handler, handle, serve,
}

-- The handler of a request to the service, if it has one.
abbrev pub handler_of : {G : Type 0} → ℕ → Dict (Handler G) → Message → Option (Handler G)
handler_of service handlers m =
    if is_wanted service m then lookup m.message_id.method_id handlers else none

-- The call that sends this reply.
abbrev pub sending : Message → List ℕ → Endpoint → Call
sending m bytes target = send_message (to_cpp_message (reply_to m bytes)) target

-- A transport that sends a reply to this message to the target: the message's sender, or else the
-- remote endpoint.
abbrev pub Sendable : Message → Transport → Endpoint → Type 0
Sendable m t target =
    (t.running && t.cpp ≡ true) × (or_else m.source_endpoint t.remote_endpoint ≡ some target)

abbrev pub Unsendable : Message → Transport → Type 0
Unsendable m t = (t.running && t.cpp ≡ false) ⊎ (or_else m.source_endpoint t.remote_endpoint ≡ none)

-- The outcome of a loop over these messages and its calls, from these globals and the calls before.
-- A message without a handler has no effect. For any other the handler makes the bytes of the reply
-- from the payload and the globals, and one call sends them. The loop ends early with an exception of
-- the handler; with `TransportError`, if the transport is stopped, has no extension or no target; or
-- with what the extension raised on the call.
pub data Answers {G : Type 0} (native : Native) (service : ℕ) (handlers : Dict (Handler G))
    (t : Transport) : G → List Call → Result (Unit {0}) → List Message → List Call → Type 0 where
  finished : (g : G) (l : List Call) → Answers native service handlers t g l (ok tt) [] []
  ignored :
      (g : G) (l : List Call) (r : Result (Unit {0})) (m : Message) (ms : List Message)
      (calls : List Call)
      → handler_of service handlers m ≡ none
      → Answers native service handlers t g l r ms calls
      → Answers native service handlers t g l r (m ∷ ms) calls
  answered :
      (g g' : G) (l : List Call) (r : Result (Unit {0})) (m : Message) (ms : List Message)
      (calls : List Call) (handler : Handler G) (bytes : List ℕ) (target : Endpoint)
      → handler_of service handlers m ≡ some handler
      → handler m.payload g ≡ (ok bytes, g')
      → Sendable m t target
      → native l (sending m bytes target) ≡ ok tt
      → Answers native service handlers t g' (l ++ sending m bytes target ∷ []) r ms calls
      → Answers native service handlers t g l r (m ∷ ms) (sending m bytes target ∷ calls)
  handler_raised :
      (g : G) (l : List Call) (m : Message) (ms : List Message) (handler : Handler G) (x : Exn)
      → handler_of service handlers m ≡ some handler
      → (handler m.payload g).0 ≡ err x
      → Answers native service handlers t g l (err x) (m ∷ ms) []
  not_sent :
      (g g' : G) (l : List Call) (m : Message) (ms : List Message) (handler : Handler G)
      (bytes : List ℕ)
      → handler_of service handlers m ≡ some handler
      → handler m.payload g ≡ (ok bytes, g')
      → Unsendable m t
      → Answers native service handlers t g l (err (library transport_error)) (m ∷ ms) []
  refused :
      (g g' : G) (l : List Call) (m : Message) (ms : List Message) (handler : Handler G)
      (bytes : List ℕ) (target : Endpoint) (x : Exn)
      → handler_of service handlers m ≡ some handler
      → handler m.payload g ≡ (ok bytes, g')
      → Sendable m t target
      → native l (sending m bytes target) ≡ err x
      → Answers native service handlers t g l (err x) (m ∷ ms) (sending m bytes target ∷ [])

-- `send` raises before the call, or makes the one call.
send-cases :
    (native : Native) (m : Message) (bytes : List ℕ) (t : Transport) (l : List Call)
    → let sends = send native (reply_to m bytes) m.source_endpoint t l in
      (Unsendable m t × (sends ≡ (err (library transport_error), t, l)))
      ⊎ ((target : Endpoint) × Sendable m t target
          × (let call = sending m bytes target in sends ≡ (native l call, t, l ++ call ∷ [])))
unfolding send make_message
send-cases native m bytes t l = elim (Bool-cases (t.running && t.cpp)) [
  | inr off ↦ inl (inl off, ground (arith, off))
  | inl on ↦ elim (Option-cases (or_else m.source_endpoint t.remote_endpoint)) [
    | inl nowhere ↦ inl (inr nowhere, ground (arith, on, nowhere))
    | inr (target, e) ↦ inr (target, (on, e), ground (arith, on, e))
  ]
]

module _ {G : Type 0} (native : Native) (service : ℕ) (handlers : Dict (Handler G)) where
  -- What a round of the loop may do.
  data Round (m : Message) (p : Program G) (l : List Call)
      (t : Result (Unit {0}) × Program G × List Call) : Type 0 where
    nothing : handler_of service handlers m ≡ none → t ≡ (ok tt, p, l) → Round m p l t
    fails :
        (handler : Handler G) (x : Exn)
        → handler_of service handlers m ≡ some handler
        → (handler m.payload p.globals).0 ≡ err x
        → t.0 ≡ err x
        → t.2 ≡ l
        → Round m p l t
    stays :
        (handler : Handler G) (bytes : List ℕ) (g' : G)
        → handler_of service handlers m ≡ some handler
        → handler m.payload p.globals ≡ (ok bytes, g')
        → Unsendable m p.transport
        → t.0 ≡ err (library transport_error)
        → t.2 ≡ l
        → Round m p l t
    sends :
        (handler : Handler G) (bytes : List ℕ) (g' : G) (target : Endpoint)
        → handler_of service handlers m ≡ some handler
        → handler m.payload p.globals ≡ (ok bytes, g')
        → Sendable m p.transport target
        → t ≡ (
          native l (sending m bytes target),
          record p { globals = g' },
          l ++ sending m bytes target ∷ [],
        )
        → Round m p l t

  handle-run_handler :
      (m : Message) (p : Program G) (l : List Call)
      → handle native service handlers m p l
        ≡ run_handler native m (handler_of service handlers m) p l
  unfolding handle run_handler
  handle-run_handler m p l = elim (Bool-cases (is_wanted service m)) [
    | inl wanted ↦ ground (arith, wanted)
    | inr other ↦ ground (arith, other)
  ]

  handle-Round :
      (m : Message) (p : Program G) (l : List Call)
      → Round m p l (handle native service handlers m p l)
  unfolding run_handler
  handle-Round m p l =
      let same = handle-run_handler m p l in
      elim (Option-cases (handler_of service handlers m)) [
        | inl missing ↦ nothing missing (rw same (rw missing refl))
        | inr (handler, has) ↦
            let out = handler m.payload p.globals in
            elim (Result-cases out.0) [
              | inr (x, e) ↦
                  fails handler x has e (ground (arith, same, has, e))
                    (ground (arith, same, has, e))
              | inl (bytes, e) ↦
                  let made : out ≡ (ok bytes, out.1) = ap (λ (r : Result (List ℕ)). (r, out.1)) e in
                  elim (send-cases native m bytes p.transport l) [
                    | inl (cannot, raises) ↦
                        stays handler bytes out.1 has made cannot
                          (ground (arith, same, has, e, raises))
                          (ground (arith, same, has, e, raises))
                    | inr (target, can, goes) ↦
                        sends handler bytes out.1 target has made can
                          (ground (arith, same, has, e, goes))
                  ]
            ]
      ]

  serve-goes_on :
      (m : Message) (ms : List Message) (p : Program G) (l : List Call)
      → let t = handle native service handlers m p l in
        t.0 ≡ ok tt
        → serve native service handlers (m ∷ ms) p l ≡ serve native service handlers ms t.1 t.2
  unfolding serve
  serve-goes_on m ms p l h = ground (arith, h)

  serve-ends :
      (m : Message) (ms : List Message) (p : Program G) (l : List Call) (x : Exn)
      → let t = handle native service handlers m p l in
        t.0 ≡ err x → serve native service handlers (m ∷ ms) p l ≡ (err x, t.1, t.2)
  unfolding serve
  serve-ends m ms p l x h = ground (arith, h)

  abbrev outcome : Result (Unit {0}) × Program G × List Call → Result (Unit {0})
  outcome t = t.0

  -- What the loop does, from a program and the calls before.
  abbrev pub Served : List Message → Program G → List Call → Type 0
  Served ms p l =
      let t = serve native service handlers ms p l in
      (calls : List Call) × (t.2 ≡ l ++ calls)
      × Answers native service handlers p.transport p.globals l t.0 ms calls

  -- The loop sends, for the messages in order, one reply for each request that has a handler, and
  -- nothing for any other message. A reply is a RESPONSE with E_OK and the identifiers of its request,
  -- whose bytes the handler made from the payload and from the globals as the handlers before it left
  -- them; it goes to the sender, or else to the remote endpoint. The loop ends before the last message
  -- only with the exception of a handler, after which nothing is sent; with `TransportError`, where
  -- the transport is stopped, has no extension or has no target, and then without a call; or with
  -- what the extension raised on the call of a reply, which is then the last.
  pub serve-Answers : (ms : List Message) (p : Program G) (l : List Call) → Served ms p l
  unfolding serve
  serve-Answers [] p l = ([], sym (append-nil l), finished p.globals l)
  serve-Answers (m ∷ ms) p l = elim (handle-Round m p l) [
    | nothing has same ↦
        let (calls, added, rest) = serve-Answers ms p l in
        rw (serve-goes_on m ms p l (ap outcome same))
          (rw same (calls, added, ignored p.globals l _ m ms calls has rest))
    | fails h x has e raises quiet ↦
        rw (serve-ends m ms p l x raises)
          ([], quiet ∙ sym (append-nil l), handler_raised p.globals l m ms h x has e)
    | stays h bytes g' has made cannot raises quiet ↦
        rw (serve-ends m ms p l (library transport_error) raises)
          ([], quiet ∙ sym (append-nil l), not_sent p.globals g' l m ms h bytes has made cannot)
    | sends h bytes g' target has made can same ↦
        let call = sending m bytes target in
        let p' : Program G = record p { globals = g' } in
        elim (Result-cases (native l call)) [
          | inr (x, e) ↦ rw (serve-ends m ms p l x (ap outcome same ∙ e)) (
            call ∷ [],
            ap (λ (u : Result (Unit {0}) × Program G × List Call). u.2) same,
            refused p.globals g' l m ms h bytes target x has made can e,
          )
          | inl (u, e) ↦
              let (calls, added, rest) = serve-Answers ms p' (l ++ call ∷ []) in
              rw (serve-goes_on m ms p l (ap outcome same ∙ e)) (
                rw same (
                  call ∷ calls,
                  added ∙ append_assoc l (call ∷ []) calls,
                  answered p.globals g' l _ m ms calls h bytes target has made can e rest,
                ))
        ]
  ]
