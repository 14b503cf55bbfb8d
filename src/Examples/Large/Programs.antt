-- ===== src/Examples/Large/Programs.antt =====
-- The server and the client of examples/advanced/large_messages. Both send through a `TpManager`,
-- whose loop needs fuel; `none` means that it ran out. What the client prints is returned.
use Prim.Native.Nat.{bit_and}
use opensomeip_python.Prelude.{
  ℕ, suc, Bool, Option, none, some, List, [], ◌∷◌, ◌==◌, bytes_eq, length, if◌then◌else◌,
}
use opensomeip_python.Prelude.Int.{pos}
use opensomeip_python.Prelude.Dict.{lookup}
use opensomeip_python.Exceptions.{Result, ok, err, bind, map_result}
use opensomeip_python.Endpoint.{Endpoint}
use opensomeip_python.Types.Enums.{request, response, e_ok, type_code}
use opensomeip_python.Types.MessageId
use opensomeip_python.Types.RequestId
use opensomeip_python.Message.{Message, make_message}
use opensomeip_python.Serialization.Struct.{pack_unsigned}
use opensomeip_python.Transport
use opensomeip_python.Transport.{Transport, new_udp}
use opensomeip_python.Tp
use opensomeip_python.Tp.{TpManager, TpState, new_manager}
use opensomeip_python.Native.Calls.{Call, Native}
use opensomeip_python.Native.Run.{Exec, ◌>>◌, zoom}
use opensomeip_python.Examples.Serving.{is_wanted, reply_to}
use opensomeip_python.Examples.Requesting.{wait_for}
use opensomeip_python.Examples.Calculator.{any_address}
use opensomeip_python.Examples.Large.{Report, handlers, generate_test_data}

abbrev pub service : ℕ
service = 0x5000

abbrev pub server_endpoint : Endpoint
server_endpoint = record { ip = "127.0.0.1"; port = 30495 }

unfoldable pub new_server : Bool → TpState
unfolding new_udp new_manager
new_server ext = record {
  manager = new_manager ext 1400;
  transport = new_udp ext (any_address 30495) none none;
}

abbrev pub on_transport : {A : Type 0} → Exec Transport A → Exec TpState A
on_transport = zoom (λ s. s.transport) (λ s t. record s { transport = t })

abbrev pub on_manager : {A : Type 0} → Exec TpManager A → Exec TpState A
on_manager = zoom (λ s. s.manager) (λ s m. record s { manager = m })

-- An action with fuel, over the object's state and the calls.
abbrev pub Fuelled : Type 0 → Type 0 → Type 0
Fuelled S A = S → List Call → Option (Result A × S × List Call)

abbrev pub then_fuelled :
    {S A B : Type 0}
    → Option (Result A × S × List Call)
    → (A → Fuelled S B)
    → Option (Result B × S × List Call)
then_fuelled none k = none
then_fuelled (some (ok a, s, l)) k = k a s l
then_fuelled (some (err x, s, l)) k = some (err x, s, l)

module _ (native : Native) (fuel : ℕ) where
  -- The body of the server's loop.
  unfoldable pub answer_with : Message → Option (List ℕ → List ℕ) → Fuelled TpState (Unit {0})
  unfolding Tp.send_message make_message
  answer_with m none s l = some (ok tt, s, l)
  answer_with m (some handler) s l =
      Tp.send_message native fuel (reply_to m (handler m.payload)) m.source_endpoint s l

  unfoldable pub handle : Report → Message → Fuelled TpState (Unit {0})
  unfolding answer_with handlers lookup
  handle report m s l =
      if is_wanted service m
      then answer_with m (lookup m.message_id.method_id (handlers report)) s l
      else some (ok tt, s, l)

  unfoldable pub serve : Report → List Message → Fuelled TpState (Unit {0})
  unfolding handle
  serve report [] s l = some (ok tt, s, l)
  serve report (m ∷ ms) s l = then_fuelled (handle report m s l) (λ u. serve report ms)

  -- `main` of the server, over the requests that its receiver yields.
  unfoldable pub server_main : Report → List Message → Fuelled TpState (Unit {0})
  unfolding serve Transport.start Transport.stop Tp.start Tp.stop
  server_main report requests s l =
      then_fuelled
        (some ((on_transport (Transport.start native) >> on_manager (Tp.start native)) s l))
        λ u s1 l1. then_fuelled (serve report requests s1 l1) λ v s2 l2.
          some ((on_manager (Tp.stop native) >> on_transport (Transport.stop native)) s2 l2)

-- The client with its session counter.
pub record LargeClient : Type 0 where
  pub session_counter : ℕ
  pub tp : TpState

unfoldable pub new_client : Bool → LargeClient
unfolding new_udp new_manager
new_client ext = record {
  session_counter = 0;
  tp = record {
    manager = new_manager ext 1400;
    transport = new_udp ext (any_address 0) (some server_endpoint) none;
  };
}

abbrev pub is_response : Message → Bool
is_response m = type_code m.message_type == type_code response

-- The message of `call_method`, with the number of `next_session`.
unfoldable pub request_of : ℕ → ℕ → List ℕ → Result Message
unfolding MessageId.new RequestId.new make_message
request_of method counter payload = bind (MessageId.new (pos service) (pos method)) λ mid.
    map_result (λ rid. make_message mid rid request e_ok payload)
      (RequestId.new (pos 0xabcd) (pos (bit_and counter 0xffff)))

abbrev pub with_tp :
    {A : Type 0}
    → ℕ
    → Option (Result A × TpState × List Call)
    → Option (Result A × LargeClient × List Call)
with_tp counter none = none
with_tp counter (some (r, t, l)) = some (r, record { session_counter = counter; tp = t }, l)

module _ (native : Native) (fuel : ℕ) where
  unfoldable pub call_method : ℕ → List ℕ → List Message → Fuelled LargeClient (Option (List ℕ))
  unfolding request_of wait_for Tp.send_message
  call_method method payload arriving c l =
      let counter = suc c.session_counter in
      elim (request_of method counter payload) [
        | err x ↦ some (err x, record c { session_counter = counter }, l)
        | ok m ↦ with_tp counter (
            then_fuelled (Tp.send_message native fuel m none c.tp l)
              λ u t l1. some (on_transport (wait_for is_response arriving) t l1))
      ]

  -- `if result:`, and the test on it.
  abbrev pub tested : (List ℕ → Bool) → Option (List ℕ) → Fuelled LargeClient (Option Bool)
  tested test none c l = some (ok none, c, l)
  tested test (some []) c l = some (ok none, c, l)
  tested test (some (b ∷ bytes)) c l = some (ok (some (test (b ∷ bytes))), c, l)

  unfoldable pub test_request_data : ℕ → List Message → Fuelled LargeClient (Option Bool)
  unfolding call_method pack_unsigned
  test_request_data size arriving c l = elim (pack_unsigned 4 (pos size)) [
    | err x ↦ some (err x, c, l)
    | ok payload ↦
        then_fuelled (call_method 1 payload arriving c l) (tested (λ result. length result == size))
  ]

  -- `if result:`
  abbrev pub reported : Option (List ℕ) → Fuelled LargeClient (Option (List ℕ))
  reported none c l = some (ok none, c, l)
  reported (some []) c l = some (ok none, c, l)
  reported (some (b ∷ bytes)) c l = some (ok (some (b ∷ bytes)), c, l)

  -- The text that the server reports, if it reports one.
  unfoldable pub test_send_data : ℕ → List Message → Fuelled LargeClient (Option (List ℕ))
  unfolding call_method generate_test_data
  test_send_data size arriving c l =
      then_fuelled (call_method 2 (generate_test_data size) arriving c l) reported

  unfoldable pub test_echo : ℕ → List Message → Fuelled LargeClient (Option Bool)
  unfolding call_method generate_test_data bytes_eq
  test_echo size arriving c l =
      let sent = generate_test_data size in
      then_fuelled (call_method 3 sent arriving c l) (tested (λ result. bytes_eq result sent))

  abbrev pub on_tp : {A : Type 0} → Exec TpState A → Fuelled LargeClient A
  on_tp m c l = let (r, t, l') = m c.tp l in some (r, record c { tp = t }, l')

  -- `main` of the client; `arriving k` has what arrives during its k-th call.
  unfoldable pub client_main :
      (ℕ → List Message)
      → Fuelled LargeClient
          (Option Bool × Option Bool × Option Bool × Option (List ℕ) × Option Bool)
  unfolding test_request_data test_send_data test_echo Transport.start Transport.stop Tp.start
      Tp.stop
  client_main arriving c l =
      then_fuelled
        (on_tp (on_transport (Transport.start native) >> on_manager (Tp.start native)) c l)
        λ u c0 l0. then_fuelled (test_request_data 2048 (arriving 0) c0 l0) λ r0 c1 l1.
          then_fuelled (test_request_data 10240 (arriving 1) c1 l1) λ r1 c2 l2.
            then_fuelled (test_request_data 51200 (arriving 2) c2 l2) λ r2 c3 l3.
              then_fuelled (test_send_data 10240 (arriving 3) c3 l3) λ r3 c4 l4.
                then_fuelled (test_echo 15360 (arriving 4) c4 l4) λ r4 c5 l5.
                  then_fuelled
                    (on_tp (on_manager (Tp.stop native) >> on_transport (Transport.stop native)) c5
                      l5)
                    λ v c6 l6. some (ok (r0, r1, r2, r3, r4), c6, l6)
