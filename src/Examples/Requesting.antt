-- ===== src/Examples/Requesting.antt =====
-- What the clients in examples/ share: a session counter, and a request whose answer is the next
-- message that the receiver of their transport has.
use Prim.Native.Nat.{bit_and}
use opensomeip_python.Prelude.{
  ℕ, suc, Bool, Option, none, some, List, [], ◌∷◌, ltb, length, if◌then◌else◌,
}
use opensomeip_python.Prelude.Int.{pos}
use opensomeip_python.Exceptions.{ok, err, attribute_error}
use opensomeip_python.Types.Enums.{request, e_ok}
use opensomeip_python.Types.MessageId
use opensomeip_python.Types.RequestId
use opensomeip_python.Message.{Message, make_message}
use opensomeip_python.Receiver.{Receiver, message, sentinel, put}
use opensomeip_python.Transport.{Transport}
use opensomeip_python.Native.Run.{Exec, ◌>>=◌, ◌>>◌, pure, lift, zoom, modify, get}

pub record Client : Type 0 where
  pub session_counter : ℕ
  pub transport : Transport

abbrev pub on_transport : {A : Type 0} → Exec Transport A → Exec Client A
on_transport = zoom (λ c. c.transport) (λ c t. record c { transport = t })

-- `next_session`: the counter itself is not cut off.
unfoldable pub next_session : Exec Client ℕ
next_session = do
  modify (λ c. record c { session_counter = suc c.session_counter })
  c ← get
  pure (bit_and c.session_counter 0xffff)

-- `Message(message_id=…, request_id=RequestId(CLIENT_ID, next_session()), …)`
unfoldable pub new_request : ℕ → ℕ → ℕ → List ℕ → Exec Client Message
unfolding next_session MessageId.new RequestId.new make_message
new_request service method client_id payload = do
  mid ← lift (MessageId.new (pos service) (pos method))
  session ← next_session
  rid ← lift (RequestId.new (pos client_id) (pos session))
  pure (make_message mid rid request e_ok payload)

-- The messages that the listener puts while the program waits.
unfoldable pub arrive : List Message → Receiver → Receiver
unfolding put
arrive [] r = r
arrive (m ∷ ms) r = arrive ms (put m r).1

-- `transport.receiver._sync_queue.get(timeout=timeout)` with these messages arriving in time, and
-- the tests on the message: its payload, or `None`. The sentinel of a closed receiver has no fields.
unfoldable pub wait_for : (Message → Bool) → List Message → Exec Transport (Option (List ℕ))
unfolding arrive
wait_for accepts arriving t l =
    let r = arrive arriving t.receiver in
    elim r.sync_queue [
      | [] ↦ (ok none, record t { receiver = r }, l)
      | message m ∷ rest ↦ (
        ok (if accepts m then some m.payload else none),
        record t { receiver = record r { sync_queue = rest } },
        l,
      )
      | sentinel ∷ rest ↦
          (err attribute_error, record t { receiver = record r { sync_queue = rest } }, l)
    ]

-- `if result and len(result) >= size`, and the decoding.
abbrev pub decoded : {A : Type 0} → ℕ → (List ℕ → A) → Option (List ℕ) → Option A
decoded size decode none = none
decoded size decode (some bytes) = if ltb (length bytes) size then none else some (decode bytes)
