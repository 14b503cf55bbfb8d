-- ===== src/Client/Overlapping.antt =====
-- `SomeIpClient.call_async`: what it returns, and two protected calls that overlap.
use opensomeip_python.Prelude.{
  ℕ, ◌+◌, ◌%◌, ◌<◌, ◌≡◌, ◌≢◌, ◌↔◌, sym, ap, ◌∙◌, Bool, Option, some, List, [], ◌∷◌, arith, inl, inr,
}
use opensomeip_python.Prelude.Dict.{lookup}
use opensomeip_python.Exceptions.{ok, Result-cases}
use opensomeip_python.Types.MessageId.{MessageId}
use opensomeip_python.Message.{Message}
use opensomeip_python.Native.Calls.{Call, Native}
use opensomeip_python.E2e.Crc.Detection.{IsBytes}
use opensomeip_python.E2e.Protection.{status_ok, E2eProfile, E2eProtection, protect, check}
use opensomeip_python.E2e.Protection.Laws.{ChecksCounter, returned, protect-counter}
use opensomeip_python.Rpc
use opensomeip_python.Rpc.{RpcClient, Awaited, still_waiting, returns, raises}
use opensomeip_python.Rpc.Correlation.{World, Reach, new_world}
use opensomeip_python.Rpc.Correlation.Answers.{end_call-own_answer}
use opensomeip_python.Server.{protect_if}
use opensomeip_python.Client.{SomeIpClient, begin_call, end_call, check_if, checked_wait}
use opensomeip_python.Client.Checked.{check_if-same}

checked_wait-returns :
    (o : Awaited) (e : Option E2eProtection) (m : Message)
    → checked_wait o e ≡ returns m
    → (o ≡ returns m) × (check_if m e ≡ ok m)
checked_wait-returns still_waiting e m h = absurd (ground (arith, h))
checked_wait-returns (raises x) e m h = absurd (ground (arith, h))
checked_wait-returns (returns n) e m h = elim (Result-cases (check_if n e)) [
  | inr (x, c) ↦ absurd (ground (arith, h, c))
  | inl (n', c) ↦
      let accepted : check_if n e ≡ ok m = ground (arith, h, c) in
      let same = check_if-same n m e accepted in
      (ap returns same, ap (λ i. check_if i e) (sym same) ∙ accepted)
]

end_call-returns :
    (time_is_up : Bool) (session k : ℕ) (s : SomeIpClient) (m : Message)
    → (end_call time_is_up session k s).0 ≡ returns m
    → ((Rpc.end_call time_is_up session k s.rpc_client).0 ≡ returns m) × (check_if m s.e2e ≡ ok m)
unfolding end_call
end_call-returns time_is_up session k s m h =
    checked_wait-returns (Rpc.end_call time_is_up session k s.rpc_client).0 s.e2e m h

-- A message that `call_async` returns, among any number of calls that overlap, is the answer to the
-- request of this very call, with its method and its session, and passes the check under the
-- protection of the moment at which the wait ends.
pub end_call-checked :
    (native : Native) (ext : Bool) (client_id : ℕ) (w : World) (s : SomeIpClient)
    (time_is_up : Bool) (session k : ℕ) (m : Message)
    → Reach native (new_world ext client_id) w
    → s.rpc_client ≡ w.client
    → (end_call time_is_up session k s).0 ≡ returns m
    → (lookup k w.requests ≡ some (m.message_id, m.request_id.session_id))
      × (check_if m s.e2e ≡ ok m)
end_call-checked native ext client_id w s time_is_up session k m path same h =
    let (answered, checked) = end_call-returns time_is_up session k s m h in
    (
      end_call-own_answer native ext client_id w time_is_up session k m path
          (ap (λ c. (Rpc.end_call time_is_up session k c).0) (sym same) ∙ answered),
      checked,
    )

-- A request that was sent moved the counter on by one.
begin_call-counter :
    (native : Native) (method_id : MessageId) (payload : List ℕ) (s : SomeIpClient) (l : List Call)
    (profile : E2eProfile) (p : E2eProtection) (a : ℕ × ℕ)
    → s.e2e ≡ some p
    → p.profile ≡ some profile
    → p.counter < 256
    → (begin_call native method_id payload s l).0 ≡ ok a
    → (q : E2eProtection) × ((begin_call native method_id payload s l).1.e2e ≡ some q)
      × (q.profile ≡ some profile)
      × (q.counter ≡ (p.counter + 1) % 256)
unfolding begin_call protect_if
begin_call-counter native method_id payload s l profile p a on has small h =
    let (kept, counted) = protect-counter profile payload p has small in
    elim (Result-cases (protect payload p).0) [
      | inr (x, e) ↦ absurd (ground (arith, on, e, h))
      | inl (bytes, e) ↦ (
        (protect payload p).1,
        ground (arith, on, e),
        kept,
        counted ∙ ap (λ r. (p.counter + returned (r ∷ [])) % 256) e,
      )
    ]

check_if_iff :
    (m : Message) (q : E2eProtection)
    → (check_if m (some q) ≡ ok m) ↔ (check m.payload q ≡ ok status_ok)
unfolding check_if
check_if_iff m q = ground arith

check-profile :
    (profile : E2eProfile) (q : E2eProtection) (bytes : List ℕ)
    → q.profile ≡ some profile
    → check bytes q ≡ profile.check_bytes bytes q.counter
unfolding check
check-profile profile q bytes has = ground (arith, has)

-- Under a profile that compares the low bytes of the counters, an answer is accepted under one low
-- byte only.
one_counter :
    (profile : E2eProfile) (m : Message) (payload : List ℕ) (sent : ℕ) (q : E2eProtection)
    → ChecksCounter profile
    → IsBytes payload
    → profile.protect_bytes payload sent ≡ ok m.payload
    → q.profile ≡ some profile
    → check_if m (some q) ≡ ok m
    → sent % 256 ≡ q.counter % 256
one_counter profile m payload sent q exact bytes made has h =
    (exact payload m.payload sent q.counter bytes made).0
      (sym (check-profile profile q m.payload has) ∙ (check_if_iff m q).0 h)

-- Two protected calls that overlap, under a profile that compares the low bytes of the counters, as
-- `SimpleE2EProfile` of the examples does. Both requests were sent, nothing else was protected since,
-- and an answer, whose bytes the profile protected, came for the first call. If the check accepts it
-- before the second request was sent, `call_async` does not return it afterwards: its check then uses
-- the counter that the second request left.
pub overlapping_calls_refuse :
    (native : Native) (first second : MessageId) (payload payload' : List ℕ) (s t : SomeIpClient)
    (l : List Call) (profile : E2eProfile) (p : E2eProtection) (a b : ℕ × ℕ) (answer : List ℕ)
    (sent : ℕ) (m n : Message) (time_is_up : Bool) (session k : ℕ)
    → s.e2e ≡ some p
    → p.profile ≡ some profile
    → p.counter < 256
    → ChecksCounter profile
    → IsBytes answer
    → profile.protect_bytes answer sent ≡ ok m.payload
    → let one = begin_call native first payload s l in
      let two = begin_call native second payload' one.1 one.2 in
      one.0 ≡ ok a
      → two.0 ≡ ok b
      → check_if m one.1.e2e ≡ ok m
      → t.e2e ≡ two.1.e2e
      → (Rpc.end_call time_is_up session k t.rpc_client).0 ≡ returns m
      → (end_call time_is_up session k t).0 ≢ returns n
overlapping_calls_refuse native first second payload payload' s t l profile p a b answer sent m n
      time_is_up session k on has small exact bytes made one two alone later answered h =
    let begun = begin_call native first payload s l in
    let (q, e, has', count) =
      begin_call-counter native first payload s l profile p a on has small one in
    let (r, e', has'', count') =
      begin_call-counter native second payload' begun.1 begun.2 profile q b e has'
        (omega (arith, count)) two in
    let (got, passed) = end_call-returns time_is_up session k t n h in
    let same : m ≡ n = ground (arith, sym answered ∙ got) in
    let before =
      one_counter profile m answer sent q exact bytes made has' (ap (check_if m) (sym e) ∙ alone) in
    let after = one_counter profile m answer sent r exact bytes made has'' (
      ap (check_if m) (sym (later ∙ e'))
      ∙ ap (λ i. check_if i t.e2e) same
      ∙ passed
      ∙ ap ok (sym same)) in
    omega (arith, before, after, count, count')
