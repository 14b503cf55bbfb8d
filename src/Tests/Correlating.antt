-- ===== src/Tests/Correlating.antt =====
-- Two overlapping calls, answered in the other order.
use opensomeip_python.Prelude.{ℕ, ◌≡◌, ◌≢◌, arith, none, List, refl, true, false, some, [], ◌∷◌}
use opensomeip_python.Prelude.Dict.{lookup, insert}
use opensomeip_python.Types.Enums.{response, e_ok}
use opensomeip_python.Types.RequestId
use opensomeip_python.Message.{Message, make_message}
use opensomeip_python.Rpc.{
  new_client, start_client, begin_call, on_response, end_call, returns, next_session, answer,
}
use opensomeip_python.Rpc.Correlation.{
  World, sent, Step, starts, calls, answers, Reach, here, more, new_world,
}
use opensomeip_python.Exceptions.{Result, ok}
use opensomeip_python.Native.Calls.{Call}
use opensomeip_python.E2e.Protection.{E2eProtection, protect, check}
use opensomeip_python.Server.{protect_if}
use opensomeip_python.Client
use opensomeip_python.Client.{SomeIpClient, check_if}
use opensomeip_python.Client.Overlapping.{end_call-checked, overlapping_calls_refuse}
use opensomeip_python.Serialization.Struct.{be_bytes}
use opensomeip_python.Examples.Profile.{simple_profile, simple_protect, simple_check}
use opensomeip_python.Examples.Profile.Checking.{simple_profile-ChecksCounter}
use opensomeip_python.Tests.Calling.{some_ip_client}
use opensomeip_python.Tests.Fixtures.{obliging, method_id, e2e_config}

abbrev started : World
started =
    let w = new_world true 1 in
    let t = start_client obliging w.client w.log in record w { client = t.1; log = t.2 }

abbrev asked_once : World
asked_once =
    sent (begin_call obliging method_id (1 ∷ []) started.client started.log) method_id started

abbrev asked_twice : World
asked_twice =
    sent (begin_call obliging method_id (2 ∷ []) asked_once.client asked_once.log) method_id
      asked_once

abbrev answered : World
answered = record asked_twice {
  client = (on_response method_id 2 1 (some (7 ∷ [])) asked_twice.client).1;
}

second_asked : lookup 1 asked_twice.requests ≡ some (method_id, 2)
unfolding begin_call new_client start_client next_session insert lookup
second_asked = refl

answers_second : Step obliging asked_twice answered
answers_second = answers asked_twice 1 method_id 2 (some (7 ∷ [])) second_asked

twice_Reach : Reach obliging (new_world true 1) asked_twice
twice_Reach =
    more (more (more here (starts (new_world true 1))) (calls started method_id (1 ∷ [])))
      (calls asked_once method_id (2 ∷ []))

abbrev second_answer : Message
second_answer =
    make_message method_id (record { client_id = 1; session_id = 2 }) response e_ok (7 ∷ [])

second_returns : (end_call false 2 1 answered.client).0 ≡ returns second_answer
unfolding begin_call new_client start_client next_session insert lookup on_response answer end_call
    RequestId.new
second_returns = refl

abbrev asking : SomeIpClient
asking = record some_ip_client { rpc_client = answered.client }

asking_returns : (Client.end_call false 2 1 asking).0 ≡ returns second_answer
unfolding Client.end_call begin_call new_client start_client next_session insert lookup on_response
    answer end_call RequestId.new
asking_returns = refl

end_call-checked_example :
    (lookup 1 answered.requests ≡ some (method_id, 2))
    × (check_if second_answer none ≡ ok second_answer)
unfolding make_message
end_call-checked_example =
    end_call-checked obliging true 1 answered asking false 2 1 second_answer
      (more twice_Reach answers_second) refl asking_returns

abbrev sender_protection : E2eProtection
sender_protection = record {
  config = e2e_config;
  profile = some (simple_profile none);
  counter = 0;
}

-- Two protected calls, one after the other, on a client whose RPC client is fresh.
abbrev protecting : SomeIpClient
protecting = record some_ip_client { rpc_client = started.client; e2e = some sender_protection }

abbrev first_sent : Result (ℕ × ℕ) × SomeIpClient × List Call
first_sent = Client.begin_call obliging method_id (1 ∷ []) protecting []

abbrev second_sent : Result (ℕ × ℕ) × SomeIpClient × List Call
second_sent = Client.begin_call obliging method_id (2 ∷ []) first_sent.1 first_sent.2

-- The server protected its answer with its counter 1.
abbrev protected_answer : Message
protected_answer =
    make_message method_id (record { client_id = 1; session_id = 1 }) response e_ok
      (132 ∷ 199 ∷ 1 ∷ 0 ∷ 7 ∷ [])

abbrev both_answered : SomeIpClient
both_answered = record second_sent.1 {
  rpc_client =
      (on_response method_id 1 0 (some (132 ∷ 199 ∷ 1 ∷ 0 ∷ 7 ∷ [])) second_sent.1.rpc_client).1;
}

first_was_sent : first_sent.0 ≡ ok (1, 0)
unfolding Client.begin_call begin_call new_client start_client next_session protect_if protect
    simple_protect
first_was_sent = refl

second_was_sent : second_sent.0 ≡ ok (2, 1)
unfolding Client.begin_call begin_call new_client start_client next_session protect_if protect
    simple_protect
second_was_sent = refl

accepted_alone : check_if protected_answer first_sent.1.e2e ≡ ok protected_answer
unfolding Client.begin_call begin_call new_client start_client next_session protect_if protect
    check_if check make_message simple_protect simple_check
accepted_alone = refl

first_answered : (end_call false 1 0 both_answered.rpc_client).0 ≡ returns protected_answer
unfolding Client.begin_call begin_call new_client start_client next_session protect_if protect
    simple_protect insert lookup on_response answer end_call RequestId.new
first_answered = refl

answer_protected : simple_protect none (7 ∷ []) 1 ≡ ok protected_answer.payload
unfolding simple_protect be_bytes make_message
answer_protected = refl

overlapping_calls_refuse_example :
    (Client.end_call false 1 0 both_answered).0 ≢ returns protected_answer
unfolding make_message
overlapping_calls_refuse_example =
    overlapping_calls_refuse obliging method_id method_id (1 ∷ []) (2 ∷ []) protecting both_answered
      [] (simple_profile none) sender_protection (1, 0) (2, 1) (7 ∷ []) 1 protected_answer
      protected_answer false 1 0 refl refl (omega arith) simple_profile-ChecksCounter
      (omega arith, tt) answer_protected first_was_sent second_was_sent accepted_alone refl
      first_answered
