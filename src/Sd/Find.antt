-- ===== src/Sd/Find.antt =====
-- The receivers that `find` hands out.
use opensomeip_python.Prelude.{
  ℕ, suc, ◌≡◌, refl, sym, ap, ap₂, ◌∙◌, false, some, List, [], ◌∷◌, ◌++◌, append-nil, append_assoc,
  arith,
}
use opensomeip_python.Prelude.Dict.{lookup, insert, lookup-insert, dict_laws}
use opensomeip_python.Exceptions.{Result, ok}
use opensomeip_python.Message.{default_message}
use opensomeip_python.Receiver
use opensomeip_python.Receiver.{Receiver, Item, message, put, close, put_nowait, put_async}
use opensomeip_python.Native.Calls.{CppService, Call, Native}
use opensomeip_python.Sd.{
  ServiceInstance, SdClient, find, stop_client, on_receiver, on_found, from_cpp_service_instance,
}

find_lem :
    (native : Native) (x : ServiceInstance) (c : SdClient) (l : List Call)
    → let t = find native x c l in
      (t.0 ≡ ok c.next_receiver)
      × (t.1.find_receiver ≡ some c.next_receiver)
      × (t.1.receivers ≡ insert c.next_receiver (Receiver.new 0) c.receivers)
      × (t.1.next_receiver ≡ suc c.next_receiver)
unfolding find
find_lem native x c l = (ground arith, ground arith, ground arith, ground arith)

close-new : close (Receiver.new 0) ≡ (ok tt, (close (Receiver.new 0)).1)
unfolding close put_nowait
close-new = refl

stop_client_lem :
    (native : Native) (k : ℕ) (c : SdClient) (l : List Call)
    → c.find_receiver ≡ some k
    → lookup k c.receivers ≡ some (Receiver.new 0)
    → let t = stop_client native c l in
      (t.0 ≡ ok tt) × (t.1.receivers ≡ insert k (close (Receiver.new 0)).1 c.receivers)
unfolding stop_client on_receiver
stop_client_lem native k c l last has = (ground (arith, close-new), ground (arith, close-new))

-- After two calls of `find`, `stop` closes the second receiver only: the first is as it was made,
-- open, and whoever iterates over it goes on waiting.
pub earlier_find_stays_open :
    (native : Native) (x y : ServiceInstance) (c : SdClient) (l : List Call)
    → let first = find native x c l in
      let second = find native y first.1 first.2 in
      let stopped = stop_client native second.1 second.2 in
      (stopped.0 ≡ ok tt)
      × (lookup c.next_receiver stopped.1.receivers ≡ some (Receiver.new 0))
      × (lookup (suc c.next_receiver) stopped.1.receivers ≡ some (close (Receiver.new 0)).1)
earlier_find_stays_open native x y c l =
    let first = find native x c l in
    let second = find native y first.1 first.2 in
    let (_, _, made, number) = find_lem native x c l in
    let (_, last, now, _) = find_lem native y first.1 first.2 in
    let receivers : second.1.receivers
        ≡ insert (suc c.next_receiver) (Receiver.new 0)
            (insert c.next_receiver (Receiver.new 0) c.receivers) =
      now ∙ ap₂ (λ k d. insert k (Receiver.new 0) d) number made in
    let (returns, after) =
      stop_client_lem native (suc c.next_receiver) second.1 second.2 (last ∙ ap some number)
        (ap (lookup (suc c.next_receiver)) receivers ∙ grind (arith, dict_laws)) in
    (
      returns,
      ap (lookup c.next_receiver)
            (after ∙ ap (insert (suc c.next_receiver) (close (Receiver.new 0)).1) receivers)
          ∙ grind (arith, dict_laws),
      ap (lookup (suc c.next_receiver)) after ∙ grind (arith, dict_laws),
    )

-- The items that the found services are queued as.
unfoldable pub found_items : (ServiceInstance → List ℕ) → List CppService → List Item
unfolding from_cpp_service_instance
found_items text [] = []
found_items text (s ∷ ss) =
    message (record default_message { payload = text (from_cpp_service_instance s) })
    ∷ found_items text ss

put-open :
    (i : List ℕ) (r : Receiver)
    → r.maxsize ≡ 0
    → r.closed ≡ false
    → let t = put (record default_message { payload = i }) r in
      (t.0 ≡ ok tt)
      × (t.1.maxsize ≡ 0)
      × (t.1.closed ≡ false)
      × (t.1.sync_queue ≡ r.sync_queue ++ message (record default_message { payload = i }) ∷ [])
unfolding put put_nowait put_async
put-open i r m o = (ground arith, ground arith, ground arith, ground arith)

on_receiver_lem :
    (k : ℕ) (f : Receiver → Result (Unit {0}) × Receiver) (c : SdClient) (r : Receiver)
    → lookup k c.receivers ≡ some r
    → ((on_receiver k f c).0 ≡ (f r).0) × (lookup k (on_receiver k f c).1.receivers ≡ some (f r).1)
unfolding on_receiver
on_receiver_lem k f c r has =
    (ground (arith, has), ground (arith, has, lookup-insert k k (f r).1 c.receivers))

on_found-cons :
    (text : ServiceInstance → List ℕ) (callback : ServiceInstance → Result (Unit {0})) (k : ℕ)
    (s : CppService) (found : List CppService) (c : SdClient)
    → let service = from_cpp_service_instance s in
      let t = on_receiver k (put (record default_message { payload = text service })) c in
      t.0 ≡ ok tt
      → callback service ≡ ok tt
      → on_found text callback k (s ∷ found) c ≡ on_found text callback k found t.1
unfolding on_found
on_found-cons text callback k s found c put_ok quiet = ground (arith, put_ok, quiet)

-- Without exceptions from the application's callback, all services that the extension reports to one
-- `find` are queued on the receiver that this `find` returned, in their order and behind what is there.
pub on_found-queued :
    (text : ServiceInstance → List ℕ) (callback : ServiceInstance → Result (Unit {0})) (k : ℕ)
    (found : List CppService) (c : SdClient) (r : Receiver)
    → ((x : ServiceInstance) → callback x ≡ ok tt)
    → lookup k c.receivers ≡ some r
    → r.maxsize ≡ 0
    → r.closed ≡ false
    → let t = on_found text callback k found c in
      (t.0 ≡ ok tt)
      × (r' : Receiver) × (lookup k t.1.receivers ≡ some r')
      × (r'.sync_queue ≡ r.sync_queue ++ found_items text found)
unfolding on_found found_items
on_found-queued text callback k [] c r quiet has m o = (refl, r, has, sym (append-nil r.sync_queue))
on_found-queued text callback k (s ∷ ss) c r quiet has m o =
    let payload = text (from_cpp_service_instance s) in
    let f = put (record default_message { payload = payload }) in
    let (returns, m1, o1, q1) = put-open payload r m o in
    let (same, has1) = on_receiver_lem k f c r has in
    let (ih, r', has', q') =
      on_found-queued text callback k ss (on_receiver k f c).1 (f r).1 quiet has1 m1 o1 in
    let step =
      on_found-cons text callback k s ss c (same ∙ returns) (quiet (from_cpp_service_instance s)) in
    (
      ap (λ (t : Result (Unit {0}) × SdClient). t.0) step ∙ ih,
      r',
      ap (λ (t : Result (Unit {0}) × SdClient). lookup k t.1.receivers) step ∙ has',
      q'
          ∙ ap (λ q. q ++ found_items text ss) q1
          ∙ append_assoc r.sync_queue (message (record default_message { payload = payload }) ∷ [])
              (found_items text ss),
    )
