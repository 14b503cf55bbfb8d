-- ===== src/Receiver/Schedule.antt =====
-- What happens to a receiver over time, and the messages that it should hand out.
use opensomeip_python.Prelude.{Bool, true, false, List, [], ◌∷◌}
use opensomeip_python.Message.{Message}
use opensomeip_python.Receiver.{Receiver, Item, sentinel, put, close}

-- What producers do: callback threads put, the owner closes. `quiet` lets time pass.
pub data Event : Type 0 where
  puts : Message → Event
  closes quiet : Event

unfoldable pub apply : Event → Receiver → Receiver
apply (puts m) r = (put m r).1
apply closes r = (close r).1
apply quiet r = r

unfoldable pub run : List Event → Receiver → Receiver
unfolding apply
run [] r = r
run (e ∷ es) r = run es (apply e r)

-- The messages that are put before the first close.
unfoldable pub accepted : List Event → List Message
accepted [] = []
accepted (puts m ∷ es) = m ∷ accepted es
accepted (closes ∷ es) = []
accepted (quiet ∷ es) = accepted es

unfoldable pub has_close : List Event → Bool
has_close [] = false
has_close (puts m ∷ es) = has_close es
has_close (closes ∷ es) = true
has_close (quiet ∷ es) = has_close es

-- What the events add to a queue that is still open: the accepted messages, and a mark for each
-- close.
unfoldable pub closes_of : List Event → List Item
closes_of [] = []
closes_of (puts m ∷ es) = closes_of es
closes_of (closes ∷ es) = sentinel ∷ closes_of es
closes_of (quiet ∷ es) = closes_of es
