-- ===== src/Transport/Lifecycle.antt =====
-- `start` and `stop` on a transport of any class.
use opensomeip_python.Prelude.{
  ◌⊎◌, inl, inr, ◌≡◌, true, false, some, List, [], ◌∷◌, ◌++◌, arith, is_some,
}
use opensomeip_python.Exceptions.{Result-cases, Exn, ok, err, library, transport_error}
use opensomeip_python.Receiver.{close}
use opensomeip_python.Native.Calls.{Call, Native, transport_start, tcp_initialize}
use opensomeip_python.Transport.{Transport, plain, udp, tcp, start, stop, connect}

-- The calls made before the extension is told to start.
abbrev pub before_start : Transport → List Call → List Call
before_start t l = elim t.kind [
  | tcp ↦ l ++ tcp_initialize t.local_endpoint ∷ []
  | plain ↦ l
  | udp ↦ l
]

module _ (native : Native) (t : Transport) (l : List Call) where
  -- A `start` that returns leaves the transport running; a TCP transport with a remote endpoint is
  -- then connected.
  pub start-running :
      (start native t l).0 ≡ ok tt
      → ((start native t l).1.running ≡ true)
        × (t.kind ≡ tcp → is_some t.remote_endpoint ≡ true → (start native t l).1.connected ≡ true)
  unfolding start
  start-running h = ground arith

  -- If the extension answers `start` with a result other than SUCCESS, a stopped transport of any
  -- class raises `TransportError` and is left as it was, stopped.
  pub start_refused :
      t.running ≡ false
      → t.cpp ≡ true
      → native (before_start t l) transport_start ≡ ok (some false)
      → start native t l
        ≡ (err (library transport_error), t, before_start t l ++ transport_start ∷ [])
  unfolding start
  start_refused stopped has_ext refused = ground arith

  -- With a remote endpoint, `connect` returns and reports a connection whatever the extension's
  -- `connect` did, an exception included.
  pub connect-connected :
      is_some t.remote_endpoint ≡ true
      → ((connect native t l).0 ≡ ok tt) × ((connect native t l).1.connected ≡ true)
  unfolding connect
  connect-connected h = ground arith

  -- A second `stop` does nothing, whatever the first one met.
  pub stop_twice :
      let first = stop native t l in stop native first.1 first.2 ≡ (ok tt, first.1, first.2)
  unfolding stop
  stop_twice = ground arith

  -- No `start` touches the receiver.
  pub receiver-start : (start native t l).1.receiver ≡ t.receiver
  unfolding start
  receiver-start = ground arith

  pub stop_lem :
      t.running ≡ true
      → t.receiver.maxsize ≡ 0
      → ((stop native t l).1.running ≡ false)
        × ((stop native t l).0 ≡ ok tt → (stop native t l).1.receiver ≡ (close t.receiver).1)
        × ((e : Exn)
            → (stop native t l).0 ≡ err e
            → let first = stop native t l in
              (first.1.receiver ≡ t.receiver)
              × (stop native first.1 first.2 ≡ (ok tt, first.1, first.2)))
  unfolding stop
  stop_lem running unbounded = (ground arith, λ h. ground arith, λ e h. (ground arith, stop_twice))

  -- After `stop` a running transport, whose receiver has no bound, is stopped. Its receiver is closed
  -- if `stop` returned; if `stop` raised, the receiver is as it was, and a second `stop` right after
  -- it returns and changes nothing.
  pub stop_outcome :
      t.running ≡ true
      → t.receiver.maxsize ≡ 0
      → let first = stop native t l in
        (first.1.running ≡ false)
        × (((first.0 ≡ ok tt) × (first.1.receiver ≡ (close t.receiver).1))
            ⊎ ((e : Exn) × (first.0 ≡ err e)
                × (first.1.receiver ≡ t.receiver)
                × (stop native first.1 first.2 ≡ (ok tt, first.1, first.2))))
  stop_outcome running unbounded =
      let (stopped, returned, raised) = stop_lem running unbounded in
      elim (Result-cases (stop native t l).0) [
        | inl (u, h) ↦ (stopped, inl (h, returned h))
        | inr (e, h) ↦ let (same, again) = raised e h in (stopped, inr (e, h, same, again))
      ]
