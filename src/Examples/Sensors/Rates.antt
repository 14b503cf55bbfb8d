-- ===== src/Examples/Sensors/Rates.antt =====
-- How often the example publishes, and that the subscriber prints what was published.
use opensomeip_python.Prelude.{
  ℕ, ◌+◌, ◌*◌, ◌≤◌, ◌≡◌, refl, sym, ap, ◌∙◌, false, Bool-cases, inl, inr, ◌⊎◌, List, [], ◌∷◌, ◌++◌,
  append-nil, append_assoc, length, take_of_length-le, leb, arith, ◌==◌, if◌then◌else◌, leb→le,
  is_some,
}
use opensomeip_python.Prelude.Dict.{lookup}
use opensomeip_python.Exceptions.{
  Exn, Result, ok, err, Result-cases, library, configuration_error, runtime_error,
}
use opensomeip_python.Message.{Message}
use opensomeip_python.Serialization.Native.{Floats}
use opensomeip_python.Events.{EventPublisher, notify}
use opensomeip_python.Native.Calls.{Call, Native, publish_event}
use opensomeip_python.Native.Run.{next}
use opensomeip_python.Examples.Sensors.{
  Tick, Clock, temperature_event, speed_event, float_to_be_bytes, publish_due, publish_loop,
  be_bytes_to_float, temperature_is, speed_is, print_event,
}

-- Whether the call publishes this event.
abbrev publishes : ℕ → Call → ℕ
publishes event_id (publish_event e payload) = if e == event_id then 1 else 0
publishes event_id _ = 0

-- How many of the calls publish this event.
unfoldable pub published : ℕ → List Call → ℕ
published event_id [] = 0
published event_id (c ∷ calls) = publishes event_id c + published event_id calls

published-append :
    (event_id : ℕ) (xs ys : List Call)
    → published event_id (xs ++ ys) ≡ published event_id xs + published event_id ys
unfolding published
published-append event_id [] ys = omega arith
published-append event_id (c ∷ xs) ys = omega (arith, published-append event_id xs ys)

module _ (F : Floats) (native : Native) where
  -- What one `if` statement may do.
  abbrev Due :
      ℕ → ℕ → ℕ → ℕ → EventPublisher → List Call → Result ℕ × EventPublisher × List Call → Type 0
  Due event_id period now last p l t =
      (t ≡ (ok last, p, l))
      ⊎ (((x : Exn) × (t ≡ (err x, p, l)))
          ⊎ ((bytes : List ℕ) × (last + period ≤ now)
              × (let calls = l ++ publish_event event_id bytes ∷ [] in
                  (t ≡ (ok now, p, calls)) ⊎ ((x : Exn) × (t ≡ (err x, p, calls))))))

  publish_due-Due :
      (event_id period now last : ℕ) (value : F.Float) (p : EventPublisher) (l : List Call)
      → Due event_id period now last p l (publish_due F native event_id period now last value p l)
  unfolding publish_due float_to_be_bytes notify
  publish_due-Due event_id period now last value p l = elim (Bool-cases (leb (last + period) now)) [
    | inr early ↦ inl (ground (arith, early))
    | inl due ↦ elim (Result-cases (F.pack32 value)) [
      | inr (x, e) ↦ inr (inl (x, ground (arith, due, e)))
      | inl (bytes, e) ↦ elim (Bool-cases (is_some (lookup event_id p.registered_events))) [
        | inr missing ↦ inr (inl (library configuration_error, ground (arith, due, e, missing)))
        | inl known ↦ elim (Bool-cases p.cpp) [
          | inr off ↦ inr (inl (runtime_error, ground (arith, due, e, known, off)))
          | inl on ↦ inr (
              inr (
                bytes,
                leb→le _ _ due,
                elim (Result-cases (native l (publish_event event_id bytes))) [
                  | inl (u, r) ↦ inl (ground (arith, due, e, known, on, r))
                  | inr (x, r) ↦ inr (x, ground (arith, due, e, known, on, r))
                ],
              ))
        ]
      ]
    ]
  ]

  -- What one `if` statement adds, before a given end.
  abbrev Adds :
      ℕ
      → ℕ
      → ℕ
      → ℕ
      → ℕ
      → EventPublisher
      → List Call
      → Result ℕ × EventPublisher × List Call
      → Type 0
  Adds event_id other period last end p l t =
      (calls : List Call) × (t.2 ≡ l ++ calls)
      × (t.1 ≡ p)
      × (published other calls ≡ 0)
      × (((x : Exn) × (t.0 ≡ err x) × (published event_id calls * period + last ≤ end))
          ⊎ ((later : ℕ) × (t.0 ≡ ok later)
              × (published event_id calls * period + last ≤ later)
              × (later ≤ end)))

  Due-Adds :
      (event_id other period now last end : ℕ) (p : EventPublisher) (l : List Call)
      (t : Result ℕ × EventPublisher × List Call)
      → (event_id == other) ≡ false
      → last ≤ end
      → now ≤ end
      → Due event_id period now last p l t
      → Adds event_id other period last end p l t
  unfolding published
  Due-Adds event_id other period now last end p l t differ h hn (inl same) = (
    [],
    ground (arith, same, append-nil l),
    ground (arith, same),
    refl,
    inr (last, ground (arith, same), omega arith, h),
  )
  Due-Adds event_id other period now last end p l t differ h hn (inr (inl (x, same))) = (
    [],
    ground (arith, same, append-nil l),
    ground (arith, same),
    refl,
    inl (x, ground (arith, same), omega (arith, h)),
  )
  Due-Adds event_id other period now last end p l t differ h hn (inr (inr (bytes, due, inl same))) =
      (
        publish_event event_id bytes ∷ [],
        ground (arith, same),
        ground (arith, same),
        ground (arith, differ),
        inr (now, ground (arith, same), ground (arith, due), hn),
      )
  Due-Adds event_id other period now last end p l t differ h hn
        (inr (inr (bytes, due, inr (x, same)))) =
      (
        publish_event event_id bytes ∷ [],
        ground (arith, same),
        ground (arith, same),
        ground (arith, differ),
        inl (x, ground (arith, same), ground (arith, due, hn)),
      )

  -- The rounds are over by this time.
  abbrev EndsBy : ℕ → List (Tick F) → Type 0
  EndsBy end [] = Unit
  EndsBy end (t ∷ ts) = (t.now ≤ end) × EndsBy end ts

  loop_goes_on :
      (k : Tick F) (ks : List (Tick F)) (c : Clock) (p : EventPublisher) (l : List Call)
      → let t = publish_due F native temperature_event 2000 k.now c.last_temp k.temperature p l in
        (temp : ℕ)
        → t.0 ≡ ok temp
        → let u = publish_due F native speed_event 1500 k.now c.last_speed k.speed t.1 t.2 in
          (publish_loop F native (k ∷ ks) c p l
            ≡ next u (λ speed.
              publish_loop F native ks (record { last_temp = temp; last_speed = speed })))
  unfolding publish_loop
  loop_goes_on k ks c p l temp h = ground (arith, h)

  loop_ends :
      (k : Tick F) (ks : List (Tick F)) (c : Clock) (p : EventPublisher) (l : List Call) (x : Exn)
      → let t = publish_due F native temperature_event 2000 k.now c.last_temp k.temperature p l in
        t.0 ≡ err x → publish_loop F native (k ∷ ks) c p l ≡ (err x, t.1, t.2)
  unfolding publish_loop
  loop_ends k ks c p l x h = ground (arith, h)

  next-ok :
      {A B : Type 0} (u : Result A × EventPublisher × List Call)
      (f : A → EventPublisher → List Call → Result B × EventPublisher × List Call) (a : A)
      → u.0 ≡ ok a
      → next u f ≡ f a u.1 u.2
  next-ok u f a h = ground (arith, h)

  next-err :
      {A B : Type 0} (u : Result A × EventPublisher × List Call)
      (f : A → EventPublisher → List Call → Result B × EventPublisher × List Call) (x : Exn)
      → u.0 ≡ err x
      → next u f ≡ (err x, u.1, u.2)
  next-err u f x h = ground (arith, h)

  -- The publisher notifies the temperature at most once in two seconds, and the speed at most once in
  -- one and a half: the number of notifications, times the period, is within the time that has passed
  -- since the start, however the clock's readings lie, and whether or not an exception ends the loop.
  pub publish_loop-rates :
      (ks : List (Tick F)) (c : Clock) (p : EventPublisher) (l : List Call) (end : ℕ)
      → c.last_temp ≤ end
      → c.last_speed ≤ end
      → EndsBy end ks
      → (calls : List Call) × ((publish_loop F native ks c p l).2 ≡ l ++ calls)
        × (published temperature_event calls * 2000 + c.last_temp ≤ end)
        × (published speed_event calls * 1500 + c.last_speed ≤ end)
  unfolding publish_loop published
  publish_loop-rates [] c p l end ht hs h =
      ([], sym (append-nil l), omega (arith, ht), omega (arith, hs))
  publish_loop-rates (k ∷ ks) c p l end ht hs h =
      let t = publish_due F native temperature_event 2000 k.now c.last_temp k.temperature p l in
      let u = publish_due F native speed_event 1500 k.now c.last_speed k.speed t.1 t.2 in
      let (xs, ex, _, no_speed, first) =
        Due-Adds temperature_event speed_event 2000 k.now c.last_temp end p l t refl ht h.0
          (publish_due-Due temperature_event 2000 k.now c.last_temp k.temperature p l) in
      let (ys, ey, _, no_temp, second) =
        Due-Adds speed_event temperature_event 1500 k.now c.last_speed end t.1 t.2 u refl hs h.0
          (publish_due-Due speed_event 1500 k.now c.last_speed k.speed t.1 t.2) in
      elim first [
        | inl (x, fails, few) ↦
            rw (loop_ends k ks c p l x fails) (xs, ex, few, omega (arith, no_speed, hs))
        | inr (temp, goes, few, within) ↦
            let both : l ++ (xs ++ ys) ≡ u.2 =
              sym (append_assoc l xs ys) ∙ ap (λ a. a ++ ys) (sym ex) ∙ sym ey in
            let count_t = published-append temperature_event xs ys in
            let count_s = published-append speed_event xs ys in
            rw (loop_goes_on k ks c p l temp goes) (elim second [
              | inl (x, fails, few') ↦ rw (next-err u _ x fails) (
                xs ++ ys,
                sym both,
                omega (arith, count_t, no_temp, few, within),
                omega (arith, count_s, no_speed, few'),
              )
              | inr (speed, goes', few', within') ↦
                  let c' : Clock = record { last_temp = temp; last_speed = speed } in
                  let (zs, ez, ft, fs) = publish_loop-rates ks c' u.1 u.2 end within within' h.1 in
                  rw (next-ok u _ speed goes') (
                    (xs ++ ys) ++ zs,
                    ez ∙ ap (λ a. a ++ zs) (sym both) ∙ append_assoc l (xs ++ ys) zs,
                    omega (
                      arith,
                      count_t,
                      no_temp,
                      few,
                      ft,
                      published-append temperature_event (xs ++ ys) zs,
                    ),
                    omega (
                      arith,
                      count_s,
                      no_speed,
                      few',
                      fs,
                      published-append speed_event (xs ++ ys) zs,
                    ),
                  )
            ])
      ]

-- The subscriber prints the value that the publisher encoded, if the format of floats keeps it.
pub print_event-back :
    (F : Floats) (m : Message) (value : F.Float)
    → F.pack32 value ≡ ok m.payload
    → length m.payload ≡ 4
    → F.unpack32 m.payload ≡ value
    → (m.message_id.method_id ≡ temperature_event → print_event F m ≡ temperature_is value)
      × (m.message_id.method_id ≡ speed_event → print_event F m ≡ speed_is value)
unfolding print_event be_bytes_to_float
print_event-back F m value packed four back =
    let whole = take_of_length-le 4 m.payload (omega (arith, four)) in
    (λ e. ground (arith, e, four, whole, back), λ e. ground (arith, e, four, whole, back))
