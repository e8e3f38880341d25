-- ===== src/Net/PollerTests.antt =====
-- The theorems on the pollers and the event loop of src/net/common at concrete inputs.
use sheep_cpp.Base.{
  ℕ, zero, suc, ◌+◌, ◌<◌, ◌≤◌, ◌≡◌, ◌↔◌, refl, inl, Bool, true, false, none, some, List, [], ◌∷◌,
  if◌then◌else◌, ◌==◌, In, empty, arith,
}
use sheep_cpp.Net.Event.{Event, Store, Callback, make_event}
use sheep_cpp.Net.TimerPoller
use sheep_cpp.Net.TimerPoller.{TimerPoller, make_timer_poller}
use sheep_cpp.Net.TimerPoller.Timed.{IsTimed, make-IsTimed}
use sheep_cpp.Net.TimerPoller.Updated.{update_event-IsTimed}
use sheep_cpp.Net.TimerPoller.Watched.{Exists, In-poll}
use sheep_cpp.Net.Epoller
use sheep_cpp.Net.Epoller.{Epoller, PollEvent, WaitResult, ready, Polled, lock_fd}
use sheep_cpp.Net.Epoller.Wait.{ids_for, poll-ready}
use sheep_cpp.Net.EventLoop.{
  EventLoop, do_all, do_poller, insert, find, add_poller, get_poller, make_event_loop, stop_loop,
  wait,
}
use sheep_cpp.Net.EventLoop.Waiting.{rounds, wait_stops}

abbrev reading : ℕ → Event
reading i = record (make_event 0 i) { read_notify = true }

-- Only the event 8 is alive.
abbrev only_8 : Store
only_8 i = if i == 8 then some (reading i) else none

-- The asyncers, poller 2, report the event 8, whose callback calls Stop.
abbrev stop_after : List (ℕ × Callback) → EventLoop ℕ → EventLoop ℕ
unfolding stop_loop
stop_after [] l = l
stop_after (c ∷ cs) l = stop_loop l

unfoldable serve_8 : ℕ → EventLoop ℕ × Store → EventLoop ℕ × Store
unfolding do_poller do_all stop_after
serve_8 p (l, store) =
    let (store1, calls) = do_poller (λ i k s. s) empty (if p == 2 then 8 ∷ [] else []) store in
    (stop_after calls l, store1)

abbrev ready_8 : Store
ready_8 i = if i == 8 then some (record (reading 8) { read_able = true }) else none

pollers-stop_after :
    (calls : List (ℕ × Callback)) (l : EventLoop ℕ) → (stop_after calls l).pollers ≡ l.pollers
unfolding stop_after stop_loop
pollers-stop_after [] l = refl
pollers-stop_after (c ∷ cs) l = refl

keeps_8 : (p : ℕ) (s : EventLoop ℕ × Store) → (serve_8 p s).0.pollers ≡ s.0.pollers
unfolding serve_8
keeps_8 p (l, store) =
    pollers-stop_after (do_poller (λ i k s. s) empty (if p == 2 then 8 ∷ [] else []) store).1 l

running_8 :
    (k : ℕ) → k < 1 → (rounds serve_8 0 1 2 k (make_event_loop 0 1 2, ready_8)).0.stop ≡ false
unfolding make_event_loop add_poller
running_8 zero h = refl
running_8 (suc k) h = absurd (omega (arith, h))

wait_stops_example :
    wait serve_8 2 (make_event_loop 0 1 2, ready_8)
    ≡ some (rounds serve_8 0 1 2 1 (make_event_loop 0 1 2, ready_8))
unfolding serve_8 do_poller do_all stop_after stop_loop make_event_loop add_poller insert
wait_stops_example = wait_stops serve_8 0 1 2 1 ready_8 keeps_8 running_8 refl

-- The three types have their pollers, and asking for them leaves the loop as it is.
get_poller_1 : get_poller {P = ℕ} 1 (make_event_loop 10 11 12) ≡ (some 11, make_event_loop 10 11 12)
unfolding get_poller make_event_loop add_poller insert find
get_poller_1 = refl

-- The event `i` is due at `i + 100`.
abbrev time : ℕ → ℕ
time i = i + 100

abbrev timed_7 : TimerPoller
timed_7 = (update_event-IsTimed time 7 make_timer_poller (make-IsTimed time)).0

abbrev timed_7-IsTimed : IsTimed time timed_7
timed_7-IsTimed = (update_event-IsTimed time 7 make_timer_poller (make-IsTimed time)).2

In-poll_example :
    In 7 (TimerPoller.poll 110 timed_7 only_8).0
    ↔ ((timed_7.event_set 7 ≡ true) × (time 7 ≤ 110) × Exists only_8 7)
In-poll_example = In-poll time 110 7 timed_7 only_8 timed_7-IsTimed

-- The event 8 has the fd 0, the fd 1 had an event that is gone, and the array has an old entry.
abbrev readable_fd : ℕ → PollEvent
readable_fd fd = record { fd = fd; is_in = true; is_out_or_err = false }

abbrev epoller : Epoller
epoller = record {
  poll_events = readable_fd 1 ∷ readable_fd 0 ∷ [];
  events = λ fd. if fd == 0 then some 8 else none;
}

abbrev live_8 : ℕ → Bool
live_8 i = i == 8

live_reading : (i : ℕ) → live_8 i ≡ true → (e : Event) × (only_8 i ≡ some e) × (e.id ≡ i)
unfolding make_event
live_reading i l = (reading i, rw l refl, refl)

poll-ready_example :
    (r : Polled) × (Epoller.poll (ready (readable_fd 0 ∷ [])) epoller only_8 ≡ some r)
    × (r.ids ≡ ids_for epoller (readable_fd 0 ∷ []))
    × (r.err_msg ≡ empty)
poll-ready_example =
    poll-ready (readable_fd 0 ∷ []) epoller only_8 live_8 ((8, refl, refl, inl refl), tt)
      live_reading
