-- ===== src/Net/EventLoop/Waiting.antt =====
-- The end of Wait of src/net/common/event_loop.cpp.
use sheep_cpp.Base.{ℕ, zero, suc, ◌<◌, ◌≡◌, refl, ap, ◌∙◌, true, false, some, arith}
use sheep_cpp.Net.EventLoop.{
  EventLoop, insert, add_poller, make_event_loop, run_all, run_once, wait,
}

module _ {P : Type 0} {W : Type 0} (serve : P → EventLoop P × W → EventLoop P × W) where
  -- n rounds: the epoller first, then the timers, then the asyncers.
  abbrev pub rounds : P → P → P → ℕ → EventLoop P × W → EventLoop P × W
  rounds e t a zero s = s
  rounds e t a (suc n) s = rounds e t a n (serve a (serve t (serve e s)))

  -- Callbacks leave the map of pollers alone.
  abbrev pub KeepsPollers : Type 0
  KeepsPollers = (p : P) (s : EventLoop P × W) → (serve p s).0.pollers ≡ s.0.pollers

  run_once_lem :
      (e t a : P) (s : EventLoop P × W)
      → s.0.pollers ≡ (make_event_loop e t a).pollers
      → run_once serve s ≡ some (serve a (serve t (serve e s)))
  unfolding run_once run_all make_event_loop add_poller insert
  run_once_lem e t a s h = ap (λ ps. run_all serve ps s) h

  wait_round :
      (n : ℕ) (s s1 : EventLoop P × W)
      → s.0.stop ≡ false
      → run_once serve s ≡ some s1
      → wait serve (suc n) s ≡ wait serve n s1
  unfolding wait
  wait_round n s s1 f e = ground (arith, f, e)

  wait_from :
      (e t a : P) (n : ℕ) (s : EventLoop P × W)
      → KeepsPollers
      → s.0.pollers ≡ (make_event_loop e t a).pollers
      → ((k : ℕ) → k < n → (rounds e t a k s).0.stop ≡ false)
      → (rounds e t a n s).0.stop ≡ true
      → wait serve (suc n) s ≡ some (rounds e t a n s)
  unfolding wait
  wait_from e t a zero s q h f g = ground (arith, g)
  wait_from e t a (suc n) s q h f g =
      let s1 = serve a (serve t (serve e s)) in
      let h1 = q a (serve t (serve e s)) ∙ q t (serve e s) ∙ q e s ∙ h in
      let f0 = f zero (omega arith) in
      let r = wait_from e t a n s1 q h1 (λ k l. f (suc k) (omega (arith, l))) g in
      wait_round (suc n) s s1 f0 (run_once_lem e t a s h) ∙ r

  -- Where the callbacks leave the pollers of a new event loop alone, and n is the first number
  -- of rounds over the epoller, the timers and the asyncers, in this order, after which Stop
  -- has been called: Wait returns after exactly these n rounds, so Stop never cuts a round
  -- short.
  pub wait_stops :
      (e t a : P) (n : ℕ) (w : W)
      → KeepsPollers
      → ((k : ℕ) → k < n → (rounds e t a k (make_event_loop e t a, w)).0.stop ≡ false)
      → (rounds e t a n (make_event_loop e t a, w)).0.stop ≡ true
      → wait serve (suc n) (make_event_loop e t a, w)
        ≡ some (rounds e t a n (make_event_loop e t a, w))
  wait_stops e t a n w q f g = wait_from e t a n (make_event_loop e t a, w) q refl f g
