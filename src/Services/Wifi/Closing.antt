-- ===== src/Services/Wifi/Closing.antt =====
-- The reconnect task of components/blusys/src/services/connectivity/wifi.c exits when a client
-- closes the handle, so that closing does not wait for ever.
use mathlib.Core.Path.{subst}
use blusys.Base.{ℕ, suc, ◌≤◌, ◌≡◌, ◌≢◌, ◌⊎◌, refl, sym, ◌∙◌, true, List, [], ◌∷◌, arith, inl, inr}
use blusys.Hal.Error.{BlusysErr, EspErr}
use blusys.Services.Wifi.Defs.{
  Worker, waiting, delaying, retrying, connecting, calling, exited, Wifi, finish_connect_wait,
}
use blusys.Services.Wifi.Sections.{
  reconnect_step, on_disconnected, on_got_ip, connect_begin, connect_check, connect_call,
  connect_end, disconnect, close_begin, notify_worker,
}
use blusys.Services.Wifi.Run.{Section, worker_steps, notifies, step, run}

-- The steps of the reconnect task among the sections.
unfoldable pub worker_count : List Section → ℕ
worker_count [] = 0
worker_count (worker_steps lock_err esp_err ∷ ss) = suc (worker_count ss)
worker_count (s ∷ ss) = worker_count ss

-- How many steps the task of a closing handle has left.
abbrev left : Worker → ℕ
left waiting = 1
left exited = 0
left _ = 2

-- The handle is closing, and the task has exited and told so, or a notification waits for it.
pub record Stops (k : Worker) (w : Wifi) : Type 0 where
  pub at_worker : w.worker ≡ k
  pub is_closing : w.closing ≡ true
  pub will_exit : ((k ≡ exited) × (w.exited_bit ≡ true)) ⊎ ((k ≢ exited) × (w.notified ≡ true))

abbrev StopsSoon : ℕ → Wifi → Type 0
StopsSoon n w = (k : Worker) × Stops k w × (left k ≤ n)

notified_of : (k : Worker) (w : Wifi) → Stops k w → k ≢ exited → w.notified ≡ true
notified_of k w s ne = elim (s.will_exit) [ inl e ↦ absurd (ne e.0) | inr e ↦ e.1 ]

waiting-ne-exited : waiting ≢ exited
waiting-ne-exited e = cc

-- A task that has something to do goes to wait again.
goes_waiting :
    (n : ℕ) (w' : Wifi)
    → w'.worker ≡ waiting
    → w'.closing ≡ true
    → w'.notified ≡ true
    → 2 ≤ suc n
    → StopsSoon n w'
goes_waiting n w' work closed told h = (
  waiting,
  record { at_worker = work; is_closing = closed; will_exit = inr (waiting-ne-exited, told) },
  omega arith,
)

-- A step of the task that has not exited is one fewer left.
reconnect_step-StopsSoon :
    (n : ℕ) (k : Worker) (lock_err : BlusysErr) (esp_err : EspErr) (w : Wifi)
    → Stops k w
    → left k ≤ suc n
    → StopsSoon n (reconnect_step k lock_err esp_err w)
unfolding reconnect_step
reconnect_step-StopsSoon n waiting lock_err esp_err w s h =
    let told : w.notified ≡ true = notified_of waiting w s (λ e. cc) in
    (
      exited,
      record {
        at_worker = ground (arith, told, s.is_closing);
        is_closing = ground (arith, told, s.is_closing);
        will_exit = inl (refl, ground (arith, told, s.is_closing));
      },
      omega arith,
    )
reconnect_step-StopsSoon n delaying lock_err esp_err w s h =
    let told : w.notified ≡ true = notified_of delaying w s (λ e. cc) in
    goes_waiting n _ (ground (arith, s.is_closing)) (ground (arith, s.is_closing))
      (ground (arith, told, s.is_closing)) h
reconnect_step-StopsSoon n retrying lock_err esp_err w s h =
    let told : w.notified ≡ true = notified_of retrying w s (λ e. cc) in
    goes_waiting n _ (ground (arith, s.is_closing)) (ground (arith, s.is_closing))
      (ground (arith, told, s.is_closing)) h
reconnect_step-StopsSoon n connecting lock_err esp_err w s h =
    let told : w.notified ≡ true = notified_of connecting w s (λ e. cc) in
    goes_waiting n _ (ground (arith, s.is_closing)) (ground (arith, s.is_closing))
      (ground (arith, told, s.is_closing)) h
reconnect_step-StopsSoon n calling lock_err esp_err w s h =
    let told : w.notified ≡ true = notified_of calling w s (λ e. cc) in
    goes_waiting n _ (ground (arith, s.is_closing)) (ground (arith, s.is_closing))
      (ground (arith, told, s.is_closing)) h
reconnect_step-StopsSoon n exited lock_err esp_err w s h = (exited, s, omega arith)

-- No other section takes the notification or opens the handle again.
other-Stops :
    (k : Worker) (w w' : Wifi)
    → Stops k w
    → w'.worker ≡ w.worker
    → w'.exited_bit ≡ w.exited_bit
    → (w.closing ≡ true → w'.closing ≡ true)
    → (w.notified ≡ true → w'.notified ≡ true)
    → Stops k w'
other-Stops k w w' s work bit closed told = record {
  at_worker = work ∙ s.at_worker;
  is_closing = closed s.is_closing;
  will_exit = elim (s.will_exit) [ inl e ↦ inl (e.0, bit ∙ e.1) | inr e ↦ inr (e.0, told e.1) ];
}

step-StopsSoon :
    (s : Section) (ss : List Section) (w : Wifi)
    → StopsSoon (worker_count (s ∷ ss)) w
    → StopsSoon (worker_count ss) (step s w)
unfolding step worker_count on_disconnected on_got_ip connect_begin connect_check connect_call
    connect_end disconnect close_begin notify_worker finish_connect_wait
step-StopsSoon (worker_steps lock_err esp_err) ss w (k, s, h) =
    subst (λ (at : Worker). StopsSoon (worker_count ss) (reconnect_step at lock_err esp_err w))
      (sym s.at_worker) (reconnect_step-StopsSoon (worker_count ss) k lock_err esp_err w s h)
step-StopsSoon notifies ss w (k, s, h) = (k, other-Stops k w _ s refl refl (λ e. e) (λ e. refl), h)
step-StopsSoon _ ss w (k, s, h) = (
  k,
  other-Stops k w _ s (ground arith) (ground arith) (λ e. ground (arith, e))
      (λ e. ground (arith, e)),
  h,
)

run-StopsSoon :
    (ss : List Section) (w : Wifi) → StopsSoon (worker_count ss) w → StopsSoon 0 (run ss w)
unfolding run worker_count
run-StopsSoon [] w s = s
run-StopsSoon (s ∷ ss) w h = run-StopsSoon ss (step s w) (step-StopsSoon s ss w h)

left-le : (k : Worker) → left k ≤ 2
left-le waiting = omega arith
left-le delaying = omega arith
left-le retrying = omega arith
left-le connecting = omega arith
left-le calling = omega arith
left-le exited = omega arith

left-zero : (k : Worker) → left k ≤ 0 → k ≡ exited
left-zero exited h = refl
left-zero waiting h = absurd (omega arith)
left-zero delaying h = absurd (omega arith)
left-zero retrying h = absurd (omega arith)
left-zero connecting h = absurd (omega arith)
left-zero calling h = absurd (omega arith)

-- Once a handle is closing and its reconnect task is notified, two steps of that task are enough for it to exit and
-- to say so, whatever it was doing, whatever fails, and whatever the event handler and a client do in between.
pub run-exits :
    (ss : List Section) (w : Wifi)
    → w.closing ≡ true
    → w.notified ≡ true
    → w.worker ≢ exited
    → 2 ≤ worker_count ss
    → ((run ss w).worker ≡ exited) × ((run ss w).exited_bit ≡ true)
run-exits ss w closed told busy enough =
    let start : Stops w.worker w = record {
      at_worker = refl;
      is_closing = closed;
      will_exit = inr (busy, told);
    } in
    let (k, s, h) = run-StopsSoon ss w (w.worker, start, omega (arith, left-le w.worker)) in
    let gone : k ≡ exited = left-zero k h in
    (s.at_worker ∙ gone, elim (s.will_exit) [ inl e ↦ e.1 | inr e ↦ absurd (e.0 gone) ])
