-- ===== src/Services/Wifi/Retries.antt =====
-- How often components/blusys/src/services/connectivity/wifi.c reconnects, and when it stops to.
use blusys.Base.{
  ℕ, zero, suc, ◌≤◌, ◌≡◌, true, not, ◌||◌, List, [], ◌∷◌, arith, ◌==◌, Bool-cases, inl, inr,
  if_both, if_true, if_false,
}
use blusys.Base.Int.{pos}
use blusys.Hal.Error.{BlusysErr, ok, EspErr}
use blusys.Services.Wifi.Defs.{
  Worker, waiting, delaying, retrying, connecting, calling, exited, Mark, retried, cleared, Wifi,
  retries_left, retry_allowed, finish_connect_wait,
}
use blusys.Services.Wifi.Sections.{
  count_retry, reconnect_step, on_disconnected, on_got_ip, connect_begin, connect_check,
  connect_call, connect_end, disconnect, close_begin, notify_worker,
}
use blusys.Services.Wifi.Run.{
  Section, worker_steps, disconnected, got_ip, connect_begins, connect_checks, connect_calls,
  connect_ends, disconnects, closes, notifies, step, run,
}

-- The retries since the count was last cleared.
unfoldable pub attempts : List Mark → ℕ
attempts [] = 0
attempts (retried ∷ marks) = suc (attempts marks)
attempts (cleared ∷ marks) = 0

-- The count of retries is that of the attempts, and within the limit.
pub record Within (n : ℕ) (w : Wifi) : Type 0 where
  pub limit : w.max_retries ≡ pos n
  pub counted : attempts w.marks ≡ w.retry_count
  pub within : w.retry_count ≤ n

retries_left-lt : (n k : ℕ) → retries_left (pos n) k ≡ true → suc k ≤ n
retries_left-lt zero k h = absurd (ground (arith, h))
retries_left-lt (suc n) k h = ground (arith, h)

count_retry-Within :
    (n : ℕ) (w : Wifi) → Within n w → retry_allowed w ≡ true → Within n (count_retry w)
unfolding count_retry attempts retry_allowed
count_retry-Within n w v h =
    let left : retries_left w.max_retries w.retry_count ≡ true = ground (arith, h) in
    let below = retries_left-lt n w.retry_count (rw v.limit at left) in
    record { limit = v.limit; counted = ground (arith, v.counted); within = omega (arith, below) }

reconnect_step-Within :
    (n : ℕ) (k : Worker) (lock_err : BlusysErr) (esp_err : EspErr) (w : Wifi)
    → Within n w
    → Within n (reconnect_step k lock_err esp_err w)
unfolding reconnect_step
reconnect_step-Within n waiting lock_err esp_err w v = ground (arith, v)
reconnect_step-Within n delaying lock_err esp_err w v =
    if_both (Within n) (lock_err == ok)
      (elim (Bool-cases (w.closing || not (retry_allowed w))) [
        | inl e ↦ if_true (Within n) (w.closing || not (retry_allowed w)) _ _ e (ground (arith, v))
        | inr e ↦
            if_false (Within n) (w.closing || not (retry_allowed w)) _ _ e
              (count_retry-Within n w v (ground (arith, e)))
      ])
      (ground (arith, v))
reconnect_step-Within n retrying lock_err esp_err w v = ground (arith, v)
reconnect_step-Within n connecting lock_err esp_err w v = ground (arith, v)
reconnect_step-Within n calling lock_err esp_err w v = ground (arith, v)
reconnect_step-Within n exited lock_err esp_err w v = v

step-Within : (n : ℕ) (s : Section) (w : Wifi) → Within n w → Within n (step s w)
unfolding step on_disconnected on_got_ip connect_begin connect_check connect_call connect_end
    disconnect close_begin notify_worker finish_connect_wait attempts
step-Within n (worker_steps lock_err esp_err) w v =
    reconnect_step-Within n w.worker lock_err esp_err w v
step-Within n (disconnected lock_err disc) w v = ground (arith, v)
step-Within n (got_ip lock_err) w v = ground (arith, v)
step-Within n (connect_begins lock_err) w v = ground (arith, v)
step-Within n (connect_checks lock_err) w v = ground (arith, v)
step-Within n (connect_calls esp_err) w v = ground (arith, v)
step-Within n connect_ends w v = ground (arith, v)
step-Within n (disconnects lock_err) w v = ground (arith, v)
step-Within n (closes lock_err) w v = ground (arith, v)
step-Within n notifies w v = ground (arith, v)

run-Within : (n : ℕ) (ss : List Section) (w : Wifi) → Within n w → Within n (run ss w)
unfolding run
run-Within n [] w v = v
run-Within n (s ∷ ss) w v = run-Within n ss (step s w) (step-Within n s w v)

-- Whatever the order of the critical sections and whatever fails in them, a station with a limit n on retries has
-- counted at most n of them since the count was last cleared, if that was so before.
pub run-attempts-le :
    (n : ℕ) (ss : List Section) (w : Wifi)
    → w.max_retries ≡ pos n
    → attempts w.marks ≡ w.retry_count
    → w.retry_count ≤ n
    → attempts (run ss w).marks ≤ n
run-attempts-le n ss w limit counted within =
    let v = run-Within n ss w (record { limit = limit; counted = counted; within = within }) in
    omega (arith, v.counted, v.within)
