-- ===== src/Operator/Acks.antt =====
-- `emit` with a callback, in packages/socket.io/lib/broadcast-operator.ts: what is counted until the
-- callback is called. A call of the callback is logged with the responses that there were then; the
-- array it gets goes on growing.
pub mod Once
pub mod Complete
use socket_io_deno.Common.{
  ℕ, ◌+◌, Bool, true, false, not, ◌&&◌, Option, none, some, List, [], ◌∷◌, ◌++◌, ◌==◌, length,
  if◌then◌else◌,
}

-- `ack(null, responses)` and `ack(new Error("operation has timed out"), responses)`
pub data Answer (V : Type 0) : Type 0 where
  in_time too_late : List V → Answer V

-- The variables of the call. `none` is the -1 of `expectedServerCount`.
pub record Waiting (V : Type 0) : Type 0 where
  pub timed_out : Bool
  pub timer : Bool
  pub responses : List V
  pub expected_server_count : Option ℕ
  pub actual_server_count : ℕ
  pub expected_client_count : ℕ
  pub calls : List (Answer V)

abbrev pub started : {V : Type 0} → Waiting V
started = record {
  timed_out = false;
  timer = true;
  responses = [];
  expected_server_count = none;
  actual_server_count = 0;
  expected_client_count = 0;
  calls = [];
}

abbrev pub is_count : Option ℕ → ℕ → Bool
is_count none n = false
is_count (some m) n = m == n

module _ {V : Type 0} where
  abbrev pub is_complete : Waiting V → Bool
  is_complete w =
      not w.timed_out
      && is_count w.expected_server_count w.actual_server_count
      && length w.responses == w.expected_client_count

  unfoldable pub check_completeness : Waiting V → Waiting V
  check_completeness w =
      if is_complete w
      then record w { timer = false; calls = w.calls ++ in_time w.responses ∷ [] }
      else w

  -- The callbacks of `broadcastWithAck`, of `serverCount` and of the timer.
  unfoldable pub on_client_count : ℕ → Waiting V → Waiting V
  unfolding check_completeness
  on_client_count n w = check_completeness (record w {
    expected_client_count = w.expected_client_count + n;
    actual_server_count = w.actual_server_count + 1;
  })

  unfoldable pub on_client_response : V → Waiting V → Waiting V
  unfolding check_completeness
  on_client_response v w = check_completeness (record w { responses = w.responses ++ v ∷ [] })

  unfoldable pub on_server_count : ℕ → Waiting V → Waiting V
  unfolding check_completeness
  on_server_count n w = check_completeness (record w { expected_server_count = some n })

  unfoldable pub on_timer : Waiting V → Waiting V
  on_timer w =
      if w.timer
      then record w {
        timed_out = true;
        timer = false;
        calls = w.calls ++ too_late w.responses ∷ [];
      }
      else w

-- What may come in, in any order.
pub data Happening (V : Type 0) : Type 0 where
  client_count server_count : ℕ → Happening V
  client_response : V → Happening V
  time_over : Happening V

unfoldable pub step : {V : Type 0} → Happening V → Waiting V → Waiting V
unfolding on_client_count on_client_response on_server_count on_timer
step (client_count n) w = on_client_count n w
step (server_count n) w = on_server_count n w
step (client_response v) w = on_client_response v w
step time_over w = on_timer w

unfoldable pub run : {V : Type 0} → List (Happening V) → Waiting V → Waiting V
unfolding step
run [] w = w
run (e ∷ rest) w = run rest (step e w)
