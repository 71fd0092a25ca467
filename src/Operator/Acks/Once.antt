-- ===== src/Operator/Acks/Once.antt =====
-- How often the callback of `emit` is called, and with what.
use mathlib.Core.List.{append_assoc, append-nil}
use socket_io_deno.Common.{
  ℕ, ◌+◌, ◌≤◌, ◌<◌, Bool, true, false, not, ◌&&◌, Option, none, some, List, [], ◌∷◌, ◌++◌, ◌==◌,
  length, length-append, ◌≡◌, inl, inr, refl, sym, ap, ◌∙◌, arith, Bool-cases,
}
use socket_io_deno.Operator.Acks.{
  in_time, too_late, Waiting, started, is_count, is_complete, check_completeness, on_client_count,
  on_client_response, on_server_count, on_timer, Happening, client_count, server_count,
  client_response, time_over, step, run,
}

-- The three phases: nothing is complete, the time was over first, or all was complete first. In the
-- last, `k` servers were expected, and what comes later can make nothing complete again.
pub data Phase {V : Type 0} (w : Waiting V) : Type 0 where
  pending : w.calls ≡ [] → w.timer ≡ true → w.timed_out ≡ false → is_complete w ≡ false → Phase w
  over : (rs : List V) → w.calls ≡ too_late rs ∷ [] → w.timer ≡ false → w.timed_out ≡ true → Phase w
  done :
      (k : ℕ) (rs more : List V)
      → w.calls ≡ in_time rs ∷ []
      → w.timer ≡ false
      → w.timed_out ≡ false
      → w.expected_server_count ≡ some k
      → w.responses ≡ rs ++ more
      → k ≤ w.actual_server_count
      → (k ≡ w.actual_server_count → w.expected_client_count ≤ length rs)
      → Phase w

is_count_lem : (o : Option ℕ) (n : ℕ) → is_count o n ≡ true → o ≡ some n
is_count_lem none n h = absurd (false-ne-true h)
  where
    false-ne-true : ¬ (false ≡ true)
    false-ne-true e = cc
is_count_lem (some m) n h = ap some (ground arith)

both : (a b : Bool) → (a && b) ≡ true → (a ≡ true) × (b ≡ true)
both a b h = (ground arith, ground arith)

pub none-some : {o : Option ℕ} {k : ℕ} → o ≡ none → ¬ (o ≡ some k)
none-some e f = cc

module _ {V : Type 0} where
  abbrev pub note_client_count : ℕ → Waiting V → Waiting V
  note_client_count n w = record w {
    expected_client_count = w.expected_client_count + n;
    actual_server_count = w.actual_server_count + 1;
  }

  abbrev pub note_response : V → Waiting V → Waiting V
  note_response v w = record w { responses = w.responses ++ v ∷ [] }

  abbrev pub note_server_count : ℕ → Waiting V → Waiting V
  note_server_count n w = record w { expected_server_count = some n }

  -- What `checkCompleteness` does before the callback was called.
  check-pending :
      (w : Waiting V)
      → w.calls ≡ []
      → w.timer ≡ true
      → w.timed_out ≡ false
      → Phase (check_completeness w)
  unfolding check_completeness
  check-pending w c t o = elim (Bool-cases (is_complete w)) [
    | inr e ↦ rw e (pending c t o e)
    | inl e ↦
        let (counted, clients) =
          both (not w.timed_out && is_count w.expected_server_count w.actual_server_count)
            (length w.responses == w.expected_client_count) e in
        let (_, servers) =
          both (not w.timed_out) (is_count w.expected_server_count w.actual_server_count) counted in
        rw e (
          done w.actual_server_count w.responses [] (ap (λ l. l ++ in_time w.responses ∷ []) c) refl
            o (is_count_lem w.expected_server_count w.actual_server_count servers)
            (sym (append-nil w.responses)) (omega arith) (λ _. ground arith))
  ]

  check-over :
      (rs : List V) (w : Waiting V)
      → w.calls ≡ too_late rs ∷ []
      → w.timer ≡ false
      → w.timed_out ≡ true
      → Phase (check_completeness w)
  unfolding check_completeness
  check-over rs w c t o = let e : is_complete w ≡ false = ground arith in rw e (over rs c t o)

  check-done :
      (k : ℕ) (rs more : List V) (w : Waiting V)
      → w.calls ≡ in_time rs ∷ []
      → w.timer ≡ false
      → w.timed_out ≡ false
      → w.expected_server_count ≡ some k
      → w.responses ≡ rs ++ more
      → k ≤ w.actual_server_count
      → (k ≡ w.actual_server_count → w.expected_client_count ≤ length rs)
      → is_complete w ≡ false
      → Phase (check_completeness w)
  unfolding check_completeness
  check-done k rs more w c t o s r le full e = rw e (done k rs more c t o s r le full)

  -- One server more than expected, and one response more.
  too_many :
      (w : Waiting V) (n k : ℕ)
      → w.expected_server_count ≡ some k
      → k ≤ w.actual_server_count
      → is_complete (note_client_count n w) ≡ false
  too_many w n k s le =
      let e : is_count w.expected_server_count (w.actual_server_count + 1) ≡ false =
        ap (λ o. is_count o (w.actual_server_count + 1)) s ∙ ground arith in
      rw e (ground arith)

  surplus :
      (w : Waiting V) (k : ℕ) (rs more : List V) (v : V)
      → w.expected_server_count ≡ some k
      → w.responses ≡ rs ++ more
      → (k ≡ w.actual_server_count → w.expected_client_count ≤ length rs)
      → is_complete (note_response v w) ≡ false
  surplus w k rs more v s r full = elim (Bool-cases (k == w.actual_server_count)) [
    | inl e ↦
        let most : w.expected_client_count ≤ length rs = full (ground arith) in
        let size : length w.responses ≡ length rs + length more =
          ap length r ∙ length-append rs more in
        ground (arith, length-append w.responses (v ∷ []))
    | inr e ↦
        let other : is_count w.expected_server_count w.actual_server_count ≡ false =
          ap (λ o. is_count o w.actual_server_count) s ∙ e in
        rw other (ground arith)
  ]

  -- `serverCount` answers once.
  abbrev pub MayCome : Happening V → Waiting V → Type 0
  MayCome (server_count n) w = w.expected_server_count ≡ none
  MayCome _ w = Unit

  step-Phase : (e : Happening V) (w : Waiting V) → MayCome e w → Phase w → Phase (step e w)
  unfolding step on_client_count on_client_response on_server_count on_timer
  step-Phase (client_count n) w m (pending c t o f) = check-pending (note_client_count n w) c t o
  step-Phase (server_count n) w m (pending c t o f) = check-pending (note_server_count n w) c t o
  step-Phase (client_response v) w m (pending c t o f) = check-pending (note_response v w) c t o
  step-Phase time_over w m (pending c t o f) =
      rw t (over w.responses (ap (λ l. l ++ too_late w.responses ∷ []) c) refl refl)
  step-Phase (client_count n) w m (over rs c t o) = check-over rs (note_client_count n w) c t o
  step-Phase (server_count n) w m (over rs c t o) = check-over rs (note_server_count n w) c t o
  step-Phase (client_response v) w m (over rs c t o) = check-over rs (note_response v w) c t o
  step-Phase time_over w m (over rs c t o) = simp t (over rs c t o)
  step-Phase (client_count n) w m (done k rs more c t o s r le full) =
      check-done k rs more (note_client_count n w) c t o s r (omega arith)
        (λ e. absurd (omega arith)) (too_many w n k s le)
  step-Phase (server_count n) w m (done k rs more c t o s r le full) = absurd (none-some m s)
  step-Phase (client_response v) w m (done k rs more c t o s r le full) =
      check-done k rs (more ++ v ∷ []) (note_response v w) c t o s
        (ap (λ l. l ++ v ∷ []) r ∙ append_assoc rs more (v ∷ [])) le full
        (surplus w k rs more v s r full)
  step-Phase time_over w m (done k rs more c t o s r le full) =
      simp t (done k rs more c t o s r le full)

-- How often `serverCount` may still answer.
abbrev pub server_counts : {V : Type 0} → List (Happening V) → ℕ
server_counts [] = 0
server_counts (server_count n ∷ rest) = 1 + server_counts rest
server_counts (_ ∷ rest) = server_counts rest

abbrev counted : Option ℕ → ℕ
counted none = 0
counted (some n) = 1

none_counted : (o : Option ℕ) → counted o < 1 → o ≡ none
none_counted none h = refl
none_counted (some n) h = absurd (omega arith)

module _ {V : Type 0} where
  same_servers :
      (w : Waiting V) → (check_completeness w).expected_server_count ≡ w.expected_server_count
  unfolding check_completeness
  same_servers w = ground arith

  timer_servers : (w : Waiting V) → (on_timer w).expected_server_count ≡ w.expected_server_count
  unfolding on_timer
  timer_servers w = ground arith

  may_come :
      (e : Happening V) (rest : List (Happening V)) (w : Waiting V)
      → counted w.expected_server_count + server_counts (e ∷ rest) ≤ 1
      → MayCome e w × (counted (step e w).expected_server_count + server_counts rest ≤ 1)
  unfolding step on_client_count on_client_response on_server_count
  may_come (client_count n) rest w h = (tt, rw (same_servers (note_client_count n w)) h)
  may_come (server_count n) rest w h = (
    none_counted w.expected_server_count (omega arith),
    rw (same_servers (note_server_count n w)) (omega arith),
  )
  may_come (client_response v) rest w h = (tt, rw (same_servers (note_response v w)) h)
  may_come time_over rest w h = (tt, rw (timer_servers w) h)

  run-Phase :
      (es : List (Happening V)) (w : Waiting V)
      → counted w.expected_server_count + server_counts es ≤ 1
      → Phase w
      → Phase (run es w)
  unfolding run
  run-Phase [] w h p = p
  run-Phase (e ∷ rest) w h p =
      let (m, l) = may_come e rest w h in run-Phase rest (step e w) l (step-Phase e w m p)

  started-Phase : Phase (started {V = V})
  started-Phase = pending refl refl refl refl

  pub run-started-Phase :
      (es : List (Happening V)) → server_counts es ≤ 1 → Phase (run es (started {V = V}))
  run-started-Phase es h = run-Phase es started (omega arith) started-Phase

  pub run-append :
      (es fs : List (Happening V)) (w : Waiting V) → run (es ++ fs) w ≡ run fs (run es w)
  unfolding run
  run-append [] fs w = refl
  run-append (e ∷ es) fs w = run-append es fs (step e w)

  timer-calls : (w : Waiting V) → Phase w → length ((on_timer w).calls) ≡ 1
  unfolding on_timer
  timer-calls w (pending c t o f) = rw (t, c) refl
  timer-calls w (over rs c t o) = simp (t, c)
  timer-calls w (done k rs more c t o s r le full) = simp (t, c)

  -- Whatever comes in, in whatever order, if the number of servers comes at most once, then the
  -- callback has been called exactly once when the delay is over.
  pub run-time_over-once :
      (es : List (Happening V))
      → server_counts es ≤ 1
      → length ((run (es ++ time_over ∷ []) started).calls) ≡ 1
  unfolding run step
  run-time_over-once es h =
      ap (λ (w : Waiting V). length (w.calls)) (run-append es (time_over ∷ []) started)
      ∙ timer-calls (run es started) (run-started-Phase es h)
