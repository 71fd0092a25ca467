-- ===== src/Operator/Acks/Complete.antt =====
-- The responses of all the clients of all the servers bring the callback of `emit` its call.
use mathlib.Core.List.{append_assoc, append-nil}
use socket_io_deno.Common.{
  ℕ, ◌+◌, ◌≤◌, true, false, some, List, [], ◌∷◌, ◌++◌, length, length-append, ◌≡◌, refl, sym, ap,
  ◌∙◌, arith, Bool-cases, inl, inr,
}
use socket_io_deno.Operator.Acks.{
  in_time, Waiting, started, is_count, is_complete, check_completeness, on_client_count,
  on_client_response, on_server_count, Happening, client_count, server_count, client_response,
  time_over, step, run,
}
use socket_io_deno.Operator.Acks.Once.{
  Phase, pending, over, done, server_counts, run-started-Phase, run-append, note_client_count,
  note_response, note_server_count,
}

-- What came in: the servers that reported, the clients that they notified, the responses.
abbrev pub reports : {V : Type 0} → List (Happening V) → ℕ
reports [] = 0
reports (client_count n ∷ rest) = 1 + reports rest
reports (_ ∷ rest) = reports rest

abbrev pub clients : {V : Type 0} → List (Happening V) → ℕ
clients [] = 0
clients (client_count n ∷ rest) = n + clients rest
clients (_ ∷ rest) = clients rest

abbrev pub responses_of : {V : Type 0} → List (Happening V) → List V
responses_of [] = []
responses_of (client_response v ∷ rest) = v ∷ responses_of rest
responses_of (_ ∷ rest) = responses_of rest

-- Neither the number of servers nor the end of the delay.
abbrev pub IsReply : {V : Type 0} → List (Happening V) → Type 0
IsReply [] = Unit
IsReply (client_count n ∷ rest) = IsReply rest
IsReply (client_response v ∷ rest) = IsReply rest
IsReply (server_count n ∷ rest) = ⊥
IsReply (time_over ∷ rest) = ⊥

true-false : ¬ (true ≡ false)
true-false e = cc

some_same : {m n : ℕ} → some m ≡ some n → m ≡ n
some_same e = cc

module _ {V : Type 0} where
  -- The state without the timer and the calls.
  abbrev core : Waiting V → Waiting V
  core w = record w { timer = false; calls = [] }

  core-check : (w : Waiting V) → core (check_completeness w) ≡ core w
  unfolding check_completeness
  core-check w = elim (Bool-cases (is_complete w)) [ inl e ↦ rw e refl | inr e ↦ rw e refl ]

  abbrev with_counts : List V → ℕ → ℕ → Waiting V → Waiting V
  with_counts rs servers expected w = record w {
    responses = rs;
    actual_server_count = servers;
    expected_client_count = expected;
  }

  abbrev totals : List (Happening V) → Waiting V → Waiting V
  totals es w =
      with_counts (w.responses ++ responses_of es) (w.actual_server_count + reports es)
        (w.expected_client_count + clients es) w

  same_counts :
      (w : Waiting V) (rs rs' : List V) (a a' c c' : ℕ)
      → rs ≡ rs'
      → a ≡ a'
      → c ≡ c'
      → with_counts rs a c w ≡ with_counts rs' a' c' w
  same_counts w rs rs' a a' c c' p q r = λ i. with_counts (p i) (q i) (r i) w

  core-run :
      (es : List (Happening V)) (w : Waiting V) → IsReply es → core (run es w) ≡ totals es (core w)
  unfolding run step on_client_count on_client_response
  core-run [] w h =
      same_counts (core w) _ _ _ _ _ _ (sym (append-nil w.responses)) (omega arith) (omega arith)
  core-run (client_count n ∷ rest) w h =
      core-run rest (on_client_count n w) h
      ∙ ap (totals rest) (core-check (note_client_count n w))
      ∙ same_counts (core w) _ _ _ _ _ _ refl (omega arith) (omega arith)
  core-run (client_response v ∷ rest) w h =
      core-run rest (on_client_response v w) h
      ∙ ap (totals rest) (core-check (note_response v w))
      ∙ same_counts (core w) _ _ _ _ _ _ (append_assoc w.responses (v ∷ []) (responses_of rest))
          refl refl
  core-run (server_count n ∷ rest) w h = absurd h
  core-run (time_over ∷ rest) w h = absurd h

  -- The number of servers comes between the others.
  abbrev run_with : List (Happening V) → ℕ → List (Happening V) → Waiting V
  run_with front k back = run (front ++ server_count k ∷ back) started

  core-run_with :
      (front back : List (Happening V)) (k : ℕ)
      → IsReply front
      → IsReply back
      → core (run_with front k back)
        ≡ totals back (note_server_count k (totals front (core started)))
  unfolding step on_server_count run
  core-run_with front back k h l =
      ap core (run-append front (server_count k ∷ back) started)
      ∙ core-run back (on_server_count k (run front started)) l
      ∙ ap (totals back) (core-check (note_server_count k (run front started)))
      ∙ ap (λ w. totals back (note_server_count k w)) (core-run front started h)

  reply-server_counts : (es : List (Happening V)) → IsReply es → server_counts es ≡ 0
  reply-server_counts [] h = refl
  reply-server_counts (client_count n ∷ rest) h = reply-server_counts rest h
  reply-server_counts (client_response v ∷ rest) h = reply-server_counts rest h
  reply-server_counts (server_count n ∷ rest) h = absurd h
  reply-server_counts (time_over ∷ rest) h = absurd h

  server_counts-append :
      (es fs : List (Happening V)) → server_counts (es ++ fs) ≡ server_counts es + server_counts fs
  server_counts-append [] fs = omega arith
  server_counts-append (client_count n ∷ rest) fs = server_counts-append rest fs
  server_counts-append (client_response v ∷ rest) fs = server_counts-append rest fs
  server_counts-append (server_count n ∷ rest) fs = omega (arith, server_counts-append rest fs)
  server_counts-append (time_over ∷ rest) fs = server_counts-append rest fs

  no_more : (more : List V) → length more ≤ 0 → more ≡ []
  no_more [] h = refl
  no_more (v ∷ more) h = absurd (omega arith)

  complete :
      (w : Waiting V)
      → w.timed_out ≡ false
      → is_count w.expected_server_count w.actual_server_count ≡ true
      → length w.responses ≡ w.expected_client_count
      → is_complete w ≡ true
  complete w o s r = rw (o, s) (ground arith)

  -- A state with all responses, in its phase.
  answered :
      (w : Waiting V) (k : ℕ)
      → w.timed_out ≡ false
      → w.expected_server_count ≡ some k
      → w.actual_server_count ≡ k
      → length w.responses ≡ w.expected_client_count
      → Phase w
      → w.calls ≡ in_time w.responses ∷ []
  answered w k o s a r (pending c t o' f) =
      let ready : is_count w.expected_server_count w.actual_server_count ≡ true =
        ap (λ x. is_count x w.actual_server_count) s ∙ ground arith in
      absurd (true-false (sym (complete w o ready r) ∙ f))
  answered w k o s a r (over rs c t o') = absurd (true-false (sym o' ∙ o))
  answered w k o s a r (done k' rs more c t o' s' r' le full) =
      let same : k' ≡ k = some_same (sym s' ∙ s) in
      let most : w.expected_client_count ≤ length rs = full (omega arith) in
      let size : length w.responses ≡ length rs + length more =
        ap length r' ∙ length-append rs more in
      let none_left : more ≡ [] = no_more more (omega arith) in
      c ∙ ap (λ l. in_time l ∷ []) (sym (r' ∙ ap (λ l. rs ++ l) none_left ∙ append-nil rs))

  -- Let every one of `k` servers report once and `serverCount` answer `k`, and let as many responses
  -- come as the reports announce, in any order and before the delay is over. Then the callback has
  -- been called once, without an error and with all the responses in the order they came in.
  pub run_complete :
      (front back : List (Happening V)) (k : ℕ)
      → IsReply front
      → IsReply back
      → reports front + reports back ≡ k
      → length (responses_of front) + length (responses_of back) ≡ clients front + clients back
      → (run (front ++ server_count k ∷ back) started).calls
        ≡ in_time (responses_of front ++ responses_of back) ∷ []
  run_complete front back k h l a r =
      let w : Waiting V = run_with front k back in
      let e = core-run_with front back k h l in
      let rs : w.responses ≡ responses_of front ++ responses_of back =
        ap (λ (x : Waiting V). x.responses) e in
      answered w k (ap (λ (x : Waiting V). x.timed_out) e)
        (ap (λ (x : Waiting V). x.expected_server_count) e)
        (ap (λ (x : Waiting V). x.actual_server_count) e ∙ omega arith)
        (ap length rs
          ∙ length-append (responses_of front) (responses_of back)
          ∙ r
          ∙ sym (ap (λ (x : Waiting V). x.expected_client_count) e ∙ omega arith))
        (run-started-Phase (front ++ server_count k ∷ back) (
          omega (
            arith,
            server_counts-append front (server_count k ∷ back),
            reply-server_counts front h,
            reply-server_counts back l,
          )))
      ∙ ap (λ x. in_time x ∷ []) rs
