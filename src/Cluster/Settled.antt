-- ===== src/Cluster/Settled.antt =====
-- The class `Adapter` of packages/socket.io/lib/adapter.ts: how often `fetchSockets` and
-- `serverSideEmit` with an acknowledgement come to an end.
use socket_io_deno.Common.{
  ℕ, ◌+◌, ◌-◌, ◌≤◌, Bool, false, Option, none, some, List, [], ◌∷◌, ◌++◌, ◌==◌, length,
  length-append, if◌then◌else◌, ◌≡◌, refl, ap, ◌∙◌, inl, inr, arith, same, Bool-cases,
}
use socket_io_deno.Common.Dict
use socket_io_deno.Common.Dict.{keys}
use socket_io_deno.Common.Flags.{flag, flag-delete, flag-set, flag-new}
use socket_io_deno.Common.KeySet.{has}
use socket_io_deno.Cluster.{
  Sent, resolved, timed_out, Node, log, Reply, Method, fetching, emitting, PendingRequest, Counting,
  counting_fetch, counting_emit,
}
use socket_io_deno.Cluster.Handlers.{
  wait, go_on, on_server_count, counted, give_up, on_timer, collect, respond_to, respond_pending,
}

module _ {R S N D I : Type 0} (di : Discrete I) where
  -- The promise or the callback of the call `q` is settled.
  unfoldable pub is_outcome : I → Sent R S N D I → Bool
  is_outcome q (resolved method j replies) = same di q j
  is_outcome q (timed_out method j current expected replies) = same di q j
  is_outcome q _ = false

  unfoldable pub outcomes : I → List (Sent R S N D I) → List (Sent R S N D I)
  unfolding is_outcome
  outcomes q [] = []
  outcomes q (e ∷ l) = let rest = outcomes q l in if is_outcome q e then e ∷ rest else rest

  pub outcomes-append :
      (q : I) (l k : List (Sent R S N D I)) → outcomes q (l ++ k) ≡ outcomes q l ++ outcomes q k
  unfolding outcomes
  outcomes-append q [] k = refl
  outcomes-append q (e ∷ l) k = elim (Bool-cases (is_outcome q e)) [
    | inl h ↦ rw (h, outcomes-append q l k) refl
    | inr h ↦ rw (h, outcomes-append q l k) refl
  ]

  length-outcome :
      (q : I) (e : Sent R S N D I) → length (outcomes q (e ∷ [])) ≡ flag (is_outcome q e)
  unfolding outcomes
  length-outcome q e = elim (Bool-cases (is_outcome q e)) [ inl h ↦ rw h refl | inr h ↦ rw h refl ]

  length-outcomes :
      (q : I) (l : List (Sent R S N D I)) (e : Sent R S N D I)
      → length (outcomes q (l ++ e ∷ [])) ≡ length (outcomes q l) + flag (is_outcome q e)
  unfolding outcomes
  length-outcomes q l e =
      ap length (outcomes-append q l (e ∷ []))
      ∙ length-append (outcomes q l) (outcomes q (e ∷ []))
      ∙ ap (λ k. length (outcomes q l) + k) (length-outcome q e)

module _ {R S N D E I : Type 0} (di : Discrete I) where
  -- Whether the call waits, for `serverCount()` or for the other servers.
  abbrev pub waiting : I → Node R S N D E I → ℕ
  waiting q n = flag (has di q (keys n.counting)) + flag (has di q (keys n.pending))

  unfoldable pub total : I → Node R S N D E I → ℕ
  unfolding outcomes has
  total q n = length (outcomes di q n.sent) + waiting q n

  pub total-log :
      (q : I) (e : Sent R S N D I) (n : Node R S N D E I)
      → total q (log e n) ≡ total q n + flag (is_outcome di q e)
  unfolding total
  total-log q e n = omega (arith, length-outcomes di q n.sent e)

  total-collect :
      (q j : I) (replies : List (Reply R S D)) (p : PendingRequest R S D) (n : Node R S N D E I)
      → Dict.get di j n.pending ≡ some p
      → total q (collect di j replies p n) ≡ total q n
  unfolding collect total is_outcome
  total-collect q j replies p n h = elim (Bool-cases (p.current_count + 1 == p.expected_count)) [
    | inl e ↦ rw e (
        total-log q (resolved p.method j (p.responses ++ replies))
          (record n { pending = Dict.delete di j n.pending })
        ∙ omega (arith, flag-delete di q j p n.pending h))
    | inr e ↦ rw e (
        omega (
          arith,
          flag-set di q j p
              (record p { current_count = p.current_count + 1; responses = p.responses ++ replies })
              n.pending h,
        ))
  ]

  total-give_up :
      (q j : I) (o : Option (PendingRequest R S D)) (n : Node R S N D E I)
      → Dict.get di j n.pending ≡ o
      → total q (give_up di j o n) ≡ total q n
  unfolding total is_outcome
  total-give_up q j none n e = refl
  total-give_up q j (some p) n e =
      total-log q (timed_out p.method j p.current_count p.expected_count p.responses)
        (record n { pending = Dict.delete di j n.pending })
      ∙ omega (arith, flag-delete di q j p n.pending e)

  pub total-timer : (q j : I) (n : Node R S N D E I) → total q (on_timer di j n) ≡ total q n
  unfolding on_timer
  total-timer q j n = total-give_up q j (Dict.get di j n.pending) n refl

  total-respond_to :
      (q j : I) (replies : List (Reply R S D)) (o : Option (PendingRequest R S D))
      (n : Node R S N D E I)
      → Dict.get di j n.pending ≡ o
      → total q (respond_to di j replies o n) ≡ total q n
  total-respond_to q j replies none n e = refl
  total-respond_to q j replies (some p) n e = total-collect q j replies p n e

  pub total-respond :
      (q j : I) (replies : List (Reply R S D)) (n : Node R S N D E I)
      → total q (respond_pending di j replies n) ≡ total q n
  total-respond q j replies n = total-respond_to q j replies (Dict.get di j n.pending) n refl

  -- A call that is not known starts to wait, or is settled at once.
  pub total-counting :
      (q j : I) (c : Counting R S D) (n : Node R S N D E I)
      → total q n + flag (same di q j) ≤ 1
      → total q (record n { counting = Dict.set di j c n.counting })
        ≡ total q n + flag (same di q j)
  unfolding total
  total-counting q j c n h = omega (arith, flag-new di q j c n.counting (omega (arith, h)))

  total-wait :
      (q j : I) (method : Method) (count : ℕ) (found : List (Reply R S D)) (n : Node R S N D E I)
      → total q n + flag (same di q j) ≤ 1
      → total q (wait di method j count found n) ≡ total q n + flag (same di q j)
  unfolding total
  total-wait q j method count found n h =
      omega (arith, flag-new di q j _ n.pending (omega (arith, h)))

  total-counted :
      (q j : I) (c : Counting R S D) (servers : ℕ) (n : Node R S N D E I)
      → total q n + flag (same di q j) ≤ 1
      → total q (counted di c j servers n) ≡ total q n + flag (same di q j)
  unfolding counted is_outcome
  total-counted q j (counting_fetch rooms except found) servers n h =
      elim (Bool-cases (servers == 1)) [
        | inl e ↦ rw e (total-log q _ n)
        | inr e ↦
            rw e (total-log q _ _ ∙ omega (arith, total-wait q j fetching (servers - 1) _ n h))
      ]
  total-counted q j (counting_emit packet) servers n h = elim (Bool-cases (servers == 1)) [
    | inl e ↦ rw e (total-log q _ n)
    | inr e ↦ rw e (total-log q _ _ ∙ omega (arith, total-wait q j emitting (servers - 1) [] n h))
  ]

  -- What was counting is taken out, and starts to wait or is settled.
  total-go_on :
      (q j : I) (servers : ℕ) (o : Option (Counting R S D)) (n : Node R S N D E I)
      → Dict.get di j n.counting ≡ o
      → total q n ≤ 1
      → total q (go_on di j servers o n) ≡ total q n
  unfolding total
  total-go_on q j servers none n e h = refl
  total-go_on q j servers (some c) n e h =
      let k = flag-delete di q j c n.counting e in
      let rest = record n { counting = Dict.delete di j n.counting } in
      total-counted q j c servers rest (omega (arith, k, h)) ∙ omega (arith, k)

  pub total-server_count :
      (q j : I) (servers : ℕ) (n : Node R S N D E I)
      → total q n ≤ 1
      → total q (on_server_count di j servers n) ≡ total q n
  unfolding on_server_count
  total-server_count q j servers n h = total-go_on q j servers (Dict.get di j n.counting) n refl h
