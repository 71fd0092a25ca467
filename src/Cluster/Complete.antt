-- ===== src/Cluster/Complete.antt =====
-- The class `Adapter` of packages/socket.io/lib/adapter.ts: `onResponse` until the last response.
use socket_io_deno.Common.{
  ℕ, suc, ◌+◌, Bool, true, false, Option, none, some, List, [], ◌∷◌, ◌++◌, ◌==◌, length,
  if◌then◌else◌, ◌≡◌, refl, ap, sym, ◌∙◌, ◌⊎◌, inl, inr, arith, same, Bool-cases,
}
use mathlib.Core.List.{append-nil, append_assoc}
use socket_io_deno.Common.Dict
use socket_io_deno.Common.KeySet.{has}
use socket_io_deno.Cluster.{
  Reply, argument, Response, fetched, emitted_ack, counted_clients, client_ack, other_response,
  PendingRequest, Sent, resolved, told_count, told_ack, Node, log,
}
use socket_io_deno.Cluster.Handlers.{collect, respond_to, respond_pending, on_response}
use socket_io_deno.Cluster.Settled.{is_outcome, outcomes, outcomes-append}

-- Responses in the order in which they come.
unfoldable pub respond_all :
    {R S N D E I : Type 0}
    → Discrete I
    → List (Response R S D I)
    → Node R S N D E I
    → Node R S N D E I
unfolding on_response
respond_all di [] n = n
respond_all di (r ∷ rest) n = respond_all di rest (on_response di r n)

abbrev pub put_first : {A : Type 0} → Option (List A) → List (List A) → List (List A)
put_first none l = l
put_first (some s) l = s ∷ l

module _ {R S D I : Type 0} (di : Discrete I) where
  -- What a response brings for the request `q`.
  abbrev pub brought : I → Response R S D I → Option (List (Reply R S D))
  brought q (fetched j sockets) = if same di q j then some sockets else none
  brought q (emitted_ack j d) = if same di q j then some (argument d ∷ []) else none
  brought q _ = none

  unfoldable pub brought_all : I → List (Response R S D I) → List (List (Reply R S D))
  brought_all q [] = []
  brought_all q (r ∷ rest) = put_first (brought q r) (brought_all q rest)

unfoldable pub concat : {A : Type 0} → List (List A) → List A
concat [] = []
concat (l ∷ rest) = l ++ concat rest

when-some : {A : Type 0} (b : Bool) (a : A) → (if b then some a else none) ≡ none → b ≡ false
when-some true a h = absurd (cc)
when-some false a h = refl

put_first-nil :
    {A : Type 0} (o : Option (List A)) (l : List (List A))
    → put_first o l ≡ []
    → (o ≡ none) × (l ≡ [])
put_first-nil none l h = (refl, h)
put_first-nil (some s) l h = absurd (cc)

put_first-cons :
    {A : Type 0} (o : Option (List A)) (l : List (List A)) (s : List A) (rest : List (List A))
    → put_first o l ≡ s ∷ rest
    → ((o ≡ none) × (l ≡ s ∷ rest)) ⊎ ((o ≡ some s) × (l ≡ rest))
put_first-cons none l s rest h = inl (refl, h)
put_first-cons (some t) l s rest h = inr (cc, cc)

pub same_self : {I : Type 0} (di : Discrete I) (q : I) → same di q q ≡ true
same_self di q = ground arith

count-path : (m n : ℕ) → m ≡ n → (m == n) ≡ true
count-path m n h = ground (arith, h)

count-less : (m k n : ℕ) → n ≡ m + suc (suc k) → (m + 1 == n) ≡ false
count-less m k n h = ground (arith, h)

same-path : {I : Type 0} (di : Discrete I) (q j : I) → same di q j ≡ true → q ≡ j
same-path di q j h = ground (arith, h)

when-true :
    {A : Type 0} (b : Bool) (a c : A) → (if b then some a else none) ≡ some c → (b ≡ true) × (a ≡ c)
when-true true a c h = (refl, cc)
when-true false a c h = absurd (cc)

module _ {R S N D I : Type 0} (di : Discrete I) where
  pub outcomes-quiet :
      (q : I) (l : List (Sent R S N D I)) (e : Sent R S N D I)
      → is_outcome di q e ≡ false
      → outcomes di q (l ++ e ∷ []) ≡ outcomes di q l
  unfolding outcomes
  outcomes-quiet q l e h = outcomes-append di q l (e ∷ []) ∙ rw h (append-nil (outcomes di q l))

  outcomes-outcome :
      (q : I) (l : List (Sent R S N D I)) (e : Sent R S N D I)
      → is_outcome di q e ≡ true
      → outcomes di q (l ++ e ∷ []) ≡ outcomes di q l ++ e ∷ []
  unfolding outcomes
  outcomes-outcome q l e h = outcomes-append di q l (e ∷ []) ∙ rw h refl

module _ {R S N D E I : Type 0} (di : Discrete I) where
  -- What there is to know of the request `q`.
  abbrev Same : I → Node R S N D E I → Node R S N D E I → Type 0
  Same q n m =
      (outcomes di q m.sent ≡ outcomes di q n.sent)
      × (Dict.get di q m.pending ≡ Dict.get di q n.pending)

  collect-Same :
      (q j : I) (replies : List (Reply R S D)) (p : PendingRequest R S D) (n : Node R S N D E I)
      → same di q j ≡ false
      → Same q n (collect di j replies p n)
  unfolding collect is_outcome
  collect-Same q j replies p n h = elim (Bool-cases (p.current_count + 1 == p.expected_count)) [
    | inl e ↦ rw e (
      outcomes-quiet di q n.sent (resolved p.method j (p.responses ++ replies)) h,
      Dict.get-delete di q j n.pending ∙ rw h refl,
    )
    | inr e ↦ rw e (refl, Dict.get-set di q j _ n.pending ∙ rw h refl)
  ]

  respond_to-Same :
      (q j : I) (replies : List (Reply R S D)) (o : Option (PendingRequest R S D))
      (n : Node R S N D E I)
      → same di q j ≡ false
      → Same q n (respond_to di j replies o n)
  respond_to-Same q j replies none n h = (refl, refl)
  respond_to-Same q j replies (some p) n h = collect-Same q j replies p n h

  told-Same :
      (q : I) (b : Bool) (e : Sent R S N D I) (n : Node R S N D E I)
      → is_outcome di q e ≡ false
      → Same q n (if b then log e n else n)
  told-Same q true e n h = (outcomes-quiet di q n.sent e h, refl)
  told-Same q false e n h = (refl, refl)

  -- A response for another request changes nothing here.
  on_response-Same :
      (q : I) (r : Response R S D I) (n : Node R S N D E I)
      → brought di q r ≡ none
      → Same q n (on_response di r n)
  unfolding on_response is_outcome
  on_response-Same q (fetched j sockets) n h =
      respond_to-Same q j sockets (Dict.get di j n.pending) n (when-some (same di q j) sockets h)
  on_response-Same q (emitted_ack j d) n h =
      respond_to-Same q j (argument d ∷ []) (Dict.get di j n.pending) n
        (when-some (same di q j) (argument d ∷ []) h)
  on_response-Same q (counted_clients j count) n h =
      told-Same q (has di j n.ack_requests) (told_count j count) n refl
  on_response-Same q (client_ack j d) n h =
      told-Same q (has di j n.ack_requests) (told_ack j d) n refl
  on_response-Same q (other_response j) n h = (refl, refl)

  -- A response for this request.
  on_response-pending :
      (q : I) (r : Response R S D I) (s : List (Reply R S D)) (n : Node R S N D E I)
      → brought di q r ≡ some s
      → on_response di r n ≡ respond_pending di q s n
  unfolding on_response
  on_response-pending q (fetched j sockets) s n h =
      let (e, k) = when-true (same di q j) sockets s h in rw (same-path di q j e, k) refl
  on_response-pending q (emitted_ack j d) s n h =
      let (e, k) = when-true (same di q j) (argument d ∷ []) s h in rw (same-path di q j e, k) refl
  on_response-pending q (counted_clients j count) s n h = absurd (cc)
  on_response-pending q (client_ack j d) s n h = absurd (cc)
  on_response-pending q (other_response j) s n h = absurd (cc)

  respond_all-Same :
      (q : I) (l : List (Response R S D I)) (n : Node R S N D E I)
      → brought_all di q l ≡ []
      → Same q n (respond_all di l n)
  unfolding respond_all brought_all
  respond_all-Same q [] n h = (refl, refl)
  respond_all-Same q (r ∷ l) n h =
      let (e, k) = put_first-nil (brought di q r) (brought_all di q l) h in
      let (a, b) = on_response-Same q r n e in
      let (c, d) = respond_all-Same q l (on_response di r n) k in (c ∙ a, d ∙ b)

  -- The last response, and one that is not the last.
  collect-last :
      (q : I) (s : List (Reply R S D)) (p : PendingRequest R S D) (n : Node R S N D E I)
      → p.expected_count ≡ p.current_count + 1
      → outcomes di q (collect di q s p n).sent
        ≡ outcomes di q n.sent ++ resolved p.method q (p.responses ++ s) ∷ []
  unfolding collect is_outcome
  collect-last q s p n h =
      rw (count-path (p.current_count + 1) p.expected_count (sym h))
        (outcomes-outcome di q n.sent (resolved p.method q (p.responses ++ s)) (same_self di q))

  collect-more :
      (q : I) (s : List (Reply R S D)) (p : PendingRequest R S D) (n : Node R S N D E I) (k : ℕ)
      → p.expected_count ≡ p.current_count + suc (suc k)
      → let m = collect di q s p n in
        (outcomes di q m.sent ≡ outcomes di q n.sent)
        × (Dict.get di q m.pending
            ≡ some (record p { current_count = p.current_count + 1; responses = p.responses ++ s }))
  unfolding collect
  collect-more q s p n k h =
      rw (count-less p.current_count k p.expected_count h)
        (refl, Dict.get-set di q q _ n.pending ∙ rw (same_self di q) refl)

  collected :
      (q : I) (l : List (Response R S D I)) (s : List (Reply R S D))
      (rest : List (List (Reply R S D))) (p : PendingRequest R S D) (n : Node R S N D E I)
      → brought_all di q l ≡ rest
      → p.expected_count ≡ p.current_count + length (s ∷ rest)
      → ((s : List (Reply R S D)) (rest : List (List (Reply R S D))) (p : PendingRequest R S D)
            (n : Node R S N D E I)
          → brought_all di q l ≡ s ∷ rest
          → Dict.get di q n.pending ≡ some p
          → p.expected_count ≡ p.current_count + length (s ∷ rest)
          → outcomes di q (respond_all di l n).sent
            ≡ outcomes di q n.sent ++ resolved p.method q (p.responses ++ concat (s ∷ rest)) ∷ [])
      → outcomes di q (respond_all di l (collect di q s p n)).sent
        ≡ outcomes di q n.sent ++ resolved p.method q (p.responses ++ concat (s ∷ rest)) ∷ []
  unfolding concat
  collected q l s [] p n k h later =
      (respond_all-Same q l (collect di q s p n) k).0
      ∙ collect-last q s p n h
      ∙ ap (λ t. outcomes di q n.sent ++ resolved p.method q (p.responses ++ t) ∷ [])
          (sym (append-nil s))
  collected q l s (t ∷ rest) p n k h later =
      let m = collect di q s p n in
      let p' = record p { current_count = p.current_count + 1; responses = p.responses ++ s } in
      let (a, c) = collect-more q s p n (length rest) h in
      later t rest p' m k c (omega (arith, h))
      ∙ ap (λ o. o ++ resolved p.method q ((p.responses ++ s) ++ concat (t ∷ rest)) ∷ []) a
      ∙ ap (λ u. outcomes di q n.sent ++ resolved p.method q u ∷ [])
          (append_assoc p.responses s (concat (t ∷ rest)))

  -- A request is pending, and as many responses come for it as it still expects, in between
  -- responses for other requests.
  pub respond_all-resolved :
      (q : I) (l : List (Response R S D I)) (s : List (Reply R S D))
      (rest : List (List (Reply R S D))) (p : PendingRequest R S D) (n : Node R S N D E I)
      → brought_all di q l ≡ s ∷ rest
      → Dict.get di q n.pending ≡ some p
      → p.expected_count ≡ p.current_count + length (s ∷ rest)
      → outcomes di q (respond_all di l n).sent
        ≡ outcomes di q n.sent ++ resolved p.method q (p.responses ++ concat (s ∷ rest)) ∷ []
  unfolding respond_all brought_all concat
  respond_all-resolved q [] s rest p n b g h = absurd (cc)
  respond_all-resolved q (r ∷ l) s rest p n b g h =
      elim (put_first-cons (brought di q r) (brought_all di q l) s rest b) [
        | inl (e, k) ↦
            let (a, c) = on_response-Same q r n e in
            respond_all-resolved q l s rest p (on_response di r n) k (c ∙ g) h
            ∙ ap (λ o. o ++ resolved p.method q (p.responses ++ concat (s ∷ rest)) ∷ []) a
        | inr (e, k) ↦
            ap (λ m. outcomes di q (respond_all di l m).sent)
              (on_response-pending q r s n e ∙ ap (λ o. respond_to di q s o n) g)
            ∙ collected q l s rest p n k h (respond_all-resolved q l)
      ]
