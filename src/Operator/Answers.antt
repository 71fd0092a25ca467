-- ===== src/Operator/Answers.antt =====
-- `emit` with a callback on the adapter in memory, from the call to the last response.
use socket_io_deno.Common.{
  ℕ, false, none, some, List, [], ◌∷◌, length, ◌≡◌, refl, sym, ap, ◌∙◌, arith,
}
use socket_io_deno.Adapter.Broadcast.{
  Packet, Hub, broadcast_with_ack, broadcast_with_ack-fetch_sockets,
}
use socket_io_deno.Operator.{
  Operator, options, EventName, is_reserved, Argument, pop_ack, Emitted, refused, sent, waiting,
  emit, fetch,
}
use socket_io_deno.Operator.Acks.{
  Answer, in_time, started, on_client_count, Happening, client_count, server_count, client_response,
  run, step,
}
use socket_io_deno.Operator.Acks.Complete.{reports, clients, responses_of, IsReply, run_complete}

-- The calls of the callback, when this comes in behind `emit`.
abbrev pub answers : {H V F : Type 0} → Emitted H V F → List (Happening V) → List (Answer V)
answers refused es = []
answers (sent h) es = []
answers (waiting h w f) es = (run es w).calls

abbrev pub replies : {V : Type 0} → List V → List (Happening V)
replies [] = []
replies (v ∷ rest) = client_response v ∷ replies rest

module _ {V : Type 0} where
  replies-IsReply : (rs : List V) → IsReply (replies rs)
  replies-IsReply [] = tt
  replies-IsReply (v ∷ rs) = replies-IsReply rs

  reports-replies : (rs : List V) → reports (replies rs) ≡ 0
  reports-replies [] = refl
  reports-replies (v ∷ rs) = reports-replies rs

  clients-replies : (rs : List V) → clients (replies rs) ≡ 0
  clients-replies [] = refl
  clients-replies (v ∷ rs) = clients-replies rs

  responses_of-replies : (rs : List V) → responses_of (replies rs) ≡ rs
  responses_of-replies [] = refl
  responses_of-replies (v ∷ rs) = ap (◌∷◌ v) (responses_of-replies rs)

  one_server :
      (n : ℕ) (rs : List V)
      → length rs ≡ n
      → (run (server_count 1 ∷ replies rs) (on_client_count n started)).calls ≡ in_time rs ∷ []
  unfolding run step
  one_server n rs h =
      run_complete (client_count n ∷ []) (replies rs) 1 tt (replies-IsReply rs)
        (omega (arith, reports-replies rs))
        (omega (arith, clients-replies rs, ap length (responses_of-replies rs)))
      ∙ ap (λ l. in_time l ∷ []) (responses_of-replies rs)

module _ {R S N E V F X C : Type 0} (dr : Discrete R) (ds : Discrete S)
    (encode : Packet N (EventName E × List (Argument V F)) → List X) (on_response : C) where
  -- `emit` of an event that is not reserved, with a callback as its last argument: when the one
  -- server has answered to `serverCount` and then each socket that `fetchSockets` returns has sent
  -- its response, the callback has been called once, without an error and with these responses.
  pub emit-answers :
      (ev : EventName E) (args left : List (Argument V F)) (ack : F) (op : Operator R)
      (h : Hub R S N (EventName E × List (Argument V F)) X C) (rs : List V)
      → is_reserved ev ≡ false
      → pop_ack args ≡ some (left, ack)
      → length rs ≡ length (fetch dr ds op h.namespace)
      → answers (emit dr ds encode on_response ev args op h) (server_count 1 ∷ replies rs)
        ≡ in_time rs ∷ []
  unfolding emit fetch
  emit-answers ev args left ack op h rs e p l =
      let packet : Packet N (EventName E × List (Argument V F)) = record {
        nsp = h.name;
        id = none;
        payload = (ev, left);
      } in
      let acked = broadcast_with_ack-fetch_sockets dr ds encode packet (options op) on_response h in
      rw (e, p)
        (one_server ((broadcast_with_ack dr ds encode packet (options op) on_response h).0) rs
          (l ∙ sym (acked.counted ∙ omega arith)))
