-- ===== src/SocketAcks/Once.antt =====
-- packages/socket.io/lib/socket.ts: a callback that was given to `emit` is called once.
use socket_io_deno.Common.{
  ℕ, ◌+◌, ◌≤◌, Bool, true, false, Option, none, some, List, [], ◌∷◌, if◌then◌else◌, ◌≡◌, refl, inl,
  inr, arith, Bool-cases, ℕ_discrete,
}
use socket_io_deno.Common.Dict
use socket_io_deno.Common.Dict.{keys}
use socket_io_deno.Common.KeySet.{has}
use socket_io_deno.Operator.{EventName, is_reserved, Argument, pop_ack}
use socket_io_deno.SocketAcks.{
  Registered, without_timer, with_timer, registered, called, called_with_null, timed_out, Socket,
  new_socket, note, register_for, register_ack_callback, emit_popped, emit, expire, on_timer,
  call_ack, on_ack, on_connect, Input, emitting, acknowledged, timer_over, setting_timeout,
  connecting, closing, used_id, broadcasting, step, run, or_same,
}
use socket_io_deno.SocketAcks.Entries.{
  is_registered, is_called, count, waiting, registrations, calls, IsSound, timed_plain, timed_kept,
  balanced_new, bounded_new, balanced_called, bounded_called, timed_new, timed_deleted,
  send-IsSound, write_each-IsSound,
}

module _ {E V F : Type 0} where
  register-IsSound :
      (delay : Option ℕ) (f : F) (s : Socket E V F)
      → IsSound s
      → IsSound
          (register_for delay s.ids f (note (registered s.ids f) (record s { ids = s.ids + 1 })))
  unfolding is_registered is_called
  register-IsSound none f s sound = record {
    balanced = balanced_new (without_timer f) f s sound;
    bounded = bounded_new f s sound;
    timed = timed_plain f s sound;
  }
  register-IsSound (some delay) f s sound = record {
    balanced = balanced_new (with_timer f s.next_timer) f s sound;
    bounded = bounded_new f s sound;
    timed = timed_new f s sound;
  }

  expire-IsSound :
      (timer : ℕ) (o : Option (ℕ × F)) (s : Socket E V F)
      → Dict.get ℕ_discrete timer s.timers ≡ o
      → IsSound s
      → IsSound (expire timer o s)
  unfolding is_registered is_called
  expire-IsSound timer none s e sound = sound
  expire-IsSound timer (some (id, f)) s e sound =
      let g = sound.timed timer id f e in
      record {
        balanced =
            balanced_called id (with_timer f timer) (timed_out id f) s g (λ j. refl) (λ j. refl)
              sound;
        bounded = bounded_called (timed_out id f) s (λ j. refl) sound;
        timed = timed_deleted timer id f s g sound;
      }

  call_ack-IsSound :
      (id : ℕ) (args : List V) (o : Option (Registered F)) (s : Socket E V F)
      → Dict.get ℕ_discrete id s.acks ≡ o
      → IsSound s
      → IsSound (call_ack id args o s)
  unfolding is_registered is_called
  call_ack-IsSound id args none s e sound = sound
  call_ack-IsSound id args (some (without_timer f)) s e sound = record {
    balanced =
        balanced_called id (without_timer f) (called id f args) s e (λ j. refl) (λ j. refl) sound;
    bounded = bounded_called (called id f args) s (λ j. refl) sound;
    timed = timed_kept id f s e sound;
  }
  call_ack-IsSound id args (some (with_timer f timer)) s e sound = record {
    balanced =
        balanced_called id (with_timer f timer) (called_with_null id f args) s e (λ j. refl)
          (λ j. refl) sound;
    bounded = bounded_called (called_with_null id f args) s (λ j. refl) sound;
    timed = timed_deleted timer id f s e sound;
  }

  emit-IsSound :
      (ev : EventName E) (args : List (Argument V F)) (s : Socket E V F)
      → IsSound s
      → IsSound (or_same (emit ev args s) s)
  unfolding emit register_ack_callback
  emit-IsSound ev args s sound = elim (Bool-cases (is_reserved ev)) [
    | inl e ↦ rw e sound
    | inr e ↦ rw e (popped (pop_ack args))
  ]
    where
      popped : (o : Option (List (Argument V F) × F)) → IsSound (emit_popped ev args o s)
      popped none = send-IsSound (record { event = ev; args = args; id = none }) s sound
      popped (some (rest, f)) =
          send-IsSound (record { event = ev; args = rest; id = some s.ids })
            (register_ack_callback s.ids f (record s { ids = s.ids + 1 }))
            (register-IsSound s.timeout f s sound)

  IsSound-if :
      (b : Bool) (s t : Socket E V F) → IsSound s → IsSound t → IsSound (if b then s else t)
  IsSound-if true s t h k = h
  IsSound-if false s t h k = k

  step-IsSound : (i : Input E V F) (s : Socket E V F) → IsSound s → IsSound (step i s)
  unfolding step on_ack on_timer on_connect
  step-IsSound (emitting ev args) s sound = emit-IsSound ev args s sound
  step-IsSound (acknowledged id args) s sound =
      IsSound-if s.connected (on_ack id args s) s
        (call_ack-IsSound id args (Dict.get ℕ_discrete id s.acks) s refl sound) sound
  step-IsSound (timer_over timer) s sound =
      expire-IsSound timer (Dict.get ℕ_discrete timer s.timers) s refl sound
  step-IsSound (setting_timeout delay) s sound = sound
  step-IsSound connecting s sound =
      write_each-IsSound s.pre_connect_buffer (record s { connected = true }) sound
  step-IsSound closing s sound = sound
  step-IsSound (broadcasting f) s sound = register-IsSound none f s sound
  step-IsSound used_id s sound = record {
    balanced = sound.balanced;
    bounded = λ id. ground (arith, sound.bounded id);
    timed = sound.timed;
  }

  run-IsSound : (l : List (Input E V F)) (s : Socket E V F) → IsSound s → IsSound (run l s)
  unfolding run
  run-IsSound [] s sound = sound
  run-IsSound (i ∷ rest) s sound = run-IsSound rest (step i s) (step-IsSound i s sound)

  new_socket-IsSound : (ids : ℕ) → IsSound {E = E} {V = V} {F = F} (new_socket ids)
  unfolding count has Dict.get
  new_socket-IsSound ids = record {
    balanced = λ id. refl;
    bounded = λ id. omega arith;
    timed = λ timer id f h. absurd (cc);
  }

  -- Let a new socket emit events, get acknowledgements, connect and close, and let its timers run
  -- out, in any order, while other sockets use ids of the namespace in between, and broadcasts with
  -- an acknowledgement reach the socket or others. Then
  -- under each id at most one callback has been registered, and what was registered has been
  -- called, with or without `null` or with the error of the timeout, exactly once, or it still waits
  -- and has not been called; nothing else is called.
  pub run-new_socket-calls :
      (ids : ℕ) (l : List (Input E V F)) (id : ℕ)
      → let s = run l (new_socket ids) in
        (registrations id s ≤ 1) × (registrations id s ≡ calls id s + waiting id s)
  run-new_socket-calls ids l id =
      let sound = run-IsSound l (new_socket ids) (new_socket-IsSound ids) in
      (ground (arith, sound.bounded id), sound.balanced id)
