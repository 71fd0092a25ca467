-- ===== src/EventEmitter/Tests.antt =====
-- The theorems about the event emitter at concrete inputs.
use socket_io_deno.Common.{
  same, if◌then◌else◌, ℕ, ◌+◌, not, [], ◌∷◌, ◌≡◌, refl, map, ℕ_discrete, arith,
}
use socket_io_deno.Common.Dict
use socket_io_deno.EventEmitter.{
  plain, once_of, Emitter, on, once, off_listener, remove_first, listeners, emit,
}
use socket_io_deno.EventEmitter.Emission.{
  target, noting, plain_only, is_nil, emit-noting, emit-is_nil, listeners-emit_once,
}
use socket_io_deno.EventEmitter.Registry.{
  IsTidy, IsRemoved, off_listener-IsRemoved, off_listener-once,
}

-- Event 1 has the functions 5 and 6; 6 is a one-time listener, whose wrapper is 60.
abbrev registered : Emitter ℕ ℕ
registered = (1, plain 5 ∷ once_of 60 6 ∷ []) ∷ []

-- Function 5 takes function 6 away while it runs; each call counts.
abbrev act : ℕ → Emitter ℕ ℕ × ℕ → Emitter ℕ ℕ × ℕ
act f (m, count) = (off_listener ℕ_discrete ℕ_discrete 1 6 m, count + f)

built : once ℕ_discrete ℕ_discrete 1 60 6 (on ℕ_discrete ℕ_discrete 1 (plain 5) []) ≡ registered
unfolding once ℕ_discrete
built = refl

registered-IsTidy : IsTidy ℕ_discrete ℕ_discrete registered
unfolding Dict.get
registered-IsTidy e = ground arith

emit-noting_example :
    (emit ℕ_discrete ℕ_discrete (noting ℕ_discrete ℕ_discrete act) 1 (registered, ([], 0))).1 ≡ (
      (emit ℕ_discrete ℕ_discrete act 1 (registered, 0)).1.0,
      (
        map target (listeners ℕ_discrete ℕ_discrete 1 registered),
        (emit ℕ_discrete ℕ_discrete act 1 (registered, 0)).1.1,
      ),
    )
emit-noting_example = emit-noting ℕ_discrete ℕ_discrete act 1 registered [] 0

emit-is_nil_example :
    (emit ℕ_discrete ℕ_discrete act 1 (registered, 0)).0
    ≡ not (is_nil (listeners ℕ_discrete ℕ_discrete 1 registered))
emit-is_nil_example = emit-is_nil ℕ_discrete ℕ_discrete act 1 registered 0 registered-IsTidy

abbrev count : ℕ → ℕ → ℕ
count f n = n + 1

listeners-emit_once_example :
    listeners ℕ_discrete ℕ_discrete 1
      (emit ℕ_discrete ℕ_discrete (λ f s. (s.0, count f s.1)) 1 (registered, 0)).1.0
    ≡ plain_only ℕ_discrete ℕ_discrete (listeners ℕ_discrete ℕ_discrete 1 registered)
unfolding listeners ℕ_discrete
listeners-emit_once_example =
    listeners-emit_once ℕ_discrete ℕ_discrete count 1 registered 0 ((refl, tt), tt)

off_listener-IsRemoved_example :
    let rest = off_listener ℕ_discrete ℕ_discrete 1 6 registered in
    IsRemoved ℕ_discrete ℕ_discrete 6
      (listeners ℕ_discrete ℕ_discrete 1 registered)
      (listeners ℕ_discrete ℕ_discrete 1 rest)
    × (listeners ℕ_discrete ℕ_discrete 2 rest ≡ (
        if same ℕ_discrete 2 1
        then listeners ℕ_discrete ℕ_discrete 1 rest
        else listeners ℕ_discrete ℕ_discrete 2 registered))
off_listener-IsRemoved_example = off_listener-IsRemoved ℕ_discrete ℕ_discrete 1 2 6 registered

off_listener-once_example :
    listeners ℕ_discrete ℕ_discrete 1
      (off_listener ℕ_discrete ℕ_discrete 1 8 (once ℕ_discrete ℕ_discrete 1 80 8 registered))
    ≡ listeners ℕ_discrete ℕ_discrete 1 registered
unfolding listeners ℕ_discrete remove_first
off_listener-once_example =
    off_listener-once ℕ_discrete ℕ_discrete 1 1 80 8 registered (refl, (refl, tt))
