-- ===== src/SocketAcks/Entries.antt =====
-- packages/socket.io/lib/socket.ts: what `_acks` and the timers hold.
use socket_io_deno.Common.{
  ℕ, ◌+◌, ◌≤◌, Bool, false, none, some, List, [], ◌∷◌, ◌++◌, ◌≢◌, ltb, ◌≡◌, refl, ap, inl, inr,
  arith, same, Bool-cases, ℕ_discrete,
}
use socket_io_deno.Common.Dict
use socket_io_deno.Common.Dict.{keys}
use socket_io_deno.Common.Flags.{flag, flag-delete, flag-new, has-get}
use socket_io_deno.Common.KeySet.{has}
use socket_io_deno.SocketAcks.{
  Registered, without_timer, with_timer, Outgoing, Effect, notified, written, registered, called,
  called_with_null, timed_out, Socket, note, send, write_each,
}

module _ {E V F : Type 0} where
  -- A callback is registered under the id; the one registered under it is called.
  unfoldable pub is_registered : ℕ → Effect E V F → Bool
  is_registered id (registered j f) = same ℕ_discrete id j
  is_registered id _ = false

  unfoldable pub is_called : ℕ → Effect E V F → Bool
  is_called id (called j f args) = same ℕ_discrete id j
  is_called id (called_with_null j f args) = same ℕ_discrete id j
  is_called id (timed_out j f) = same ℕ_discrete id j
  is_called id _ = false

  unfoldable pub count : (Effect E V F → Bool) → List (Effect E V F) → ℕ
  count test [] = 0
  count test (e ∷ l) = flag (test e) + count test l

  abbrev pub waiting : ℕ → Socket E V F → ℕ
  waiting id s = flag (has ℕ_discrete id (keys s.acks))

  abbrev pub registrations : ℕ → Socket E V F → ℕ
  registrations id s = count (is_registered id) s.effects

  abbrev pub calls : ℕ → Socket E V F → ℕ
  calls id s = count (is_called id) s.effects

  count-append :
      (test : Effect E V F → Bool) (l : List (Effect E V F)) (e : Effect E V F)
      → count test (l ++ e ∷ []) ≡ count test l + flag (test e)
  unfolding count
  count-append test [] e = omega arith
  count-append test (a ∷ l) e = omega (arith, count-append test l e)

  -- What was registered was called or waits; ids are used once; a running timer is for a callback
  -- that waits.
  pub record IsSoundAt (ids : ℕ) (acks : List (ℕ × Registered F)) (timers : List (ℕ × (ℕ × F)))
      (effects : List (Effect E V F)) : Type 0 where
    pub balanced :
        (id : ℕ)
        → count (is_registered id) effects
          ≡ count (is_called id) effects + flag (has ℕ_discrete id (keys acks))
    pub bounded : (id : ℕ) → count (is_registered id) effects ≤ flag (ltb id ids)
    pub timed :
        (timer id : ℕ) (f : F)
        → Dict.get ℕ_discrete timer timers ≡ some (id, f)
        → Dict.get ℕ_discrete id acks ≡ some (with_timer f timer)

  abbrev pub IsSound : Socket E V F → Type 0
  IsSound s = IsSoundAt s.ids s.acks s.timers s.effects

  -- An effect that does not concern callbacks.
  note-IsSound :
      (e : Effect E V F) (s : Socket E V F)
      → ((id : ℕ) → is_registered id e ≡ false)
      → ((id : ℕ) → is_called id e ≡ false)
      → IsSound s
      → IsSound (note e s)
  note-IsSound e s h k sound = record {
    balanced = λ id. omega (
      arith,
      count-append (is_registered id) s.effects e,
      count-append (is_called id) s.effects e,
      ap flag (h id),
      ap flag (k id),
      sound.balanced id,
    );
    bounded = λ id.
        omega
          (arith, count-append (is_registered id) s.effects e, ap flag (h id), sound.bounded id);
    timed = sound.timed;
  }

  write-IsSound :
      (p : Outgoing E V F) (s : Socket E V F)
      → IsSound s
      → IsSound (note (written p) (note (notified p) s))
  unfolding is_registered is_called
  write-IsSound p s sound =
      note-IsSound (written p) (note (notified p) s) (λ id. refl) (λ id. refl)
        (note-IsSound (notified p) s (λ id. refl) (λ id. refl) sound)

  pub send-IsSound : (p : Outgoing E V F) (s : Socket E V F) → IsSound s → IsSound (send p s)
  unfolding send
  send-IsSound p s sound = elim (Bool-cases s.connected) [
    | inl e ↦ rw e (write-IsSound p (record s { timeout = none }) sound)
    | inr e ↦ rw e sound
  ]

  pub write_each-IsSound :
      (l : List (Outgoing E V F)) (s : Socket E V F) → IsSound s → IsSound (write_each l s)
  unfolding write_each
  write_each-IsSound [] s sound = sound
  write_each-IsSound (p ∷ rest) s sound =
      write_each-IsSound rest (note (written p) (note (notified p) s)) (write-IsSound p s sound)

  -- An id that was not used has no entry.
  pub unused : (s : Socket E V F) → IsSound s → (id : ℕ) → ltb id s.ids ≡ false → waiting id s ≡ 0
  unused s sound id h = omega (arith, sound.balanced id, sound.bounded id, ap flag h)

  pub no_entry :
      (s : Socket E V F)
      → IsSound s
      → (r : Registered F) → Dict.get ℕ_discrete s.ids s.acks ≢ some r
  no_entry s sound r h =
      let k = has-get ℕ_discrete s.ids s.ids r s.acks h (ground arith) in
      omega (arith, ap flag k, unused s sound s.ids (ground arith))

  pub timed_plain :
      (f : F) (s : Socket E V F)
      → IsSound s
      → (timer id : ℕ) (g : F) → Dict.get ℕ_discrete timer s.timers ≡ some (id, g)
      → Dict.get ℕ_discrete id (Dict.set ℕ_discrete s.ids (without_timer f) s.acks)
        ≡ some (with_timer g timer)
  timed_plain f s sound timer id g h = ground (
    arith,
    Dict.get-set ℕ_discrete id s.ids (without_timer f) s.acks,
    sound.timed timer id g,
    no_entry s sound (with_timer g timer),
    h,
  )

  pub timed_kept :
      (id : ℕ) (f : F) (s : Socket E V F)
      → Dict.get ℕ_discrete id s.acks ≡ some (without_timer f)
      → IsSound s
      → (t j : ℕ) (g : F) → Dict.get ℕ_discrete t s.timers ≡ some (j, g)
      → Dict.get ℕ_discrete j (Dict.delete ℕ_discrete id s.acks) ≡ some (with_timer g t)
  timed_kept id f s e sound t j g h =
      ground (arith, Dict.get-delete ℕ_discrete j id s.acks, sound.timed t j g, e, h)

  -- Under a new id a callback is registered.
  pub balanced_new :
      (r : Registered F) (f : F) (s : Socket E V F)
      → IsSound s
      → (id : ℕ)
      → count (is_registered id) (s.effects ++ registered s.ids f ∷ [])
        ≡ count (is_called id) (s.effects ++ registered s.ids f ∷ [])
          + flag (has ℕ_discrete id (keys (Dict.set ℕ_discrete s.ids r s.acks)))
  unfolding is_registered is_called
  balanced_new r f s sound id =
      let free = at_most_one id in
      omega (
        arith,
        count-append (is_registered id) s.effects (registered s.ids f),
        count-append (is_called id) s.effects (registered s.ids f),
        flag-new ℕ_discrete id s.ids r s.acks free,
        sound.balanced id,
      )
    where
      at_most_one :
          (id : ℕ) → flag (has ℕ_discrete id (keys s.acks)) + flag (same ℕ_discrete id s.ids) ≤ 1
      at_most_one id = ground (arith, unused s sound id)

  pub bounded_new :
      (f : F) (s : Socket E V F)
      → IsSound s
      → (id : ℕ)
      → count (is_registered id) (s.effects ++ registered s.ids f ∷ []) ≤ flag (ltb id (s.ids + 1))
  unfolding is_registered
  bounded_new f s sound id =
      ground
        (arith, count-append (is_registered id) s.effects (registered s.ids f), sound.bounded id)

  -- A callback that waits is called, and waits no more.
  pub balanced_called :
      (id : ℕ) (r : Registered F) (e : Effect E V F) (s : Socket E V F)
      → Dict.get ℕ_discrete id s.acks ≡ some r
      → ((j : ℕ) → is_registered j e ≡ false)
      → ((j : ℕ) → is_called j e ≡ same ℕ_discrete j id)
      → IsSound s
      → (j : ℕ)
      → count (is_registered j) (s.effects ++ e ∷ [])
        ≡ count (is_called j) (s.effects ++ e ∷ [])
          + flag (has ℕ_discrete j (keys (Dict.delete ℕ_discrete id s.acks)))
  balanced_called id r e s g h k sound j = omega (
    arith,
    count-append (is_registered j) s.effects e,
    count-append (is_called j) s.effects e,
    flag-delete ℕ_discrete j id r s.acks g,
    ap flag (h j),
    ap flag (k j),
    sound.balanced j,
  )

  pub bounded_called :
      (e : Effect E V F) (s : Socket E V F)
      → ((j : ℕ) → is_registered j e ≡ false)
      → IsSound s
      → (j : ℕ) → count (is_registered j) (s.effects ++ e ∷ []) ≤ flag (ltb j s.ids)
  bounded_called e s h sound j =
      omega (arith, count-append (is_registered j) s.effects e, ap flag (h j), sound.bounded j)

  pub timed_new :
      (f : F) (s : Socket E V F)
      → IsSound s
      → (timer id : ℕ) (g : F)
      → Dict.get ℕ_discrete timer (Dict.set ℕ_discrete s.next_timer (s.ids, f) s.timers)
        ≡ some (id, g)
      → Dict.get ℕ_discrete id (Dict.set ℕ_discrete s.ids (with_timer f s.next_timer) s.acks)
        ≡ some (with_timer g timer)
  timed_new f s sound timer id g h = ground (
    arith,
    Dict.get-set ℕ_discrete timer s.next_timer (s.ids, f) s.timers,
    Dict.get-set ℕ_discrete id s.ids (with_timer f s.next_timer) s.acks,
    sound.timed timer id g,
    no_entry s sound (with_timer g timer),
    h,
  )

  pub timed_deleted :
      (timer id : ℕ) (f : F) (s : Socket E V F)
      → Dict.get ℕ_discrete id s.acks ≡ some (with_timer f timer)
      → IsSound s
      → (t j : ℕ) (g : F)
      → Dict.get ℕ_discrete t (Dict.delete ℕ_discrete timer s.timers) ≡ some (j, g)
      → Dict.get ℕ_discrete j (Dict.delete ℕ_discrete id s.acks) ≡ some (with_timer g t)
  timed_deleted timer id f s e sound t j g h = ground (
    arith,
    Dict.get-delete ℕ_discrete t timer s.timers,
    Dict.get-delete ℕ_discrete j id s.acks,
    sound.timed t j g,
    e,
    h,
  )
