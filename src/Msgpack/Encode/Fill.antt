-- ===== src/Msgpack/Encode/Fill.antt =====
-- The second pass of packages/msgpack/lib/encode.ts.
use mathlib.Core.List.{append_assoc}
use socket_io_deno.Common.{
  ℕ, zero, suc, ◌+◌, ◌<◌, true, false, none, some, List, [], ◌∷◌, ◌++◌, ◌==◌, length, length-append,
  ◌≡◌, refl, sym, ap, ◌∙◌, arith,
}
use socket_io_deno.Msgpack.Encode.{Piece, Deferred, set_byte, set_bytes, zeros, piece_bytes, fill}
use socket_io_deno.Msgpack.Encode.Chunks.{Chunk, bytes_of, defers_of}

set_byte-append :
    (done : List ℕ) (b x : ℕ) (rest : List ℕ)
    → set_byte (length done) b (done ++ x ∷ rest) ≡ some (done ++ b ∷ rest)
unfolding set_byte
set_byte-append [] b x rest = refl
set_byte-append (y ∷ done) b x rest = rw (set_byte-append done b x rest) refl

set_bytes_step :
    (position b : ℕ) (bs out next : List ℕ)
    → set_byte position b out ≡ some next
    → set_bytes position (b ∷ bs) out ≡ set_bytes (position + 1) bs next
unfolding set_bytes
set_bytes_step position b bs out next e = rw (e, set_bytes) refl

-- Writing on from where the writing stands.
set_bytes-append :
    (bs done rest : List ℕ)
    → set_bytes (length done) bs (done ++ (zeros (length bs) ++ rest)) ≡ some (done ++ (bs ++ rest))
unfolding zeros
set_bytes-append [] done rest = unfold set_bytes in refl
set_bytes-append (b ∷ bs) done rest =
    let left = zeros (length bs) ++ rest in
    let next : length done + 1 ≡ length (done ++ b ∷ []) = sym (length-append done (b ∷ [])) in
    set_bytes_step (length done) b bs (done ++ 0 ∷ left) (done ++ b ∷ left)
      (set_byte-append done b 0 left)
    ∙ ap (λ p. set_bytes p bs (done ++ b ∷ left)) next
    ∙ ap (set_bytes (length (done ++ b ∷ [])) bs) (sym (append_assoc done (b ∷ []) left))
    ∙ set_bytes-append bs (done ++ b ∷ []) rest
    ∙ ap some (append_assoc done (b ∷ []) (bs ++ rest))

zeros-add : (m n : ℕ) → zeros (m + n) ≡ zeros m ++ zeros n
unfolding zeros
zeros-add zero n = let e : zero + n ≡ n = omega arith in ap zeros e
zeros-add (suc m) n =
    let e : suc m + n ≡ suc (m + n) = omega arith in ap zeros e ∙ ap (◌∷◌ 0) (zeros-add m n)

module _ {F : Type 0} (fb : F → List ℕ) where
  unfoldable pub flat : List (Chunk F) → List ℕ
  flat [] = []
  flat ((b, none) ∷ cs) = b ∷ flat cs
  flat ((b, some (p, n)) ∷ cs) = b ∷ (piece_bytes fb p n ++ flat cs)

  pub flat-append : (cs ds : List (Chunk F)) → flat (cs ++ ds) ≡ flat cs ++ flat ds
  unfolding flat
  flat-append [] ds = refl
  flat-append ((b, none) ∷ cs) ds = ap (◌∷◌ b) (flat-append cs ds)
  flat-append ((b, some (p, n)) ∷ cs) ds = ap (◌∷◌ b) (
      ap (◌++◌ (piece_bytes fb p n)) (flat-append cs ds)
      ∙ sym (append_assoc (piece_bytes fb p n) (flat cs) (flat ds)))

  -- A piece has the size that was noted for it.
  abbrev pub IsExact : List (Chunk F) → Type 0
  IsExact [] = Unit {0}
  IsExact ((b, none) ∷ cs) = IsExact cs
  IsExact ((b, some (p, n)) ∷ cs) = (length (piece_bytes fb p n) ≡ n) × IsExact cs

  abbrev IsAfter : ℕ → List (Deferred F) → Type 0
  IsAfter k [] = Unit {0}
  IsAfter k (d ∷ ds) = k < d.offset

  weaken : (k : ℕ) (ds : List (Deferred F)) → IsAfter (k + 1) ds → IsAfter k ds
  weaken k [] h = tt
  weaken k (d ∷ ds) h = omega arith

  defers_of-IsAfter : (i : ℕ) (cs : List (Chunk F)) → IsAfter i (defers_of i cs)
  unfolding defers_of
  defers_of-IsAfter i [] = tt
  defers_of-IsAfter i ((b, none) ∷ cs) = weaken i _ (defers_of-IsAfter (i + 1) cs)
  defers_of-IsAfter i ((b, some (p, n)) ∷ cs) = omega arith

  -- A round that meets no piece.
  fill_byte :
      (b : ℕ) (bs : List ℕ) (i written : ℕ) (ds : List (Deferred F)) (out next : List ℕ)
      → IsAfter (i + 1) ds
      → set_byte (written + i) b out ≡ some next
      → fill fb (b ∷ bs) i ds written out ≡ fill fb bs (i + 1) ds written next
  unfolding fill
  fill_byte b bs i written [] out next h e = rw (e, fill) refl
  fill_byte b bs i written (d ∷ ds) out next h e =
      let other : (i + 1 == d.offset) ≡ false = ground arith in rw (e, fill) (rw other refl)

  -- A round that meets one.
  fill_piece :
      (b : ℕ) (bs : List ℕ) (i written : ℕ) (p : Piece F) (n : ℕ) (ds : List (Deferred F))
      (out next last : List ℕ)
      → set_byte (written + i) b out ≡ some next
      → set_bytes (written + (i + 1)) (piece_bytes fb p n) next ≡ some last
      → fill fb (b ∷ bs) i (record { piece = p; size = n; offset = i + 1 } ∷ ds) written out
        ≡ fill fb bs (i + 1) ds (written + n) last
  unfolding fill
  fill_piece b bs i written p n ds out next last e k =
      let here : (i + 1 == i + 1) ≡ true = ground arith in rw (e, fill) (rw (here, k) refl)

  pub fill-flat :
      (cs : List (Chunk F)) (i written : ℕ) (done : List ℕ)
      → IsExact cs
      → length done ≡ written + i
      → fill fb (bytes_of cs) i (defers_of i cs) written (done ++ zeros (length (flat cs)))
        ≡ some (done ++ flat cs)
  unfolding bytes_of defers_of flat zeros
  fill-flat [] i written done x l = unfold fill in refl
  fill-flat ((b, none) ∷ cs) i written done x l =
      fill_byte b (bytes_of cs) i written (defers_of (i + 1) cs) _
        (done ++ b ∷ zeros (length (flat cs))) (defers_of-IsAfter (i + 1) cs)
        (rw (← l) (set_byte-append done b 0 (zeros (length (flat cs)))))
      ∙ rw
          (
            sym (append_assoc done (b ∷ []) (zeros (length (flat cs)))),
            fill-flat cs (i + 1) written (done ++ b ∷ []) x
                (length-append done (b ∷ []) ∙ omega (arith, l)),
          )
          (ap some (append_assoc done (b ∷ []) (flat cs)))
  fill-flat ((b, some (p, n)) ∷ cs) i written done (exact, x) l =
      let pb = piece_bytes fb p n in
      let left = zeros (length (flat cs)) in
      let first = done ++ b ∷ [] in
      let split : zeros (length (pb ++ flat cs)) ≡ zeros (length pb) ++ left =
        ap zeros (length-append pb (flat cs)) ∙ zeros-add (length pb) (length (flat cs)) in
      let l' : length first ≡ written + (i + 1) = length-append done (b ∷ []) ∙ omega (arith, l) in
      let l'' : length (first ++ pb) ≡ written + n + (i + 1) =
        length-append first pb ∙ omega (arith, l', exact) in
      let next = first ++ (zeros (length pb) ++ left) in
      fill_piece b (bytes_of cs) i written p n (defers_of (i + 1) cs)
        (done ++ 0 ∷ zeros (length (pb ++ flat cs))) next (first ++ (pb ++ left))
        (ap (λ q. set_byte q b (done ++ 0 ∷ zeros (length (pb ++ flat cs)))) (sym l)
          ∙ set_byte-append done b 0 (zeros (length (pb ++ flat cs)))
          ∙ ap some (sym (append_assoc done (b ∷ []) _) ∙ ap (◌++◌ first) split))
        (ap (λ q. set_bytes q pb next) (sym l') ∙ set_bytes-append pb first left)
      ∙ ap (fill fb (bytes_of cs) (i + 1) (defers_of (i + 1) cs) (written + n))
          (sym (append_assoc first pb left))
      ∙ fill-flat cs (i + 1) (written + n) (first ++ pb) x l''
      ∙ ap some (append_assoc first pb (flat cs) ∙ append_assoc done (b ∷ []) (pb ++ flat cs))
