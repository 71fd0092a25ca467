-- ===== src/Msgpack/Encode/Chunks.antt =====
-- The output of the first pass of packages/msgpack/lib/encode.ts as bytes with what is put off
-- behind them.
use mathlib.Core.List.{append-nil}
use socket_io_deno.Common.{
  ℕ, suc, ◌+◌, Option, none, some, List, [], ◌∷◌, ◌++◌, length, length-append, ◌≡◌, refl, ap, ◌∙◌,
  arith,
}
use socket_io_deno.Msgpack.Encode.{Piece, Deferred, Output, push, defer, and_then}

-- A byte with what is put off behind it.
abbrev pub Chunk : Type 0 → Type 0
Chunk F = ℕ × Option (Piece F × ℕ)

module _ {F : Type 0} where
  unfoldable pub bytes_of : List (Chunk F) → List ℕ
  bytes_of [] = []
  bytes_of ((b, p) ∷ cs) = b ∷ bytes_of cs

  unfoldable pub defers_of : ℕ → List (Chunk F) → List (Deferred F)
  defers_of i [] = []
  defers_of i ((b, none) ∷ cs) = defers_of (i + 1) cs
  defers_of i ((b, some (p, n)) ∷ cs) =
      record { piece = p; size = n; offset = i + 1 } ∷ defers_of (i + 1) cs

  unfoldable pub out : List (Chunk F) → Output F
  out cs = record { bytes = bytes_of cs; defers = defers_of 0 cs }

  unfoldable pub plain : List ℕ → List (Chunk F)
  plain [] = []
  plain (b ∷ bs) = (b, none) ∷ plain bs

  unfoldable pub attach : List ℕ → Piece F → ℕ → List (Chunk F)
  attach [] p n = []
  attach (b ∷ []) p n = (b, some (p, n)) ∷ []
  attach (b ∷ c ∷ bs) p n = (b, none) ∷ attach (c ∷ bs) p n

  bytes_of-append : (cs ds : List (Chunk F)) → bytes_of (cs ++ ds) ≡ bytes_of cs ++ bytes_of ds
  unfolding bytes_of
  bytes_of-append [] ds = refl
  bytes_of-append ((b, p) ∷ cs) ds = ap (◌∷◌ b) (bytes_of-append cs ds)

  pub length-bytes_of : (cs : List (Chunk F)) → length (bytes_of cs) ≡ length cs
  unfolding bytes_of
  length-bytes_of [] = refl
  length-bytes_of ((b, p) ∷ cs) = omega (arith, length-bytes_of cs)

  defers_of-append :
      (i : ℕ) (cs ds : List (Chunk F))
      → defers_of i (cs ++ ds) ≡ defers_of i cs ++ defers_of (i + length cs) ds
  unfolding defers_of
  defers_of-append i [] ds = ap (λ j. defers_of j ds) (omega arith)
  defers_of-append i ((b, none) ∷ cs) ds =
      let e : i + 1 + length cs ≡ i + suc (length cs) = omega arith in
      defers_of-append (i + 1) cs ds ∙ ap (λ j. defers_of (i + 1) cs ++ defers_of j ds) e
  defers_of-append i ((b, some (p, n)) ∷ cs) ds =
      let e : i + 1 + length cs ≡ i + suc (length cs) = omega arith in
      ap (◌∷◌ (record { piece = p; size = n; offset = i + 1 }))
        (defers_of-append (i + 1) cs ds ∙ ap (λ j. defers_of (i + 1) cs ++ defers_of j ds) e)

  bytes_of-attach :
      (b : ℕ) (bs : List ℕ) (p : Piece F) (n : ℕ) → bytes_of (attach (b ∷ bs) p n) ≡ b ∷ bs
  unfolding bytes_of attach
  bytes_of-attach b [] p n = refl
  bytes_of-attach b (c ∷ bs) p n = ap (◌∷◌ b) (bytes_of-attach c bs p n)

  defers_of-attach :
      (i b : ℕ) (bs : List ℕ) (p : Piece F) (n : ℕ)
      → defers_of i (attach (b ∷ bs) p n)
        ≡ record { piece = p; size = n; offset = i + length (b ∷ bs) } ∷ []
  unfolding defers_of attach
  defers_of-attach i b [] p n = refl
  defers_of-attach i b (c ∷ bs) p n =
      defers_of-attach (i + 1) c bs p n
      ∙ ap (λ (o : ℕ). record { piece = p; size = n; offset = o } ∷ []) (omega arith)

module _ (F : Type 0) where
  bytes_of-plain : (bs : List ℕ) → bytes_of {F = F} (plain bs) ≡ bs
  unfolding bytes_of plain
  bytes_of-plain [] = refl
  bytes_of-plain (b ∷ bs) = ap (◌∷◌ b) (bytes_of-plain bs)

  defers_of-plain : (i : ℕ) (bs : List ℕ) → defers_of {F = F} i (plain bs) ≡ []
  unfolding defers_of plain
  defers_of-plain i [] = refl
  defers_of-plain i (b ∷ bs) = defers_of-plain (i + 1) bs

module _ {F : Type 0} where
  -- The first pass on bytes, and on a header with a piece.
  pub push-out :
      (cs : List (Chunk F)) (bs : List ℕ)
      → push bs (out cs) ≡ some (out (cs ++ plain bs), length bs)
  unfolding out
  push-out cs bs =
      simp (bytes_of-append, bytes_of-plain, defers_of-append, defers_of-plain, append-nil)

  pub defer-out :
      (cs : List (Chunk F)) (b : ℕ) (bs : List ℕ) (p : Piece F) (n : ℕ)
      → and_then (push (b ∷ bs) (out cs)) (defer p n)
        ≡ some (out (cs ++ attach (b ∷ bs) p n), length (b ∷ bs) + n)
  unfolding out
  defer-out cs b bs p n =
      let e : length (bytes_of cs ++ b ∷ bs) ≡ 0 + length cs + length (b ∷ bs) =
        length-append (bytes_of cs) (b ∷ bs) ∙ omega (arith, length-bytes_of cs) in
      simp (bytes_of-append, bytes_of-attach, defers_of-append, defers_of-attach, e)
