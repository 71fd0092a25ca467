-- ===== src/Common/Flags.antt =====
-- Keys of a `Map` that are there, counted: 1 or 0.
use socket_io_deno.Common.{
  ℕ, ◌+◌, ◌≤◌, Bool, true, some, List, [], ◌∷◌, if◌then◌else◌, ◌≡◌, arith, same,
}
use socket_io_deno.Common.Dict
use socket_io_deno.Common.Dict.{keys}
use socket_io_deno.Common.KeySet.{has}

abbrev pub flag : Bool → ℕ
flag b = if b then 1 else 0

-- An entry is a key.
pub has-get :
    {I V : Type 0} (di : Discrete I) (q j : I) (v : V) (m : List (I × V))
    → Dict.get di j m ≡ some v
    → same di q j ≡ true
    → has di q (keys m) ≡ true
unfolding Dict.get has
has-get di q j v [] h k = absurd (cc)
has-get di q j v ((i, w) ∷ m) h k = ground (arith, h, k, has-get di q j v m)

-- Such an entry is taken out, written again, or put in where there is none.
pub flag-delete :
    {I V : Type 0} (di : Discrete I) (q j : I) (v : V) (m : List (I × V))
    → Dict.get di j m ≡ some v
    → flag (has di q (keys (Dict.delete di j m))) + flag (same di q j) ≡ flag (has di q (keys m))
flag-delete di q j v m h = ground (arith, Dict.has-keys-delete di q j m, has-get di q j v m h)

pub flag-set :
    {I V : Type 0} (di : Discrete I) (q j : I) (v w : V) (m : List (I × V))
    → Dict.get di j m ≡ some v
    → flag (has di q (keys (Dict.set di j w m))) ≡ flag (has di q (keys m))
flag-set di q j v w m h = ground (arith, Dict.has-keys-set di q j w m, has-get di q j v m h)

pub flag-new :
    {I V : Type 0} (di : Discrete I) (q j : I) (w : V) (m : List (I × V))
    → flag (has di q (keys m)) + flag (same di q j) ≤ 1
    → flag (has di q (keys (Dict.set di j w m))) ≡ flag (has di q (keys m)) + flag (same di q j)
flag-new di q j w m h = ground (arith, h, Dict.has-keys-set di q j w m)
