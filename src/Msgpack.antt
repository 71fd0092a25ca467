-- ===== src/Msgpack.antt =====
-- packages/msgpack: the binary format of the messages between servers.
pub mod Utf8
pub mod Headers
pub mod Encode
pub mod Reads
pub mod Decode
mod Tests
use socket_io_deno.Common.{ℕ, Bool, List}

-- The values of JavaScript that can be met, numbers by their sort: `negative n` is the integer
-- -(n + 1), and `real` holds what is no integer, of a type `F`. A date counts the milliseconds since
-- the epoch; `date_before n` is -(n + 1). A view has its buffer, its offset and its length.
mutual
  pub data Value (F : Type 0) : Type 0 where
    null missing callable : Value F
    flag : Bool → Value F
    whole negative : ℕ → Value F
    real : F → Value F
    text : List ℕ → Value F
    buffer : List ℕ → Value F
    view : List ℕ → ℕ → ℕ → Value F
    date date_before : ℕ → Value F
    array : Values F → Value F
    object : Fields F → Value F

  pub data Values (F : Type 0) : Type 0 where
    no_values : Values F
    next_value : Value F → Values F → Values F

  pub data Fields (F : Type 0) : Type 0 where
    no_fields : Fields F
    next_field : List ℕ → Value F → Fields F → Fields F
