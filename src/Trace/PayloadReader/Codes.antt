-- ===== src/Trace/PayloadReader/Codes.antt =====
-- What is appended and what is read agree: the laws of the two sides of the record codec, step by
-- step.
pub mod Numbers
use noleax.Prelude.{
  Bool, true, false, List, All, if◌then◌else◌, ℕ, zero, suc, ◌+◌, ◌*◌, ◌/◌, ◌%◌, ◌^◌, ◌<◌, [], ◌∷◌,
  ◌++◌, length, length-append, ◌≡◌, refl, ap, sym, ◌∙◌, arith, IsU64,
}
use noleax.Prelude.Error.{Result, ok}
use noleax.Prelude.Shifts.{bit_or_high}
use noleax.Trace.Bytes.{
  append_i32, append_each, Bytes, Append, ◌▷◌, append_u8, append_u16, append_u32, append_u64,
  append_i32, append_zeros, append_string_bytes, zeros, little_endian, length-little_endian,
  length-zeros, append_u16-little_endian, append_u32-little_endian, append_u64-little_endian,
  byte_up,
}
use noleax.Trace.PayloadReader.{
  read_i32, read_guid, run, fail_if, read_each, decode_bool, decode_bool_of, Reader, ◌>>=◌, return,
  attempt, required, read_bytes, read_number, read_u8, read_u16, read_u32, read_u64, read_i32,
  split_at, read_string, read_guid, skip_zeros, expect_zeros, fail_if, read_as,
}
use Prim.Native.String.{String}
use mathlib.Core.List.{append_assoc, append-nil}
use native.Mathlib.Nat.{div-add-mod}

-- The append writes `size` bytes, from which the reader gives the value back, whatever follows.
pub record Codes {A : Type 0} (append : Append) (reader : Reader A) (value : A) (size : ℕ)
    : Type 0 where
  pub bytes : Bytes
  pub appends : (output : Bytes) → append output ≡ output ++ bytes
  pub reads : (left : Bytes) → reader (bytes ++ left) ≡ ok (value, left)
  pub sized : length bytes ≡ size

module _ {A B : Type 0} where
  pub codes :
      {f g : Append} {reader : Reader A} (next : A → Reader B) {a : A} {b : B} {m n : ℕ}
      → Codes f reader a m
      → Codes g (next a) b n
      → Codes (f ▷ g) (reader >>= next) b (m + n)
  unfolding ◌▷◌ ◌>>=◌
  codes {g} next c d = record {
    bytes = c.bytes ++ d.bytes;
    appends = λ output.
        ap g (c.appends output)
        ∙ d.appends (output ++ c.bytes)
        ∙ append_assoc output c.bytes d.bytes;
    reads =
        λ left. rw (append_assoc c.bytes d.bytes left, c.reads (d.bytes ++ left)) (d.reads left);
    sized = omega (arith, length-append c.bytes d.bytes, c.sized, d.sized);
  }

  -- A step that reads nothing and gives its value.
  pub Codes-step :
      {g : Append} {reader : Reader A} (next : A → Reader B) {a : A} {b : B} {n : ℕ}
      → ((left : Bytes) → reader left ≡ ok (a, left))
      → Codes g (next a) b n
      → Codes g (reader >>= next) b n
  unfolding ◌>>=◌
  Codes-step next step d = record {
    bytes = d.bytes;
    appends = d.appends;
    reads = λ left. rw (step (d.bytes ++ left)) (d.reads left);
    sized = d.sized;
  }

pub bind_lem :
    {A B : Type 0} (reader : Reader A) (next : A → Reader B) {payload left : Bytes} {a : A}
    {r : Result (B × Bytes)}
    → reader payload ≡ ok (a, left)
    → next a left ≡ r
    → (reader >>= next) payload ≡ r
unfolding ◌>>=◌
bind_lem reader next e f = rw e f

pub run_lem :
    {A : Type 0} (reader : Reader A) {payload left : Bytes} {a : A}
    → reader payload ≡ ok (a, left)
    → run reader payload ≡ ok a
unfolding run
run_lem reader e = rw (e, run) refl

pub attempt_lem :
    {A : Type 0} (result : Result A) {payload : Bytes} {a : A}
    → result ≡ ok a
    → attempt result payload ≡ ok (a, payload)
unfolding attempt
attempt_lem result e = rw (e, attempt) refl

-- The last field, and steps that read nothing.
pub Codes-then :
    {A B : Type 0} {f : Append} {reader : Reader A} (next : A → Reader B) {a : A} {b : B} {n : ℕ}
    → Codes f reader a n
    → ((left : Bytes) → next a left ≡ ok (b, left))
    → Codes f (reader >>= next) b n
Codes-then {reader} next c steps = record {
  bytes = c.bytes;
  appends = c.appends;
  reads = λ left. bind_lem reader next (c.reads left) (steps left);
  sized = c.sized;
}

-- The last field, from which the value is put together.
pub Codes-last :
    {A B : Type 0} {f : Append} {reader : Reader A} (build : A → B) {a : A} {n : ℕ}
    → Codes f reader a n
    → Codes f (reader >>= λ value. return (build value)) (build a) n
unfolding return
Codes-last build c = Codes-then _ c (λ left. refl)

pub Codes-resize :
    {A : Type 0} {f : Append} {reader : Reader A} {a : A} {m n : ℕ}
    → m ≡ n
    → Codes f reader a m
    → Codes f reader a n
Codes-resize e c = record {
  bytes = c.bytes;
  appends = c.appends;
  reads = c.reads;
  sized = c.sized ∙ e;
}

-- A loop that appends each element of a list, and one that reads as many.
pub Codes-each :
    {A : Type 0} (W : A → Type 0) (f : A → Append) (reader : Reader A) (size : ℕ)
    → ((a : A) → W a → Codes (f a) reader a size)
    → (list : List A) → All W list
    → Codes (append_each f list) (read_each reader (length list)) list (length list * size)
unfolding append_each read_each return ◌>>=◌
Codes-each W f reader size code [] h = record {
  bytes = [];
  appends = λ output. sym (append-nil output);
  reads = λ left. refl;
  sized = omega arith;
}
Codes-each W f reader size code (a ∷ list) (w, h) =
    let c = code a w in
    let d = Codes-each W f reader size code list h in
    record {
      bytes = c.bytes ++ d.bytes;
      appends = λ output.
          ap (append_each f list) (c.appends output)
          ∙ d.appends (output ++ c.bytes)
          ∙ append_assoc output c.bytes d.bytes;
      reads = λ left.
          rw (append_assoc c.bytes d.bytes left, c.reads (d.bytes ++ left), d.reads left) refl;
      sized = omega (arith, length-append c.bytes d.bytes, c.sized, d.sized);
    }

pub fail_if_lem :
    (test : Bool) (message : String) (left : Bytes)
    → test ≡ false
    → fail_if test message left ≡ ok (tt, left)
unfolding fail_if
fail_if_lem test message left e = rw e refl
