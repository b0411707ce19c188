-- ===== src/Trace/RecordCodec/Restores.antt =====
-- src/trace/record_codec.cpp: a record that is appended is found and decoded.
use mathlib.Core.Path.{subst}
use noleax.Prelude.{
  ℕ, ◌^◌, ◌<◌, [], ◌++◌, length, Option, some, ◌≡◌, ◌≢◌, refl, ap, sym, ◌∙◌, arith,
}
use noleax.Prelude.Error.{Result, ok}
use noleax.Trace.Bytes.{Bytes, Append}
use noleax.Trace.PayloadReader.{Reader, return, attempt, expect_done, run}
use noleax.Trace.PayloadReader.Codes.{Codes, bind_lem, run_lem, attempt_lem}
use noleax.Trace.WireFormat.{append_record}
use noleax.Trace.RecordCursor.{RecordView, next}
use noleax.Trace.RecordCursor.Framing.{cursor_at, view_of}
use noleax.Trace.RecordCursor.Records.{Fits, next-append_record}
use noleax.Trace.RecordCodec.{Catch, whole, recoded}
use mathlib.Core.List.{append-nil}
use Prim.Native.String.{String}

-- The append extends the chunk by a record, which the cursor finds where the chunk ended, whatever
-- follows, going on to the end of the record, and from which the value is decoded.
abbrev pub Restores :
    {A : Type 0}
    → (Bytes → Result Bytes)
    → (RecordView → Result (Option A))
    → A
    → ℕ
    → Bytes
    → Bytes
    → Type 0
Restores append decode value maximum chunk rest =
    (chunk' : Bytes) × (append chunk ≡ ok chunk')
    × (view : RecordView) × (next (cursor_at (chunk' ++ rest) (length chunk) maximum)
        ≡ ok (some view, cursor_at (chunk' ++ rest) (length chunk') maximum))
    × (decode view ≡ ok (some value))

module _ {B : Type 0} {f : Append} {fields : Reader B} {parts : B} {n : ℕ}
    (c : Codes f fields parts n) where
  pub length-Codes : length (f []) ≡ n
  length-Codes = ap length (c.appends []) ∙ c.sized

  pub run-whole :
      {A : Type 0} (catch : Catch) (prefix : String) (build : B → Result A)
      (validate : A → Result (Unit {0})) (value : A)
      → build parts ≡ ok value
      → validate value ≡ ok tt
      → run (whole catch prefix build validate fields) (f []) ≡ ok value
  unfolding whole expect_done return
  run-whole catch prefix build validate value made valid =
      let reads : fields (f []) ≡ ok (parts, []) =
        ap fields (c.appends [] ∙ sym (append-nil c.bytes)) ∙ c.reads [] in
      let ends : whole catch prefix build validate fields (f []) ≡ ok (value, []) =
        bind_lem fields _ reads (
          bind_lem expect_done _ refl (
            bind_lem (attempt (build parts)) _ (attempt_lem (build parts) made) (
              bind_lem (attempt (recoded catch prefix (validate value))) _
                (attempt_lem (recoded catch prefix (validate value))
                  (ap (recoded catch prefix) valid))
                refl))) in
      run_lem (whole catch prefix build validate fields) ends

  pub restores :
      {A : Type 0} (append : Bytes → Result Bytes) (decode : RecordView → Result (Option A))
      (value : A) (type maximum : ℕ) (chunk rest : Bytes)
      → append chunk ≡ append_record chunk type 1 (f []) maximum
      → decode (view_of type 1 (f [])) ≡ ok (some value)
      → type ≢ 0
      → type < 2 ^ 16
      → Fits chunk n maximum
      → Restores append decode value maximum chunk rest
  restores append decode value type maximum chunk rest appends decodes t0 t fits =
      let fits' : Fits chunk (length (f [])) maximum =
        subst (λ k. Fits chunk k maximum) (sym length-Codes) fits in
      let r =
        next-append_record chunk (f []) rest type 1 maximum t0 t (omega arith) (omega arith)
          fits' in
      (r.0, appends ∙ r.1, view_of type 1 (f []), r.2, decodes)
