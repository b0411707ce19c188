-- ===== src/Trace/RecordCodec.antt =====
-- include/noleax/trace/record_codec.hpp and src/trace/record_codec.cpp: what the codecs of the
-- records have in common.
pub mod Enumerations
pub mod Restores
pub mod Samples
pub mod Fields
pub mod MappingFields
pub mod Losses
pub mod Events
pub mod Stacks
pub mod CaptureTotals
pub mod Memory
pub mod Hooks
pub mod Ends
pub mod HookFailures
pub mod Modules
mod Tests
use noleax.Prelude.{◌≡◌, ap, ◌∙◌, ℕ, Bool, true, false, ◌||◌, ◌!=◌, Option, none, some}
use noleax.Prelude.Error.{
  Error, Result, ok, err, record_codec_error, event_validation_error, completeness_validation_error,
  stack_validation_error, module_validation_error, custom_hook_validation_error,
  memory_snapshot_validation_error,
}
use noleax.Trace.PayloadReader.{Reader, ◌>>=◌, ◌>>◌, return, attempt, expect_done, run}
use noleax.Trace.RecordCursor.{RecordView}
use Prim.Native.String.{String}
use Prim.Native.String as Text

abbrev pub record_version : ℕ
record_version = 1

-- `catch (const SomeValidationError& error)`: its text, where the exception is of the class.
abbrev pub Catch : Type 0
Catch = Error → Option String

unfoldable pub catch_event : Catch
catch_event (event_validation_error text) = some text
catch_event _ = none

unfoldable pub catch_completeness : Catch
catch_completeness (completeness_validation_error text) = some text
catch_completeness _ = none

unfoldable pub catch_stack : Catch
catch_stack (stack_validation_error text) = some text
catch_stack _ = none

unfoldable pub catch_module : Catch
catch_module (module_validation_error text) = some text
catch_module _ = none

unfoldable pub catch_custom_hook : Catch
catch_custom_hook (custom_hook_validation_error text) = some text
catch_custom_hook _ = none

unfoldable pub catch_memory_snapshot : Catch
catch_memory_snapshot (memory_snapshot_validation_error text) = some text
catch_memory_snapshot _ = none

abbrev rethrown : Option String → String → Error → Error
rethrown none prefix thrown = thrown
rethrown (some text) prefix thrown = record_codec_error (Text.◌++◌ prefix text)

-- `try { <the result> } catch (...) { throw RecordCodecError{prefix + error.what()}; }`
abbrev pub recoded : Catch → String → Result (Unit {0}) → Result (Unit {0})
recoded catch prefix (ok done) = ok done
recoded catch prefix (err thrown) = err (rethrown (catch thrown) prefix thrown)

-- The end of a decoder: nothing is left, the fields make a value, and the value is valid.
unfoldable pub whole :
    {A B : Type 0} → Catch → String → (B → Result A) → (A → Result (Unit {0})) → Reader B → Reader A
whole catch prefix build validate fields = do
  parts ← fields
  expect_done
  value ← attempt (build parts)
  attempt (recoded catch prefix (validate value))
  return value

-- What is made of a result.
abbrev pub mapped : {A B : Type 0} → (A → B) → Result A → Result B
mapped f (ok value) = ok (f value)
mapped f (err thrown) = err thrown

-- A result, and what is made of its value.
abbrev pub built : {A B : Type 0} → Result A → (A → Result B) → Result B
built (ok value) next = next value
built (err thrown) next = err thrown

pub built_lem :
    {A B : Type 0} (result : Result A) (next : A → Result B) {a : A} {b : B}
    → result ≡ ok a
    → next a ≡ ok b
    → built result next ≡ ok b
built_lem result next e f = ap (λ r. built r next) e ∙ f

-- `if (test) throw RecordCodecError{message};`, and what follows it.
abbrev pub unless : {A : Type 0} → Bool → String → Result A → Result A
unless true message next = err (record_codec_error message)
unless false message next = next

pub unless_lem :
    {A : Type 0} (test : Bool) (message : String) (next : Result A) {a : A}
    → test ≡ false
    → next ≡ ok a
    → unless test message next ≡ ok a
unless_lem test message next e f = ap (λ b. unless b message next) e ∙ f

-- The value that is decoded from a record of a type, and no value from another type or version.
abbrev pub as_record : {A : Type 0} → ℕ → RecordView → Result A → Result (Option A)
as_record type view decoded = elim (view.record_type != type || view.version != record_version) [
  | true ↦ ok none
  | false ↦ mapped some decoded
]

-- A call that may throw, and what follows it.
abbrev pub after : {A : Type 0} → Result (Unit {0}) → Result A → Result A
after (ok done) next = next
after (err thrown) next = err thrown
