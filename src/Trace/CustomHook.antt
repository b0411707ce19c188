-- ===== src/Trace/CustomHook.antt =====
-- include/noleax/trace/custom_hook.hpp and src/trace/custom_hook.cpp: the hooks on functions that a
-- user names. A `std::string` is the list of its bytes; `unnamed` is a byte without a name.
use noleax.Prelude.{ℕ, ◌≤◌, List, [], ◌∷◌, Bool, true, false, ltb, ◌≡◌, ◌≢◌, ◌↔◌, arith}
use noleax.Prelude.Map.{contains}
use noleax.Prelude.Error.{Result, ok, custom_hook_validation_error, throw_if, ◌>>◌}
use Prim.Native.String.{String}
use Prim.Native.String as Text

pub data CustomHookFailureRole : Type 0 where
  alloc realloc free point : CustomHookFailureRole
  unnamed : ℕ → CustomHookFailureRole

pub data CustomHookFailureReason : Type 0 where
  module_not_loaded export_not_found forwarded_export invalid_rva : CustomHookFailureReason
  wrong_signature image_identity_mismatch backend_unavailable other : CustomHookFailureReason
  unnamed : ℕ → CustomHookFailureReason

pub record CustomHookDefinition : Type 0 where
  pub api_id : ℕ
  pub module_name : List ℕ
  pub label : List ℕ

pub record CustomHookFailure : Type 0 where
  pub module_text : List ℕ
  pub role : CustomHookFailureRole
  pub reason : CustomHookFailureReason
  pub detail : List ℕ

abbrev custom_hook_api_id_base : ℕ
custom_hook_api_id_base = 0x1000

abbrev lacks_text : List ℕ → Bool
lacks_text [] = true
lacks_text (c ∷ cs) = false

validate_text : List ℕ → String → Result (Unit {0})
validate_text value field = do
  throw_if (lacks_text value) (custom_hook_validation_error (Text.◌++◌ field " must not be empty"))
  throw_if (contains value 0)
      (custom_hook_validation_error (Text.◌++◌ field " must not contain NUL"))

pub validate_custom_hook_definition : CustomHookDefinition → Result (Unit {0})
unfolding validate_text
validate_custom_hook_definition definition = do
  throw_if (ltb definition.api_id custom_hook_api_id_base)
      (custom_hook_validation_error "custom hook api_id is outside the custom hook ID range")
  validate_text definition.module_name "custom hook module name"
  validate_text definition.label "custom hook label"

pub validate_custom_hook_failure : CustomHookFailure → Result (Unit {0})
unfolding validate_text
validate_custom_hook_failure failure = do
  validate_text failure.module_text "custom hook failure module"
  validate_text failure.detail "custom hook failure detail"

-- A text that is not empty and has no NUL.
abbrev pub IsText : List ℕ → Type 0
IsText value = (value ≢ []) × (contains value 0 ≡ false)

-- The definition of a custom hook is accepted exactly where its identifier lies in the range of
-- these and both of its names are texts that are not empty and have no NUL.
pub validate_custom_hook_definition_lem :
    (definition : CustomHookDefinition)
    → (validate_custom_hook_definition definition ≡ ok tt)
      ↔ ((0x1000 ≤ definition.api_id) × IsText definition.module_name × IsText definition.label)
unfolding validate_custom_hook_definition validate_text
validate_custom_hook_definition_lem definition = (λ h. ground (arith, h), λ h. ground (arith, h))

-- The failure of a custom hook is accepted exactly where its module and its detail are texts that
-- are not empty and have no NUL.
pub validate_custom_hook_failure_lem :
    (failure : CustomHookFailure)
    → (validate_custom_hook_failure failure ≡ ok tt)
      ↔ (IsText failure.module_text × IsText failure.detail)
unfolding validate_custom_hook_failure validate_text
validate_custom_hook_failure_lem failure = (λ h. ground (arith, h), λ h. ground (arith, h))
