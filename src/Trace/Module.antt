-- ===== src/Trace/Module.antt =====
-- include/noleax/trace/module.hpp and src/trace/module.cpp: loaded modules, and which are valid.
-- A `std::string` is the list of its bytes.
use noleax.Prelude.{
  ℕ, ◌+◌, ◌-◌, ◌^◌, List, [], ◌∷◌, Bool, true, false, not, ◌&&◌, ◌||◌, ltb, ◌!=◌, ◌==◌, Option,
  none, some, ◌≡◌, ◌≢◌, ◌↔◌, refl, u64_max, sub_u64, IsU64, arith,
}
use noleax.Prelude.Bits.{bit_not}
use noleax.Prelude.Map.{contains}
use noleax.Prelude.Error.{Result, ok, module_validation_error, throw_if, ◌>>◌}
use noleax.Trace.Identifiers.{Identifier, is_valid}
use Prim.Native.Nat.{bit_and, bit_or}
use Prim.Native.String.{String}
use Prim.Native.String as Text

pub record PeImageIdentity : Type 0 where
  pub timestamp : ℕ
  pub checksum : ℕ
  pub image_size : ℕ

pub record PdbIdentity : Type 0 where
  pub guid : List ℕ
  pub age : ℕ

pub record ModuleLoad : Type 0 where
  pub module_id : Identifier
  pub monotonic_ticks : ℕ
  pub base_address : ℕ
  pub image_size : ℕ
  pub image_path : List ℕ
  pub image_identity : Option PeImageIdentity
  pub pdb_identity : Option PdbIdentity
  pub pdb_path : List ℕ
  pub flags : ℕ

pub record ModuleUnload : Type 0 where
  pub module_id : Identifier
  pub monotonic_ticks : ℕ

-- `path_truncated` is bit 0 and `pdb_path_truncated` bit 1.
abbrev known_module_load_flags : ℕ
known_module_load_flags = bit_or (2 ^ 0) (2 ^ 1)

abbrev fail_if : Bool → String → Result (Unit {0})
fail_if test message = throw_if test (module_validation_error message)

abbrev is_empty : List ℕ → Bool
is_empty [] = true
is_empty (c ∷ cs) = false

unfoldable pub validate_string : List ℕ → String → Bool → Result (Unit {0})
validate_string value field required = do
  fail_if (required && is_empty value) (Text.◌++◌ field " must not be empty")
  fail_if (contains value 0) (Text.◌++◌ field " must not contain NUL")

abbrev has_other_size : Option PeImageIdentity → ℕ → Bool
has_other_size none size = false
has_other_size (some identity) size = identity.image_size != size

abbrev has_value : Option PdbIdentity → Bool
has_value none = false
has_value (some identity) = true

unfoldable pub validate_module_load : ModuleLoad → Result (Unit {0})
unfolding bit_not
validate_module_load load = do
  fail_if (not (is_valid load.module_id)) "module load requires a nonzero module_id"
  fail_if
      (load.base_address == 0
        || load.image_size == 0
        || ltb (sub_u64 u64_max load.base_address) load.image_size)
      "module load address range is invalid"
  validate_string load.image_path "module image path" true
  validate_string load.pdb_path "module PDB path" false
  fail_if (bit_and load.flags (bit_not known_module_load_flags) != 0)
      "module load flags are not supported in V1"
  fail_if (has_other_size load.image_identity load.image_size)
      "module PE identity size does not match the image range"
  fail_if (not (has_value load.pdb_identity) && not (is_empty load.pdb_path))
      "module PDB path requires a PDB identity"

unfoldable pub validate_module_unload : ModuleUnload → Result (Unit {0})
validate_module_unload unload =
    fail_if (not (is_valid unload.module_id)) "module unload requires a nonzero module_id"

-- A module that was loaded has an identifier, a range of addresses that is not empty and does not
-- wrap, a path, no NUL in a text, no unknown flag, and identities that fit the rest.
pub record IsLoaded (load : ModuleLoad) : Type 0 where
  pub module_id : load.module_id ≢ 0
  pub base : load.base_address ≢ 0
  pub size : load.image_size ≢ 0
  pub range : IsU64 (load.base_address + load.image_size)
  pub path : load.image_path ≢ []
  pub path_text : contains load.image_path 0 ≡ false
  pub pdb_text : contains load.pdb_path 0 ≡ false
  pub flags : bit_and load.flags (2 ^ 32 - 4) ≡ 0
  pub image :
      (identity : PeImageIdentity)
      → load.image_identity ≡ some identity
      → identity.image_size ≡ load.image_size
  pub pdb : load.pdb_identity ≡ none → load.pdb_path ≡ []

fits_size :
    (identity : Option PeImageIdentity) (size : ℕ)
    → ((i : PeImageIdentity) → identity ≡ some i → i.image_size ≡ size)
    → has_other_size identity size ≡ false
fits_size none size h = refl
fits_size (some i) size h = ground (arith, h i refl)

no_path :
    (identity : Option PdbIdentity) (path : List ℕ)
    → (identity ≡ none → path ≡ [])
    → (not (has_value identity) && not (is_empty path)) ≡ false
no_path none path h = ground (arith, h refl)
no_path (some i) path h = refl

-- The load of a module with a 64-bit base and size is accepted exactly where its identifier, base
-- and size are not 0, it ends below 2 ^ 64, its path is not empty, neither path has a NUL, no
-- unknown flag is set, an image identity has the size of the image, and a PDB path comes only with
-- a PDB identity.
pub validate_module_load_lem :
    (load : ModuleLoad)
    → IsU64 load.base_address
    → IsU64 load.image_size
    → (validate_module_load load ≡ ok tt) ↔ IsLoaded load
unfolding validate_module_load validate_string bit_not
validate_module_load_lem load hb hs = (
  λ h. record {
    module_id = ground (arith, h);
    base = ground (arith, h);
    size = ground (arith, h);
    range = ground (arith, h, hb, hs);
    path = ground (arith, h);
    path_text = ground (arith, h);
    pdb_text = ground (arith, h);
    flags = ground (arith, h);
    image = λ identity e. ground (arith, h, e);
    pdb = λ e. ground (arith, h, e);
  },
  λ l. ground (
    arith,
    hb,
    hs,
    l.module_id,
    l.base,
    l.size,
    l.range,
    l.path,
    l.path_text,
    l.pdb_text,
    l.flags,
    fits_size load.image_identity load.image_size l.image,
    no_path load.pdb_identity load.pdb_path l.pdb,
  ),
)
