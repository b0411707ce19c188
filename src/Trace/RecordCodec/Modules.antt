-- ===== src/Trace/RecordCodec/Modules.antt =====
-- src/trace/record_codec.cpp: the records of modules.
pub mod RoundTrip
use noleax.Prelude.{
  ℕ, ◌+◌, ◌-◌, Bool, true, false, ◌||◌, not, ◌==◌, ◌!=◌, ltb, Option, none, some, if◌then◌else◌,
  length, [], ◌∷◌,
}
use noleax.Prelude.Error.{Result, ok, err, throw_if, record_codec_error}
use noleax.Trace.Bytes.{
  Bytes, Append, ◌▷◌, append_u8, append_u32, append_u64, append_zeros, append_string_bytes, zeros,
}
use noleax.Trace.PayloadReader.{
  Reader, ◌>>=◌, ◌>>◌, return, read_u8, read_u32, read_u64, read_string, read_guid, expect_zeros,
  run, fail_if,
}
use noleax.Trace.RecordCodec.{record_version, catch_module, whole, after, mapped, built, unless}
use noleax.Trace.RecordCursor.{RecordView}
use noleax.Trace.WireFormat.{append_record, u32_max}
use noleax.Trace.Module.{
  ModuleLoad, ModuleUnload, PeImageIdentity, PdbIdentity, validate_module_load,
  validate_module_unload,
}
use noleax.Trace.RecordCodec.Losses.{value_or, has_value}
use Prim.Native.Nat.{bit_and, bit_or}
use Prim.Native.String.{String}

-- The fields of the record, as they stand in its payload.
pub record LoadFields : Type 0 where
  pub module_id : ℕ
  pub monotonic_ticks : ℕ
  pub base_address : ℕ
  pub image_size : ℕ
  pub flags : ℕ
  pub presence : ℕ
  pub timestamp : ℕ
  pub checksum : ℕ
  pub identity_image_size : ℕ
  pub pdb_age : ℕ
  pub guid : Bytes
  pub image_path : Bytes
  pub pdb_path : Bytes

abbrev pub no_image_identity : PeImageIdentity
no_image_identity = (record { timestamp = 0; checksum = 0; image_size = 0 })

unfoldable pub no_pdb_identity : PdbIdentity
unfolding zeros
no_pdb_identity = (record { guid = zeros 16; age = 0 })

-- Bit 0 for a PE identity, bit 1 for a PDB identity.
abbrev pub identities_of : Bool → Bool → ℕ
identities_of image pdb = bit_or (bit_or 0 (if image then 1 else 0)) (if pdb then 2 else 0)

unfoldable pub module_load_fields_of : ModuleLoad → LoadFields
module_load_fields_of load =
    let image = value_or load.image_identity no_image_identity in
    let pdb = value_or load.pdb_identity no_pdb_identity in
    record {
      module_id = load.module_id;
      monotonic_ticks = load.monotonic_ticks;
      base_address = load.base_address;
      image_size = load.image_size;
      flags = load.flags;
      presence = identities_of (has_value load.image_identity) (has_value load.pdb_identity);
      timestamp = image.timestamp;
      checksum = image.checksum;
      identity_image_size = image.image_size;
      pdb_age = pdb.age;
      guid = pdb.guid;
      image_path = load.image_path;
      pdb_path = load.pdb_path;
    }

-- `std::any_of` on the GUID's bytes.
abbrev pub any_nonzero : Bytes → Bool
any_nonzero [] = false
any_nonzero (byte ∷ bytes) = byte != 0 || any_nonzero bytes

-- An identity by its presence flag, and a refusal where it is absent and its fields are not 0.
abbrev pub identity_of : {A : Type 0} → Bool → Bool → String → A → Result (Option A)
identity_of true nonzero message identity = ok (some identity)
identity_of false true message identity = err (record_codec_error message)
identity_of false false message identity = ok none

abbrev pub image_identity_of : LoadFields → Result (Option PeImageIdentity)
image_identity_of fields =
    identity_of (bit_and fields.presence 1 != 0)
      (fields.timestamp != 0 || fields.checksum != 0 || fields.identity_image_size != 0)
      "absent module PE identity must be zero"
      (record {
        timestamp = fields.timestamp;
        checksum = fields.checksum;
        image_size = fields.identity_image_size;
      })

abbrev pub pdb_identity_of : LoadFields → Result (Option PdbIdentity)
pdb_identity_of fields =
    identity_of (bit_and fields.presence 2 != 0) (fields.pdb_age != 0 || any_nonzero fields.guid)
      "absent module PDB identity must be zero"
      (record { guid = fields.guid; age = fields.pdb_age })

abbrev pub load_with : LoadFields → Option PeImageIdentity → Option PdbIdentity → ModuleLoad
load_with fields image pdb = (record {
  module_id = fields.module_id;
  monotonic_ticks = fields.monotonic_ticks;
  base_address = fields.base_address;
  image_size = fields.image_size;
  image_path = fields.image_path;
  image_identity = image;
  pdb_identity = pdb;
  pdb_path = fields.pdb_path;
  flags = fields.flags;
})

unfoldable pub module_load_of : LoadFields → Result ModuleLoad
module_load_of fields =
    built (image_identity_of fields)
      (λ image. mapped (load_with fields image) (pdb_identity_of fields))

unfoldable pub append_module_load_fields : LoadFields → Append
append_module_load_fields fields =
    append_u64 fields.module_id
    ▷ append_u64 fields.monotonic_ticks
    ▷ append_u64 fields.base_address
    ▷ append_u64 fields.image_size
    ▷ append_u32 fields.flags
    ▷ append_u8 fields.presence
    ▷ append_zeros 3
    ▷ append_u32 fields.timestamp
    ▷ append_u32 fields.checksum
    ▷ append_u32 fields.identity_image_size
    ▷ append_u32 fields.pdb_age
    ▷ append_u32 (length fields.image_path)
    ▷ append_u32 (length fields.pdb_path)
    ▷ append_string_bytes fields.guid
    ▷ append_string_bytes fields.image_path
    ▷ append_string_bytes fields.pdb_path

-- The argument is the size of the whole payload.
unfoldable pub read_module_load_fields : ℕ → Reader LoadFields
read_module_load_fields size = do
  module_id ← read_u64
  monotonic_ticks ← read_u64
  base_address ← read_u64
  image_size ← read_u64
  flags ← read_u32
  presence ← read_u8
  fail_if (bit_and presence 0xfffffffc != 0) "module load presence flags are not supported"
  expect_zeros 3
  timestamp ← read_u32
  checksum ← read_u32
  identity_image_size ← read_u32
  pdb_age ← read_u32
  image_path_size ← read_u32
  pdb_path_size ← read_u32
  guid ← read_guid
  fail_if (image_path_size + pdb_path_size != size - 80)
      "module path sizes do not match the record payload"
  image_path ← read_string image_path_size
  pdb_path ← read_string pdb_path_size
  return (record {
    module_id = module_id;
    monotonic_ticks = monotonic_ticks;
    base_address = base_address;
    image_size = image_size;
    flags = flags;
    presence = presence;
    timestamp = timestamp;
    checksum = checksum;
    identity_image_size = identity_image_size;
    pdb_age = pdb_age;
    guid = guid;
    image_path = image_path;
    pdb_path = pdb_path;
  })

abbrev pub whole_module_load : ℕ → Reader ModuleLoad
whole_module_load size =
    whole catch_module "invalid ModuleLoad record: " module_load_of validate_module_load
      (read_module_load_fields size)

unfoldable pub append_module_load_record : ModuleLoad → ℕ → Bytes → Result Bytes
append_module_load_record load maximum_record_size chunk_payload =
    after (validate_module_load load) (
      after
        (throw_if
          (ltb u32_max (length load.image_path)
            || ltb u32_max (length load.pdb_path)
            || ltb maximum_record_size (8 + 80)
            || ltb (maximum_record_size - 8 - 80) (length load.image_path + length load.pdb_path))
          (record_codec_error "module load exceeds the configured record size limit"))
        (append_record chunk_payload 1 record_version
          (append_module_load_fields (module_load_fields_of load) []) maximum_record_size))

unfoldable pub append_module_unload : ModuleUnload → Append
append_module_unload unload = append_u64 unload.module_id ▷ append_u64 unload.monotonic_ticks

unfoldable pub read_module_unload : Reader ModuleUnload
read_module_unload = do
  module_id ← read_u64
  monotonic_ticks ← read_u64
  return (record { module_id = module_id; monotonic_ticks = monotonic_ticks })

unfoldable pub append_module_unload_record : ModuleUnload → ℕ → Bytes → Result Bytes
append_module_unload_record unload maximum_record_size chunk_payload =
    after (validate_module_unload unload) (
      append_record chunk_payload 2 record_version (append_module_unload unload [])
        maximum_record_size)

abbrev pub whole_module_unload : Reader ModuleUnload
whole_module_unload =
    whole catch_module "invalid ModuleUnload record: " ok validate_module_unload read_module_unload

pub data ModuleRecord : Type 0 where
  loaded : ModuleLoad → ModuleRecord
  unloaded : ModuleUnload → ModuleRecord

unfoldable pub decode_module_load : RecordView → Result ModuleLoad
decode_module_load view =
    unless (ltb (length view.payload) 80) "module load payload is truncated"
      (run (whole_module_load (length view.payload)) view.payload)

unfoldable pub decode_module_unload : RecordView → Result ModuleUnload
decode_module_unload view =
    unless (length view.payload != 16) "module unload payload has an invalid size"
      (run whole_module_unload view.payload)

unfoldable pub decode_module_record : RecordView → Result (Option ModuleRecord)
decode_module_record view =
    if view.version != record_version
    then ok none
    else if view.record_type == 1
    then mapped some (mapped loaded (decode_module_load view))
    else if view.record_type == 2
    then mapped some (mapped unloaded (decode_module_unload view))
    else ok none
