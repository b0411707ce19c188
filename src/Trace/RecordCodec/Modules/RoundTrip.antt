-- ===== src/Trace/RecordCodec/Modules/RoundTrip.antt =====
-- src/trace/record_codec.cpp: the records of modules are restored.
use noleax.Trace.PayloadReader.{run}
use noleax.Prelude.{
  ◌∙◌, ℕ, ◌+◌, ◌-◌, ◌^◌, ◌<◌, Bool, true, false, ◌||◌, ◌!=◌, ltb, Option, none, some, ◌≡◌, refl, ap,
  sym, arith, IsU64, length, [],
}
use noleax.Prelude.Error.{ok}
use noleax.Trace.Bytes.{Bytes, zeros}
use noleax.Trace.PayloadReader.{run}
use noleax.Trace.PayloadReader.Codes.{
  Codes, codes, Codes-last, fail_if_lem, Codes-step, Codes-resize,
}
use noleax.Trace.PayloadReader.Codes.Numbers.{
  Codes-u8, Codes-u32, Codes-u64, Codes-zeros, Codes-string, Codes-guid,
}
use noleax.Trace.RecordCodec.{catch_module, mapped, built_lem, unless_lem}
use noleax.Trace.RecordCodec.Restores.{Restores, restores, run-whole, length-Codes}
use noleax.Trace.RecordCursor.Records.{Fits}
use noleax.Trace.RecordCursor.Framing.{view_of}
use noleax.Trace.WireFormat.{u32_max}
use noleax.Trace.Module.{
  ModuleLoad, ModuleUnload, PeImageIdentity, PdbIdentity, validate_module_load,
  validate_module_unload,
}
use noleax.Trace.RecordCodec.Losses.{value_or, has_value}
use noleax.Trace.RecordCodec.Modules.{
  decode_module_load, whole_module_load, whole_module_unload, LoadFields, no_image_identity,
  no_pdb_identity, identities_of, module_load_fields_of, any_nonzero, identity_of,
  image_identity_of, pdb_identity_of, load_with, module_load_of, append_module_load_fields,
  read_module_load_fields, append_module_load_record, append_module_unload, read_module_unload,
  append_module_unload_record, whole_module_unload, decode_module_unload, decode_module_record,
  loaded, unloaded,
}
use Prim.Native.Nat.{bit_and}
use Prim.Native.String.{String}

-- The fields are values of their types, and the lengths fit a number of 32 bits.
pub record ModuleLoadFieldsWidths (fields : LoadFields) : Type 0 where
  pub module_id : IsU64 fields.module_id
  pub monotonic_ticks : IsU64 fields.monotonic_ticks
  pub base_address : IsU64 fields.base_address
  pub image_size : IsU64 fields.image_size
  pub flags : fields.flags < 2 ^ 32
  pub presence : fields.presence < 2 ^ 8
  pub known : (bit_and fields.presence 0xfffffffc != 0) ≡ false
  pub timestamp : fields.timestamp < 2 ^ 32
  pub checksum : fields.checksum < 2 ^ 32
  pub identity_image_size : fields.identity_image_size < 2 ^ 32
  pub pdb_age : fields.pdb_age < 2 ^ 32
  pub image_path_size : length fields.image_path < 2 ^ 32
  pub pdb_path_size : length fields.pdb_path < 2 ^ 32
  pub guid : length fields.guid ≡ 16

Codes-module_load_fields :
    (fields : LoadFields)
    → ModuleLoadFieldsWidths fields
    → Codes
        (append_module_load_fields fields)
        (read_module_load_fields (80 + length fields.image_path + length fields.pdb_path))
        fields
        (80 + length fields.image_path + length fields.pdb_path)
unfolding append_module_load_fields read_module_load_fields
Codes-module_load_fields fields widths = Codes-resize (omega arith) (
    codes _ (Codes-u64 fields.module_id widths.module_id) (
      codes _ (Codes-u64 fields.monotonic_ticks widths.monotonic_ticks) (
        codes _ (Codes-u64 fields.base_address widths.base_address) (
          codes _ (Codes-u64 fields.image_size widths.image_size) (
            codes _ (Codes-u32 fields.flags widths.flags) (
              codes _ (Codes-u8 fields.presence widths.presence) (
                Codes-step _ (λ left. fail_if_lem _ _ left widths.known)
                  (codes _ (Codes-zeros 3) (
                    codes _ (Codes-u32 fields.timestamp widths.timestamp) (
                      codes _ (Codes-u32 fields.checksum widths.checksum) (
                        codes _ (Codes-u32 fields.identity_image_size widths.identity_image_size) (
                          codes _ (Codes-u32 fields.pdb_age widths.pdb_age) (
                            codes _ (Codes-u32 (length fields.image_path) widths.image_path_size) (
                              codes _ (Codes-u32 (length fields.pdb_path) widths.pdb_path_size) (
                                codes _ (Codes-guid fields.guid widths.guid) (
                                  Codes-step _ (λ left. fail_if_lem _ _ left (ground arith))
                                    (codes _
                                      (Codes-string fields.image_path (length fields.image_path)
                                        refl)
                                      (Codes-last _ (
                                        Codes-string fields.pdb_path (length fields.pdb_path)
                                          refl)))))))))))))))))))

presence_lem :
    (a b : Bool)
    → ((bit_and (identities_of a b) 1 != 0) ≡ a) × ((bit_and (identities_of a b) 2 != 0) ≡ b)
presence_lem true true = (refl, refl)
presence_lem true false = (refl, refl)
presence_lem false true = (refl, refl)
presence_lem false false = (refl, refl)

identity_lem :
    {A : Type 0} (o : Option A) (flag nonzero : Bool) (message : String) (identity : A)
    → flag ≡ has_value o
    → value_or o identity ≡ identity
    → (has_value o ≡ false → nonzero ≡ false)
    → identity_of flag nonzero message identity ≡ ok o
identity_lem none flag nonzero message identity f v e = rw (f, e refl) refl
identity_lem (some w) flag nonzero message identity f v e = rw (f, sym v) refl

value_or-twice : {A : Type 0} (o : Option A) (d : A) → value_or o (value_or o d) ≡ value_or o d
value_or-twice none d = refl
value_or-twice (some a) d = refl

no_image_lem :
    (o : Option PeImageIdentity)
    → has_value o ≡ false
    → (PeImageIdentity.timestamp (value_or o no_image_identity) != 0
        || PeImageIdentity.checksum (value_or o no_image_identity) != 0
        || PeImageIdentity.image_size (value_or o no_image_identity) != 0)
      ≡ false
no_image_lem none e = refl
no_image_lem (some identity) e = cc

no_pdb_lem :
    (o : Option PdbIdentity)
    → has_value o ≡ false
    → (PdbIdentity.age (value_or o no_pdb_identity) != 0
        || any_nonzero (PdbIdentity.guid (value_or o no_pdb_identity)))
      ≡ false
unfolding zeros no_pdb_identity
no_pdb_lem none e = refl
no_pdb_lem (some identity) e = cc

-- The identities that are absent are told from those that are present by the flags alone.
module_load_of-fields : (load : ModuleLoad) → module_load_of (module_load_fields_of load) ≡ ok load
unfolding module_load_of module_load_fields_of
module_load_of-fields load =
    let flags = presence_lem (has_value load.image_identity) (has_value load.pdb_identity) in
    let fields = module_load_fields_of load in
    let image : image_identity_of fields ≡ ok load.image_identity =
      identity_lem load.image_identity _ _ _ _ flags.0
        (value_or-twice load.image_identity no_image_identity) (no_image_lem load.image_identity) in
    let pdb : pdb_identity_of fields ≡ ok load.pdb_identity =
      identity_lem load.pdb_identity _ _ _ _ flags.1
        (value_or-twice load.pdb_identity no_pdb_identity) (no_pdb_lem load.pdb_identity) in
    built_lem (image_identity_of fields) _ image
      (ap (mapped (load_with fields load.image_identity)) pdb)

-- The load of a module that is valid, with fields and lengths that fit their types and with
-- room in the chunk, is appended as a record that the cursor finds and from which it is decoded
-- again.
pub append_module_load_record-Restores :
    (load : ModuleLoad) (maximum : ℕ) (chunk rest : Bytes)
    → validate_module_load load ≡ ok tt
    → ModuleLoadFieldsWidths (module_load_fields_of load)
    → Fits chunk (80 + length load.image_path + length load.pdb_path) maximum
    → Restores
        (append_module_load_record load maximum)
        decode_module_record
        (loaded load)
        maximum
        chunk
        rest
unfolding append_module_load_record decode_module_record decode_module_load module_load_fields_of
append_module_load_record-Restores load maximum chunk rest valid widths fits =
    let c = Codes-module_load_fields (module_load_fields_of load) widths in
    let made = module_load_of-fields load in
    let decodes =
      run-whole c catch_module "invalid ModuleLoad record: " module_load_of validate_module_load
        load made valid in
    let guard : (ltb u32_max (length load.image_path)
          || ltb u32_max (length load.pdb_path)
          || ltb maximum (8 + 80)
          || ltb (maximum - 8 - 80) (length load.image_path + length load.pdb_path))
        ≡ false =
      ground (arith, fits.in_record, fits.in_word) in
    restores c (append_module_load_record load maximum) decode_module_record (loaded load) 1 maximum
      chunk rest (rw (valid, guard) refl)
      (let long : ltb (length (append_module_load_fields (module_load_fields_of load) [])) 80
            ≡ false =
          ground (arith, length-Codes c) in
        let whole_payload : decode_module_load
              (view_of 1 1 (append_module_load_fields (module_load_fields_of load) []))
            ≡ ok load =
          unless_lem _ _ _ long (
            ap
              (λ k.
                run (whole_module_load k)
                  (append_module_load_fields (module_load_fields_of load) []))
              (length-Codes c)
            ∙ decodes) in
        ap (λ r. mapped some (mapped loaded r)) whole_payload)
      (λ e. cc) (omega arith) fits

-- Each field is a value of its type.
pub record ModuleUnloadWidths (unload : ModuleUnload) : Type 0 where
  pub module_id : IsU64 unload.module_id
  pub monotonic_ticks : IsU64 unload.monotonic_ticks

pub Codes-module_unload :
    (unload : ModuleUnload)
    → ModuleUnloadWidths unload
    → Codes (append_module_unload unload) read_module_unload unload 16
unfolding append_module_unload read_module_unload
Codes-module_unload unload widths = Codes-resize refl (
    codes _ (Codes-u64 unload.module_id widths.module_id)
      (Codes-last _ (Codes-u64 unload.monotonic_ticks widths.monotonic_ticks)))

-- The unload of a module that is valid, with fields and lengths that fit their types and with
-- room in the chunk, is appended as a record that the cursor finds and from which it is decoded
-- again.
pub append_module_unload_record-Restores :
    (unload : ModuleUnload) (maximum : ℕ) (chunk rest : Bytes)
    → validate_module_unload unload ≡ ok tt
    → ModuleUnloadWidths unload
    → Fits chunk 16 maximum
    → Restores
        (append_module_unload_record unload maximum)
        decode_module_record
        (unloaded unload)
        maximum
        chunk
        rest
unfolding append_module_unload_record decode_module_record decode_module_unload
append_module_unload_record-Restores unload maximum chunk rest valid widths fits =
    let c = Codes-module_unload unload widths in
    let decodes =
      run-whole c catch_module "invalid ModuleUnload record: " ok validate_module_unload unload refl
        valid in
    let whole_payload : decode_module_unload (view_of 2 1 (append_module_unload unload []))
        ≡ ok unload =
      unless_lem (length (append_module_unload unload []) != 16)
        "module unload payload has an invalid size"
        (run whole_module_unload (append_module_unload unload [])) (ground (arith, length-Codes c))
        decodes in
    restores c (append_module_unload_record unload maximum) decode_module_record (unloaded unload) 2
      maximum chunk rest (rw valid refl) (ap (λ r. mapped some (mapped unloaded r)) whole_payload)
      (λ e. cc) (omega arith) fits
