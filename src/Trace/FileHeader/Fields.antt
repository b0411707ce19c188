-- ===== src/Trace/FileHeader/Fields.antt =====
-- src/trace/wire_format.cpp and src/trace/trace_reader.cpp: the fields of a file header, as they are
-- appended and as they are read.
use noleax.Prelude.{ℕ, ◌^◌, ◌<◌, ◌≡◌, refl, IsU64, length}
use noleax.Trace.Bytes.{
  Bytes, Append, ◌▷◌, append_u8, append_u16, append_u32, append_u64, append_string_bytes,
}
use noleax.Trace.PayloadReader.{
  Reader, ◌>>=◌, return, read_u8, read_u16, read_u32, read_u64, read_string, read_guid,
}
use noleax.Trace.PayloadReader.Codes.{Codes, codes, Codes-last, Codes-resize}
use noleax.Trace.PayloadReader.Codes.Numbers.{
  Codes-u8, Codes-u16, Codes-u32, Codes-u64, Codes-string, Codes-guid,
}

-- The encoded fields, each at the end of the one before.
pub record HeaderFields : Type 0 where
  pub magic : Bytes
  pub header_size : ℕ
  pub format_major : ℕ
  pub format_minor : ℕ
  pub byte_order : ℕ
  pub pointer_width : ℕ
  pub platform : ℕ
  pub architecture : ℕ
  pub flags : ℕ
  pub session_id : Bytes
  pub file_index : ℕ
  pub monotonic_frequency : ℕ
  pub monotonic_origin : ℕ
  pub utc_origin_ns : ℕ

unfoldable pub append_header_fields : HeaderFields → Append
append_header_fields fields =
    append_string_bytes fields.magic
    ▷ append_u16 fields.header_size
    ▷ append_u16 fields.format_major
    ▷ append_u16 fields.format_minor
    ▷ append_u8 fields.byte_order
    ▷ append_u8 fields.pointer_width
    ▷ append_u16 fields.platform
    ▷ append_u16 fields.architecture
    ▷ append_u32 fields.flags
    ▷ append_string_bytes fields.session_id
    ▷ append_u32 fields.file_index
    ▷ append_u64 fields.monotonic_frequency
    ▷ append_u64 fields.monotonic_origin
    ▷ append_u64 fields.utc_origin_ns

unfoldable pub read_header_fields : Reader HeaderFields
read_header_fields = do
  magic ← read_string 8
  header_size ← read_u16
  format_major ← read_u16
  format_minor ← read_u16
  byte_order ← read_u8
  pointer_width ← read_u8
  platform ← read_u16
  architecture ← read_u16
  flags ← read_u32
  session_id ← read_guid
  file_index ← read_u32
  monotonic_frequency ← read_u64
  monotonic_origin ← read_u64
  utc_origin_ns ← read_u64
  return (record {
    magic = magic;
    header_size = header_size;
    format_major = format_major;
    format_minor = format_minor;
    byte_order = byte_order;
    pointer_width = pointer_width;
    platform = platform;
    architecture = architecture;
    flags = flags;
    session_id = session_id;
    file_index = file_index;
    monotonic_frequency = monotonic_frequency;
    monotonic_origin = monotonic_origin;
    utc_origin_ns = utc_origin_ns;
  })

-- Each field is a value of its type.
pub record HeaderFieldsWidths (fields : HeaderFields) : Type 0 where
  pub magic : length fields.magic ≡ 8
  pub header_size : fields.header_size < 2 ^ 16
  pub format_major : fields.format_major < 2 ^ 16
  pub format_minor : fields.format_minor < 2 ^ 16
  pub byte_order : fields.byte_order < 2 ^ 8
  pub pointer_width : fields.pointer_width < 2 ^ 8
  pub platform : fields.platform < 2 ^ 16
  pub architecture : fields.architecture < 2 ^ 16
  pub flags : fields.flags < 2 ^ 32
  pub session_id : length fields.session_id ≡ 16
  pub file_index : fields.file_index < 2 ^ 32
  pub monotonic_frequency : IsU64 fields.monotonic_frequency
  pub monotonic_origin : IsU64 fields.monotonic_origin
  pub utc_origin_ns : IsU64 fields.utc_origin_ns

pub Codes-header_fields :
    (fields : HeaderFields)
    → HeaderFieldsWidths fields
    → Codes (append_header_fields fields) read_header_fields fields 68
unfolding append_header_fields read_header_fields
Codes-header_fields fields widths = Codes-resize refl (
    codes _ (Codes-string fields.magic 8 widths.magic) (
      codes _ (Codes-u16 fields.header_size widths.header_size) (
        codes _ (Codes-u16 fields.format_major widths.format_major) (
          codes _ (Codes-u16 fields.format_minor widths.format_minor) (
            codes _ (Codes-u8 fields.byte_order widths.byte_order) (
              codes _ (Codes-u8 fields.pointer_width widths.pointer_width) (
                codes _ (Codes-u16 fields.platform widths.platform) (
                  codes _ (Codes-u16 fields.architecture widths.architecture) (
                    codes _ (Codes-u32 fields.flags widths.flags) (
                      codes _ (Codes-guid fields.session_id widths.session_id) (
                        codes _ (Codes-u32 fields.file_index widths.file_index) (
                          codes _ (Codes-u64 fields.monotonic_frequency widths.monotonic_frequency)
                            (codes _ (Codes-u64 fields.monotonic_origin widths.monotonic_origin) (
                              Codes-last _
                                (Codes-u64 fields.utc_origin_ns widths.utc_origin_ns)))))))))))))))
