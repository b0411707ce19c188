-- ===== src/Trace/FileHeader.antt =====
-- The header of a trace file: include/noleax/trace/wire_format.hpp and `encode_file_header` of
-- src/trace/wire_format.cpp, and the constructor of `TraceReader` in src/trace/trace_reader.cpp.
-- `other` is a number without a name; the input is what is left of the stream.
pub mod Fields
mod RoundTrip
mod Tests
use noleax.Prelude.{
  ℕ, ◌-◌, [], ◌∷◌, Bool, true, false, not, ◌&&◌, ◌||◌, if◌then◌else◌, ltb, ◌==◌, ◌!=◌, length,
}
use noleax.Prelude.Error.{
  Result, ok, err, wire_format_error, trace_read_error, throw_if, ◌>>=◌, ◌>>◌,
}
use noleax.Trace.Bytes.{Bytes}
use noleax.Trace.PayloadReader.{run, split_at}
use noleax.Trace.RecordCursor.{bytes_from}
use noleax.Trace.FileHeader.Fields.{HeaderFields, append_header_fields, read_header_fields}
use Prim.Native.String.{String}

pub data Platform : Type 0 where
  unknown windows linux macos : Platform
  other : ℕ → Platform

pub data Architecture : Type 0 where
  unknown x86 x64 arm64 : Architecture
  other : ℕ → Architecture

-- A time in nanoseconds is the word with the bits of the signed number.
pub record FileHeader : Type 0 where
  pub pointer_width : ℕ
  pub platform : Platform
  pub architecture : Architecture
  pub flags : ℕ
  pub session_id : Bytes
  pub file_index : ℕ
  pub monotonic_frequency : ℕ
  pub monotonic_origin : ℕ
  pub utc_origin_ns : ℕ

abbrev pub trace_magic : Bytes
trace_magic = 0x4e ∷ 0x4c ∷ 0x58 ∷ 0x54 ∷ 0x52 ∷ 0x41 ∷ 0x43 ∷ 0x45 ∷ []

abbrev pub file_header_size : ℕ
file_header_size = 68

abbrev pub trace_format_major : ℕ
trace_format_major = 1

abbrev pub trace_format_minor : ℕ
trace_format_minor = 4

-- `ByteOrder::kLittleEndian`
abbrev pub little_endian_order : ℕ
little_endian_order = 1

unfoldable pub platform_number : Platform → ℕ
platform_number Platform.unknown = 0
platform_number Platform.windows = 1
platform_number Platform.linux = 2
platform_number Platform.macos = 3
platform_number (Platform.other number) = number

unfoldable pub architecture_number : Architecture → ℕ
architecture_number Architecture.unknown = 0
architecture_number Architecture.x86 = 1
architecture_number Architecture.x64 = 2
architecture_number Architecture.arm64 = 3
architecture_number (Architecture.other number) = number

unfoldable pub is_supported_platform : Platform → Bool
is_supported_platform Platform.unknown = false
is_supported_platform (Platform.other number) = false
is_supported_platform _ = true

unfoldable pub is_supported_architecture : Architecture → Bool
is_supported_architecture Architecture.unknown = false
is_supported_architecture (Architecture.other number) = false
is_supported_architecture _ = true

abbrev refuse_if : Bool → String → Result (Unit {0})
refuse_if test message = throw_if test (wire_format_error message)

unfoldable pub validate_file_header : FileHeader → Result (Unit {0})
validate_file_header header = do
  refuse_if (header.pointer_width != 4 && header.pointer_width != 8)
      "pointer width must be 4 or 8 bytes"
  refuse_if (not (is_supported_platform header.platform)) "trace platform is not supported"
  refuse_if (not (is_supported_architecture header.architecture))
      "trace architecture is not supported"
  refuse_if (header.monotonic_frequency == 0) "monotonic frequency must not be zero"

unfoldable pub fields_of : FileHeader → HeaderFields
fields_of header = record {
  magic = trace_magic;
  header_size = file_header_size;
  format_major = trace_format_major;
  format_minor = trace_format_minor;
  byte_order = little_endian_order;
  pointer_width = header.pointer_width;
  platform = platform_number header.platform;
  architecture = architecture_number header.architecture;
  flags = header.flags;
  session_id = header.session_id;
  file_index = header.file_index;
  monotonic_frequency = header.monotonic_frequency;
  monotonic_origin = header.monotonic_origin;
  utc_origin_ns = header.utc_origin_ns;
}

unfoldable pub encode_file_header : FileHeader → Result Bytes
encode_file_header header = do
  validate_file_header header
  ok (append_header_fields (fields_of header) [])

abbrev fail_if : Bool → String → Result (Unit {0})
fail_if test message = throw_if test (trace_read_error message)

unfoldable pub parse_platform : ℕ → Result Platform
parse_platform value =
    if value == 1
    then ok Platform.windows
    else if value == 2
    then ok Platform.linux
    else if value == 3
    then ok Platform.macos
    else err (trace_read_error "trace platform is not supported")

unfoldable pub parse_architecture : ℕ → Result Architecture
parse_architecture value =
    if value == 1
    then ok Architecture.x86
    else if value == 2
    then ok Architecture.x64
    else if value == 3
    then ok Architecture.arm64
    else err (trace_read_error "trace architecture is not supported")

-- `std::equal` on the bytes of the first.
unfoldable pub equal : Bytes → Bytes → Bool
equal [] bytes = true
equal (byte ∷ magic) [] = false
equal (byte ∷ magic) (byte' ∷ bytes) = byte == byte' && equal magic bytes

-- A header, and whether the format was understood only in part.
pub record ParsedHeader : Type 0 where
  pub file_header : FileHeader
  pub partially_understood : Bool
  pub extension_size : ℕ

-- The tests of the constructor up to the extension, in its order.
unfoldable pub parse_fields : ℕ → HeaderFields → Result ParsedHeader
parse_fields max_file_header_size fields = do
  fail_if (not (equal trace_magic fields.magic)) "trace magic does not match NLXTRACE"
  fail_if (fields.byte_order != little_endian_order) "trace byte order is not supported"
  fail_if (ltb fields.header_size file_header_size || ltb max_file_header_size fields.header_size)
      "trace file header size is invalid"
  fail_if (fields.format_major != trace_format_major) "trace format major version is not supported"
  fail_if (fields.pointer_width != 4 && fields.pointer_width != 8)
      "trace pointer width must be 4 or 8 bytes"
  platform ← parse_platform fields.platform
  architecture ← parse_architecture fields.architecture
  fail_if (fields.monotonic_frequency == 0) "trace monotonic frequency must not be zero"
  ok (record {
    file_header = record {
      pointer_width = fields.pointer_width;
      platform = platform;
      architecture = architecture;
      flags = fields.flags;
      session_id = fields.session_id;
      file_index = fields.file_index;
      monotonic_frequency = fields.monotonic_frequency;
      monotonic_origin = fields.monotonic_origin;
      utc_origin_ns = fields.utc_origin_ns;
    };
    partially_understood =
        ltb trace_format_minor fields.format_minor || fields.header_size != file_header_size;
    extension_size = fields.header_size - file_header_size;
  })

pub record TraceReaderOptions : Type 0 where
  pub max_file_header_size : ℕ
  pub max_chunk_header_size : ℕ
  pub max_uncompressed_chunk_size : ℕ
  pub max_stored_chunk_size : ℕ
  pub max_compression_ratio : ℕ

abbrev pub chunk_header_size : ℕ
chunk_header_size = 56

unfoldable pub validate_options : TraceReaderOptions → Result (Unit {0})
validate_options options = do
  fail_if (ltb options.max_file_header_size file_header_size)
      "maximum file header size is smaller than the V1 header"
  fail_if (ltb options.max_chunk_header_size chunk_header_size)
      "maximum chunk header size is smaller than the V1 header"
  fail_if (options.max_uncompressed_chunk_size == 0 || options.max_stored_chunk_size == 0)
      "chunk size limits must not be zero"
  fail_if (options.max_compression_ratio == 0) "maximum compression ratio must not be zero"

-- The reader after its constructor: the header, the flag, and what is left of the input.
pub record TraceReader : Type 0 where
  pub file_header : FileHeader
  pub partially_understood : Bool
  pub left : Bytes

unfoldable pub skip_extension : Bytes → ParsedHeader → Result TraceReader
skip_extension input parsed = do
  fail_if (ltb (length input) parsed.extension_size) "trace file header extension is truncated"
  ok (record {
    file_header = parsed.file_header;
    partially_understood = parsed.partially_understood;
    left = bytes_from parsed.extension_size input;
  })

unfoldable pub new_trace_reader : TraceReaderOptions → Bytes → Result TraceReader
new_trace_reader options input = do
  validate_options options
  fail_if (ltb (length input) file_header_size) "trace file header is truncated"
  fields ← run read_header_fields (split_at file_header_size input).0
  parsed ← parse_fields options.max_file_header_size fields
  skip_extension (bytes_from file_header_size input) parsed
