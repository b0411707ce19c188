-- ===== src/Trace/FileHeader/Tests.antt =====
-- The header of a trace from Linux, and one with an extension.
use noleax.Prelude.{[], ◌∷◌, ◌++◌, true, false, length, ◌≡◌, refl, arith}
use noleax.Prelude.Error.{ok}
use noleax.Trace.Bytes.{Bytes}
use noleax.Trace.FileHeader.{
  Platform, Architecture, FileHeader, validate_file_header, is_supported_platform,
  is_supported_architecture, fields_of, platform_number, architecture_number, encode_file_header,
  TraceReaderOptions, validate_options, new_trace_reader,
}
use noleax.Trace.FileHeader.Fields.{append_header_fields}
use noleax.Trace.FileHeader.RoundTrip.{
  later, new_trace_reader-later, new_trace_reader-encode_file_header,
}

abbrev session : Bytes
session = 1 ∷ 2 ∷ 3 ∷ 4 ∷ 5 ∷ 6 ∷ 7 ∷ 8 ∷ 9 ∷ 10 ∷ 11 ∷ 12 ∷ 13 ∷ 14 ∷ 15 ∷ 16 ∷ []

abbrev defaults : TraceReaderOptions
defaults = record {
  max_file_header_size = 65536;
  max_chunk_header_size = 65536;
  max_uncompressed_chunk_size = 16777216;
  max_stored_chunk_size = 17825792;
  max_compression_ratio = 65536;
}

defaults_valid : validate_options defaults ≡ ok tt
unfolding validate_options
defaults_valid = refl

abbrev from_linux : FileHeader
from_linux = record {
  pointer_width = 8;
  platform = Platform.linux;
  architecture = Architecture.x64;
  flags = 0;
  session_id = session;
  file_index = 1;
  monotonic_frequency = 1000000000;
  monotonic_origin = 77;
  utc_origin_ns = 1700000000000000000;
}

from_linux_valid : validate_file_header from_linux ≡ ok tt
unfolding validate_file_header is_supported_platform is_supported_architecture
from_linux_valid = refl

new_trace_reader-encode_file_header_example :
    (bytes : Bytes) × (encode_file_header from_linux ≡ ok bytes)
    × (length bytes ≡ 68)
    × (new_trace_reader defaults (bytes ++ 9 ∷ [])
        ≡ ok (record { file_header = from_linux; partially_understood = false; left = 9 ∷ [] }))
unfolding fields_of platform_number architecture_number
new_trace_reader-encode_file_header_example =
    new_trace_reader-encode_file_header from_linux defaults (9 ∷ []) from_linux_valid
      (record {
        magic = refl;
        header_size = omega arith;
        format_major = omega arith;
        format_minor = omega arith;
        byte_order = omega arith;
        pointer_width = omega arith;
        platform = omega arith;
        architecture = omega arith;
        flags = omega arith;
        session_id = refl;
        file_index = omega arith;
        monotonic_frequency = omega arith;
        monotonic_origin = omega arith;
        utc_origin_ns = omega arith;
      })
      defaults_valid

new_trace_reader-later_example :
    new_trace_reader defaults
      (append_header_fields (later from_linux 5 70) [] ++ ((0 ∷ 1 ∷ []) ++ 9 ∷ []))
    ≡ ok (record { file_header = from_linux; partially_understood = true; left = 9 ∷ [] })
unfolding later fields_of platform_number architecture_number
new_trace_reader-later_example =
    new_trace_reader-later from_linux 5 70 defaults (0 ∷ 1 ∷ []) (9 ∷ []) refl from_linux_valid
      (record {
        magic = refl;
        header_size = omega arith;
        format_major = omega arith;
        format_minor = omega arith;
        byte_order = omega arith;
        pointer_width = omega arith;
        platform = omega arith;
        architecture = omega arith;
        flags = omega arith;
        session_id = refl;
        file_index = omega arith;
        monotonic_frequency = omega arith;
        monotonic_origin = omega arith;
        utc_origin_ns = omega arith;
      })
      defaults_valid (omega arith)
