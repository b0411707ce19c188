-- ===== src/Trace/FileHeader/RoundTrip.antt =====
-- src/trace/wire_format.cpp and src/trace/trace_reader.cpp: a file header that is encoded is read.
use noleax.Prelude.{
  ℕ, ◌+◌, ◌-◌, ◌≤◌, [], ◌++◌, true, false, ◌&&◌, ◌||◌, ltb, ◌==◌, ◌!=◌, length, length-append, ◌≡◌,
  refl, ap, sym, ◌∙◌, arith,
}
use noleax.Prelude.Error.{ok}
use noleax.Trace.Bytes.{Bytes}
use noleax.Trace.PayloadReader.{run, split_at}
use noleax.Trace.PayloadReader.Codes.{run_lem}
use noleax.Trace.PayloadReader.Codes.Numbers.{split_at-append}
use noleax.Trace.RecordCodec.Restores.{length-Codes}
use noleax.Trace.RecordCursor.{bytes_from}
use noleax.Trace.RecordCursor.Framing.{bytes_from-append}
use noleax.Trace.FileHeader.Fields.{
  HeaderFields, HeaderFieldsWidths, append_header_fields, read_header_fields, Codes-header_fields,
}
use noleax.Trace.FileHeader.{
  TraceReaderOptions, validate_options, Platform, Architecture, FileHeader, ParsedHeader,
  platform_number, architecture_number, is_supported_platform, is_supported_architecture,
  validate_file_header, fields_of, encode_file_header, parse_platform, parse_architecture, equal,
  parse_fields, skip_extension, new_trace_reader,
}
use mathlib.Core.Bool.{false≢true}
use mathlib.Core.List.{append-nil}

parse_platform-platform_number :
    (p : Platform) → is_supported_platform p ≡ true → parse_platform (platform_number p) ≡ ok p
unfolding parse_platform platform_number is_supported_platform
parse_platform-platform_number Platform.unknown h = absurd (false≢true h)
parse_platform-platform_number Platform.windows h = refl
parse_platform-platform_number Platform.linux h = refl
parse_platform-platform_number Platform.macos h = refl
parse_platform-platform_number (Platform.other n) h = absurd (false≢true h)

parse_architecture-architecture_number :
    (a : Architecture)
    → is_supported_architecture a ≡ true
    → parse_architecture (architecture_number a) ≡ ok a
unfolding parse_architecture architecture_number is_supported_architecture
parse_architecture-architecture_number Architecture.unknown h = absurd (false≢true h)
parse_architecture-architecture_number Architecture.x86 h = refl
parse_architecture-architecture_number Architecture.x64 h = refl
parse_architecture-architecture_number Architecture.arm64 h = refl
parse_architecture-architecture_number (Architecture.other n) h = absurd (false≢true h)

-- The fields that a writer of another minor version, whose header is longer, appends.
unfoldable pub later : FileHeader → ℕ → ℕ → HeaderFields
unfolding fields_of
later header minor size = record (fields_of header) { format_minor = minor; header_size = size }

-- What the validator of a header guarantees.
record IsHeader (header : FileHeader) : Type 0 where
  pointer : (header.pointer_width != 4 && header.pointer_width != 8) ≡ false
  platform : is_supported_platform header.platform ≡ true
  architecture : is_supported_architecture header.architecture ≡ true
  frequency : (header.monotonic_frequency == 0) ≡ false

validate_file_header-IsHeader :
    (header : FileHeader) → validate_file_header header ≡ ok tt → IsHeader header
unfolding validate_file_header
validate_file_header-IsHeader header h = record {
  pointer = ground (arith, h);
  platform = ground (arith, h);
  architecture = ground (arith, h);
  frequency = ground (arith, h);
}

module _ (header : FileHeader) (minor size : ℕ) where
  parsed : ParsedHeader
  parsed = record {
    file_header = header;
    partially_understood = ltb 4 minor || size != 68;
    extension_size = size - 68;
  }

  parse_fields_lem :
      (maximum : ℕ)
      → validate_file_header header ≡ ok tt
      → 68 ≤ size
      → size ≤ maximum
      → parse_fields maximum (later header minor size) ≡ ok parsed
  unfolding parse_fields equal parsed later fields_of
  parse_fields_lem maximum valid low high =
      let is = validate_file_header-IsHeader header valid in
      let sized : (ltb size 68 || ltb maximum size) ≡ false = ground (arith, low, high) in
      let platform = parse_platform-platform_number header.platform is.platform in
      let architecture =
        parse_architecture-architecture_number header.architecture is.architecture in
      rw (sized, is.pointer, platform, architecture, is.frequency) refl

  -- A valid header is read by a reader of this version also where a writer of another minor version
  -- made it longer: the extension is skipped, and the flag tells that the version is later or the
  -- header longer. The fields fit their types, the reader's
  -- options are accepted, and the header is no longer than they allow.
  pub new_trace_reader-later :
      (options : TraceReaderOptions) (extension rest : Bytes)
      → size ≡ 68 + length extension
      → validate_file_header header ≡ ok tt
      → HeaderFieldsWidths (later header minor size)
      → validate_options options ≡ ok tt
      → size ≤ options.max_file_header_size
      → new_trace_reader options
          (append_header_fields (later header minor size) [] ++ (extension ++ rest))
        ≡ ok (record {
          file_header = header;
          partially_understood = ltb 4 minor || size != 68;
          left = rest;
        })
  unfolding new_trace_reader skip_extension parsed
  new_trace_reader-later options extension rest e valid widths set high =
      let c = Codes-header_fields (later header minor size) widths in
      let encoded = append_header_fields (later header minor size) [] in
      let long : ltb (length (encoded ++ (extension ++ rest))) 68 ≡ false =
        ground (arith, length-append encoded (extension ++ rest), length-Codes c) in
      let reads : read_header_fields encoded ≡ ok (later header minor size, []) =
        ap read_header_fields (c.appends [] ∙ sym (append-nil c.bytes)) ∙ c.reads [] in
      let first : (split_at 68 (encoded ++ (extension ++ rest))).0 ≡ encoded =
        ap (λ k. (split_at k (encoded ++ (extension ++ rest))).0) (sym (length-Codes c))
        ∙ ap (λ r. r.0) (split_at-append encoded (extension ++ rest)) in
      let fields : run read_header_fields (split_at 68 (encoded ++ (extension ++ rest))).0
          ≡ ok (later header minor size) =
        ap (run read_header_fields) first ∙ run_lem read_header_fields reads in
      let behind : bytes_from 68 (encoded ++ (extension ++ rest)) ≡ extension ++ rest =
        ap (λ k. bytes_from k (encoded ++ (extension ++ rest))) (sym (length-Codes c))
        ∙ bytes_from-append encoded (extension ++ rest) in
      let checked = parse_fields_lem options.max_file_header_size valid (omega (arith, e)) high in
      let has_extension : ltb (length (extension ++ rest)) (size - 68) ≡ false =
        ground (arith, length-append extension rest, e) in
      let skipped : bytes_from (size - 68) (extension ++ rest) ≡ rest =
        (let same : size - 68 ≡ length extension = omega (arith, e) in
          ap (λ k. bytes_from k (extension ++ rest)) same ∙ bytes_from-append extension rest) in
      rw (set, long, fields, checked, behind, has_extension, skipped) refl

options_lem :
    (options : TraceReaderOptions)
    → validate_options options ≡ ok tt
    → 68 ≤ options.max_file_header_size
unfolding validate_options
options_lem options h = ground (arith, h)

-- A header that is encoded takes 68 bytes, from which, whatever follows, a reader whose options are
-- accepted gives it back, understood in full, and leaves what follows. The fields fit their types.
pub new_trace_reader-encode_file_header :
    (header : FileHeader) (options : TraceReaderOptions) (rest : Bytes)
    → validate_file_header header ≡ ok tt
    → HeaderFieldsWidths (fields_of header)
    → validate_options options ≡ ok tt
    → (bytes : Bytes) × (encode_file_header header ≡ ok bytes)
      × (length bytes ≡ 68)
      × (new_trace_reader options (bytes ++ rest)
          ≡ ok (record { file_header = header; partially_understood = false; left = rest }))
unfolding encode_file_header later fields_of
new_trace_reader-encode_file_header header options rest valid widths set = (
  append_header_fields (fields_of header) [],
  rw valid refl,
  length-Codes (Codes-header_fields (fields_of header) widths),
  new_trace_reader-later header 4 68 options [] rest refl valid widths set
      (options_lem options set),
)
