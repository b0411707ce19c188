-- ===== src/Trace.antt =====
-- src/trace and include/noleax/trace: the trace format and the containers shared by both sides.
pub mod IntervalSet
pub mod Bytes
pub mod PayloadReader
pub mod WireFormat
pub mod FileHeader
pub mod MemorySnapshot
pub mod RecordCodec
pub mod RecordCursor
pub mod Identifiers
pub mod Event
pub mod Completeness
pub mod Stack
pub mod Module
pub mod CustomHook
mod Tests
