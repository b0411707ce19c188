-- ===== src/Lib.antt =====
-- A verification of noleax, which records the memory events of a process into a trace and works out
-- from the trace which memory is live.
--
-- The modelled parts, and how they interact. An agent in the observed process turns each call of an
-- allocator into an event; a trace is a sequence of records, most of which are events, with a
-- tracker that says how complete the trace is. An analyzer reads the events back and feeds them, in
-- order, to the generation tracker, which decides for each one whether it creates, changes or ends a
-- generation of memory, and tells its client by callbacks.
--
-- - Trace/Identifiers, Trace/Event, Trace/Event/Validate: include/noleax/trace/identifiers.hpp,
--   include/noleax/trace/event.hpp and src/trace/event.cpp. An event is a header and one of nine
--   payloads; `validate_event` is the source's, message by message. An enumeration of the source has
--   a byte for its representation, so it has a constructor `other` for a byte without a name.
-- - Trace/IntervalSet: include/noleax/trace/interval_set.hpp. The `std::map` from the begin of an
--   interval to its end and value is the list of its entries in key order, and an iterator is a split
--   of that list. Reference has the class invariant and a plain recursion to compare with, Subtract
--   the equality of the two, Laws what the operations do at a point.
-- - Trace/Completeness: include/noleax/trace/completeness.hpp and src/trace/completeness.cpp. The
--   module itself is `CompletenessReport`, a word of 32 bits; Statistics is `validate_loss_record`
--   and `validate_statistics`; Tracker is `CompletenessTracker`. Issues, Reports, History and Outcome
--   prove what a report says, Order which sequences of calls a tracker takes, Consistency and Accepted
--   which statistics are accepted.
-- - Trace/Stack, Trace/Module and Trace/CustomHook: include/noleax/trace/stack.hpp,
--   src/trace/stack.cpp, include/noleax/trace/module.hpp, src/trace/module.cpp,
--   include/noleax/trace/custom_hook.hpp and src/trace/custom_hook.cpp, with what their validators
--   accept.
-- - Trace/MemorySnapshot: include/noleax/trace/memory_snapshot.hpp and src/trace/memory_snapshot.cpp,
--   with what its validators accept in Ranges.
-- - Trace/Bytes and Trace/PayloadReader: the appending of numbers to a vector of bytes and the class
--   `PayloadReader` of src/trace/record_codec.cpp. An append is a function from the vector to the
--   vector, and a reader a function from the bytes that are left to a value and the bytes that are
--   left then. PayloadReader/Codes has the laws that join an append to a reader, step by
--   step, and Codes/Numbers those of each number and string.
-- - Trace/WireFormat and Trace/RecordCursor: `append_record` of src/trace/wire_format.cpp and the
--   class `RecordCursor` of src/trace/trace_reader.cpp, which frame the records of a chunk and find
--   them. Framing and Records join the two, Progress is how far the cursor goes.
-- - Trace/FileHeader: `encode_file_header` of src/trace/wire_format.cpp and the constructor of
--   `TraceReader` in src/trace/trace_reader.cpp. The input is the list of the bytes that a stream
--   without errors still has; the fields of the encoded array are read one after another.
-- - Trace/RecordCodec: include/noleax/trace/record_codec.hpp and src/trace/record_codec.cpp. A
--   child module holds a kind of record: Events (with Fields and MappingFields), Losses, Modules,
--   Stacks, CaptureTotals, Ends, Memory, Hooks, HookFailures and Samples; Enumerations has the bytes of the enumerations. In
--   each, RoundTrip joins `append_..._record`, the cursor and `decode_..._record`. An append takes the
--   chunk's payload last. `whole` is what the decoders have in common: no bytes are left, and the
--   value is valid, where a validator's exception is thrown again with another text before its own.
-- - Analyzer/GenerationTracker: include/noleax/analyzer/generation_tracker.hpp and
--   src/analyzer/generation_tracker.cpp. Allocations has the operations on the heap, Mappings those on
--   virtual memory and mapped views, Observe the dispatch on an event. Valid is the invariant, Heap*
--   and Mapping* preserve it, Lookup and Laws say what an event does to what is live.
--
-- State and errors. An object is a record that each operation takes and returns. An exception is a
-- value of Prelude/Error.Error with the source's class and text; a computation that may throw returns
-- a Result, and the state after an exception is not modelled: the analyzer stops there. Callbacks are
-- kept as a list of notices, newest first.
--
-- Numbers. A 64-bit sum or difference that can wrap has its wrap-around written out; where a guard
-- of the source excludes it the sum stands as it is. Identifiers and addresses are natural numbers,
-- and a theorem that depends on their width says so in a hypothesis.
--
-- Fuel. The one loop without a bound is the search for the end of a run of fragments in
-- `observe_vm_allocate`; its fuel is one more than the number of fragments, and each round passes a
-- fragment. Every other loop is a recursion on a list.
--
-- A signed number of 32 bits in a record is the word with its bits.
--
-- Not modelled: the chunks of a file and their compression (the rest of
-- src/trace/wire_format.cpp, src/trace/trace_reader.cpp and src/trace/trace_writer.cpp), the
-- analyzer's filters and collectors, the agent's queue, the protocol between the processes and the
-- parsing of options, all of which are separate parts; and hooks, system calls, symbol lookup and
-- text output, which are input and output of the platform.
pub mod Prelude
pub mod Trace
pub mod Analyzer
