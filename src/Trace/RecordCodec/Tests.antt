-- ===== src/Trace/RecordCodec/Tests.antt =====
-- Records that are appended to a chunk and found again.
use noleax.Prelude.{[], ◌∷◌, none, some, ◌≡◌, refl, arith}
use noleax.Prelude.Error.{ok}
use noleax.Trace.Event.{EventStatus, SystemErrorDomain, ReallocationEffect, Event, EventPayload}
use noleax.Trace.Event.Validate.{
  validate_event, validate_header, validate_payload, validate_reallocation,
  validate_reallocation_effect, call_succeeded, is_known_status, is_known_error_domain,
  is_known_reallocation_effect,
}
use noleax.Trace.Completeness.Statistics.{
  LossReason, LossLocation, LossRecord, validate_loss_record, is_known_loss_reason,
  is_known_loss_location,
}
use noleax.Trace.Stack.{
  StackCaptureStatus, StackDefinition, validate_stack_definition, validate_frames,
}
use noleax.Trace.Module.{ModuleLoad, validate_module_load, validate_string}
use noleax.Trace.RecordCodec.Restores.{Restores}
use noleax.Trace.RecordCodec.Events.{
  append_event_record, decode_event_chunk_record, memory_event, loss_record,
}
use noleax.Trace.RecordCodec.Events.RoundTrip.{append_event_record-Restores}
use noleax.Trace.RecordCodec.Losses.{append_loss_record}
use noleax.Trace.RecordCodec.Losses.RoundTrip.{append_loss_record-Restores}
use noleax.Trace.RecordCodec.Modules.{
  append_module_load_record, decode_module_record, loaded, module_load_fields_of, no_pdb_identity,
}
use noleax.Trace.Bytes.{zeros}
use noleax.Trace.RecordCodec.Modules.RoundTrip.{append_module_load_record-Restores}
use noleax.Trace.RecordCodec.Stacks.{append_stack_definition_record, decode_stack_definition_record}
use noleax.Trace.RecordCodec.Stacks.RoundTrip.{append_stack_definition_record-Restores}

abbrev moved : Event
moved = record {
  header = record {
    sequence = 3;
    monotonic_ticks = 70;
    thread_id = 9;
    api_id = 2;
    status = EventStatus.success;
    stack_id = 4;
    flags = 0;
    system_error = record { domain = SystemErrorDomain.none; code = 0 };
  };
  payload = EventPayload.reallocation (record {
    heap_handle = 1;
    heap_id = 1;
    old_address = 0x1000;
    old_allocation_id = 5;
    requested_size = 64;
    result_address = 0x2000;
    new_allocation_id = 6;
    api_flags = 0;
    effect = ReallocationEffect.new_generation;
  });
}

moved_valid : validate_event moved ≡ ok tt
unfolding validate_event validate_header validate_payload validate_reallocation
    validate_reallocation_effect call_succeeded is_known_status is_known_error_domain
    is_known_reallocation_effect
moved_valid = refl

append_event_record-Restores_example :
    Restores
      (append_event_record moved 4096)
      decode_event_chunk_record
      (memory_event moved)
      4096
      (1 ∷ [])
      (2 ∷ [])
unfolding is_known_status is_known_error_domain is_known_reallocation_effect
append_event_record-Restores_example =
    append_event_record-Restores moved 4096 (1 ∷ []) (2 ∷ []) moved_valid
      (record {
        header = record {
          sequence = omega arith;
          monotonic_ticks = omega arith;
          thread_id = omega arith;
          api_id = omega arith;
          status = refl;
          domain = refl;
          stack_id = omega arith;
          flags = omega arith;
          code = omega arith;
        };
        payload = record {
          heap_handle = omega arith;
          heap_id = omega arith;
          old_address = omega arith;
          old_allocation_id = omega arith;
          requested_size = omega arith;
          result_address = omega arith;
          new_allocation_id = omega arith;
          api_flags = omega arith;
          effect = refl;
        };
      })
      (record { in_record = omega arith; in_word = omega arith; in_chunk = omega arith })

abbrev overrun : LossRecord
overrun = record {
  reason = LossReason.queue_full;
  location = LossLocation.agent_queue;
  estimated_event_count = some 12;
  sequence_range = none;
  tick_range = some (record { begin = 5; end = 9 });
}

overrun_valid : validate_loss_record overrun ≡ ok tt
unfolding validate_loss_record is_known_loss_reason is_known_loss_location
overrun_valid = refl

append_loss_record-Restores_example :
    Restores
      (append_loss_record overrun 4096)
      decode_event_chunk_record
      (loss_record overrun)
      4096
      []
      (2 ∷ [])
unfolding is_known_loss_reason is_known_loss_location
append_loss_record-Restores_example =
    append_loss_record-Restores overrun 4096 [] (2 ∷ []) overrun_valid
      (record {
        reason = refl;
        location = refl;
        count = omega arith;
        sequence_begin = omega arith;
        sequence_end = omega arith;
        tick_begin = omega arith;
        tick_end = omega arith;
      })
      (record { in_record = omega arith; in_word = omega arith; in_chunk = omega arith })

abbrev library : ModuleLoad
library = record {
  module_id = 3;
  monotonic_ticks = 5;
  base_address = 0x401000;
  image_size = 0x2000;
  image_path = 0x2f ∷ 0x61 ∷ [];
  image_identity = some (record { timestamp = 1; checksum = 2; image_size = 0x2000 });
  pdb_identity = none;
  pdb_path = [];
  flags = 0;
}

library_valid : validate_module_load library ≡ ok tt
unfolding validate_module_load validate_string
library_valid = refl

append_module_load_record-Restores_example :
    Restores
      (append_module_load_record library 4096)
      decode_module_record
      (loaded library)
      4096
      []
      []
unfolding module_load_fields_of no_pdb_identity zeros
append_module_load_record-Restores_example =
    append_module_load_record-Restores library 4096 [] [] library_valid
      (record {
        module_id = omega arith;
        monotonic_ticks = omega arith;
        base_address = omega arith;
        image_size = omega arith;
        flags = omega arith;
        presence = omega arith;
        known = refl;
        timestamp = omega arith;
        checksum = omega arith;
        identity_image_size = omega arith;
        pdb_age = omega arith;
        image_path_size = omega arith;
        pdb_path_size = omega arith;
        guid = refl;
      })
      (record { in_record = omega arith; in_word = omega arith; in_chunk = omega arith })

abbrev one_frame : StackDefinition
one_frame = record {
  stack_id = 1;
  status = StackCaptureStatus.complete;
  frames =
      record { module_id = 3; module_offset = 0x10; absolute_address = 0x401010; flags = 0 } ∷ [];
}

one_frame_valid : validate_stack_definition one_frame ≡ ok tt
unfolding validate_stack_definition validate_frames
one_frame_valid = refl

append_stack_definition_record-Restores_example :
    Restores
      (append_stack_definition_record one_frame 4096)
      decode_stack_definition_record
      one_frame
      4096
      []
      []
append_stack_definition_record-Restores_example =
    append_stack_definition_record-Restores one_frame 4096 [] [] one_frame_valid
      (record {
        stack_id = omega arith;
        status = refl;
        frames_size = omega arith;
        frames = (
          record {
            module_id = omega arith;
            module_offset = omega arith;
            absolute_address = omega arith;
            flags = omega arith;
          },
          tt,
        );
      })
      (record { in_record = omega arith; in_word = omega arith; in_chunk = omega arith })
