-- ===== src/Trace/Tests.antt =====
-- A captured stack and a loaded module.
use noleax.Prelude.{[], ◌∷◌, none, some, ◌≡◌, ◌≢◌, ◌↔◌, All, arith}
use noleax.Prelude.Error.{ok}
use noleax.Trace.Stack.{
  StackCaptureStatus, StackDefinition, IsFrame, HasFrames, validate_stack_definition,
  validate_stack_definition_lem,
}
use noleax.Trace.CustomHook.{
  CustomHookFailureRole, CustomHookFailureReason, CustomHookDefinition, CustomHookFailure,
}
use noleax.Trace.Module.{ModuleLoad, validate_module_load, IsLoaded, validate_module_load_lem}

abbrev captured : StackDefinition
captured = record {
  stack_id = 1;
  status = StackCaptureStatus.complete;
  frames =
      record { module_id = 3; module_offset = 0x10; absolute_address = 0x401010; flags = 0 } ∷ [];
}

validate_stack_definition_lem_example : (validate_stack_definition captured ≡ ok tt) ↔ (
    (captured.stack_id ≢ 0)
    × HasFrames captured.status captured.frames
    × All IsFrame captured.frames)
validate_stack_definition_lem_example = validate_stack_definition_lem captured

abbrev program : ModuleLoad
program = record {
  module_id = 3;
  monotonic_ticks = 5;
  base_address = 0x401000;
  image_size = 0x2000;
  image_path = 0x2f ∷ 0x61 ∷ [];
  image_identity = some (record { timestamp = 1; checksum = 2; image_size = 0x2000 });
  pdb_identity = none;
  pdb_path = [];
  flags = 0;
}

validate_module_load_lem_example : (validate_module_load program ≡ ok tt) ↔ IsLoaded program
validate_module_load_lem_example = validate_module_load_lem program (omega arith) (omega arith)

abbrev pool_hook : CustomHookDefinition
pool_hook = record { api_id = 0x1001; module_name = 0x61 ∷ []; label = 0x62 ∷ [] }

abbrev missing_export : CustomHookFailure
missing_export = record {
  module_text = 0x61 ∷ [];
  role = CustomHookFailureRole.alloc;
  reason = CustomHookFailureReason.export_not_found;
  detail = 0x62 ∷ [];
}
