-- ===== src/Trace/Identifiers.antt =====
-- include/noleax/trace/identifiers.hpp: identifiers are unsigned numbers, and 0 is no identifier.
use noleax.Prelude.{ℕ, Bool, ◌!=◌}

-- `Identifier<Tag, Representation>`: its value, below 2^64.
abbrev pub Identifier : Type 0
Identifier = ℕ

abbrev pub is_valid : Identifier → Bool
is_valid value = value != 0
