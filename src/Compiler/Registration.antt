-- ===== src/Compiler/Registration.antt =====
-- The list of classes: `add_or_get_charclass` and `get_cc_entry` of core/src/compiler_analysis.c.
use libsnobol.Vm.Bytes.{Bytes}
