-- ===== src/Compiler/Safety.antt =====
-- What every emitter of core/src/compiler_codegen.c keeps, for all node types.
pub mod Extends
pub mod Operands
pub mod Nodes
pub mod Trees
