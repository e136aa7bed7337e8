-- ===== src/Compiler.antt =====
-- The pattern compiler from syntax tree to bytecode: core/src/compiler_codegen.c,
-- core/src/compiler_analysis.c and the node types of core/include/snobol/ast.h.
pub mod Ast
pub mod Code
pub mod Folding
pub mod CharClass
pub mod Labels
pub mod Emit
pub mod Normalize
pub mod Registration
pub mod Fuse
pub mod Compile
pub mod Correct
pub mod Safety
