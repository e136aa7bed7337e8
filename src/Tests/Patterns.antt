-- ===== src/Tests/Patterns.antt =====
-- Compiled patterns on concrete subjects: core/src/compiler_codegen.c and core/src/vm_exec.c.
use libsnobol.Base.{ℕ, ◌≡◌, refl, true, false, [], ◌∷◌, ◌++◌, replicate, some, arith}
use libsnobol.Compiler.Ast.{
  Node, literal, concat, alt, capture, arbno, emit, nil, cons, ast_node_nullable,
}
use libsnobol.Compiler.Code.{Emission, done, refused, fault}
use libsnobol.Compiler.Compile.{compile_ast_to_bytecode}
use libsnobol.Compiler.Correct.Execution.{exec-compile, EndsWith}
use libsnobol.Compiler.Correct.Meaning.{ends}
use libsnobol.Compiler.Correct.Plain.{IsPlain, code}
use libsnobol.Compiler.Fuse.{fuse_split_any}
use libsnobol.Strings.{has_prefix}
use libsnobol.Compiler.Folding.{FoldTables}
use libsnobol.Tests.Machine.{machine}
use libsnobol.Vm.Bytes.{Bytes}
use libsnobol.Vm.Exec.{exec}

abbrev pub no_tables : FoldTables
no_tables = record { lower_to_upper = []; upper_to_lower = []; multi_char = [] }

abbrev bytecode_of : Emission Bytes → Bytes
bytecode_of (done bc) = bc
bytecode_of refused = []
bytecode_of fault = []

-- `("ab" | "a") . v0 "bc"`
abbrev two_ways : Node
two_ways = concat (
    cons (capture 0 (alt (literal (b'a' ∷ b'b' ∷ [])) (literal (b'a' ∷ []))))
      (cons (literal (b'b' ∷ b'c' ∷ [])) nil))

abbrev two_ways_code : Bytes
two_ways_code = bytecode_of (compile_ast_to_bytecode no_tables two_ways false)

exec-compile_example :
    (fuel : ℕ) × EndsWith
      (some 3)
      (exec fuel true (machine two_ways_code (b'a' ∷ b'b' ∷ b'c' ∷ [])))
unfolding compile_ast_to_bytecode fuse_split_any code IsPlain ends has_prefix
exec-compile_example =
    exec-compile no_tables two_ways (machine two_ways_code (b'a' ∷ b'b' ∷ b'c' ∷ [])) true
      ((tt, tt), (tt, tt)) refl refl (omega arith)

-- A concatenation of two patterns that match the empty text is not taken for nullable.
ast_node_nullable_concat :
    ast_node_nullable (concat (cons (literal []) (cons (literal []) nil))) ≡ some false
unfolding ast_node_nullable
ast_node_nullable_concat = refl

-- ARBNO of a literal EMIT reads through the length of the text as through a pointer.
arbno_emit : compile_ast_to_bytecode no_tables (arbno (emit (some (b'x' ∷ [])) 0)) false ≡ fault
unfolding compile_ast_to_bytecode ast_node_nullable
arbno_emit = refl

-- The alternatives of the byte 0xC3 and of `b` are fused into a class of the code points U+0062 and
-- U+00C3; a subject that holds the byte 0xC3 alone is not matched any more.
abbrev byte_or_b : Node
byte_or_b = alt (literal (0xC3 ∷ [])) (literal (b'b' ∷ []))

byte_or_b_fused : fuse_split_any (code byte_or_b 0 ++ 0 ∷ [], []) ≡ (
  5 ∷ 0 ∷ 1 ∷ replicate 31 41 ++ 0 ∷ [],
  record { ranges = (b'b', b'b') ∷ (0xC3, 0xC3) ∷ []; case_insensitive = false } ∷ [],
)
unfolding fuse_split_any code
byte_or_b_fused = refl
