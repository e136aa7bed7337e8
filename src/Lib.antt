-- ===== src/Lib.antt =====
-- libsnobol4: the run-time library of the SNOBOL4 pattern matcher in core/.
--
-- The program reads pattern source into a syntax tree, compiles the tree to bytecode and runs it on
-- a subject string with a virtual machine. The parts modelled here are the lexer, the compiler, the
-- machine with its choice stack and undo trail, the associative tables, and the string, comparison
-- and type functions.
--
-- Files and the code that they model:
--   Vm/Bytes        the operand readers and `utf8_peek_next` of core/include/snobol/vm.h
--   Vm/Arena        the page arena of core/src/vm_choice.c; a page's records are a list, the last
--                   first, each with its footprint, the size word in front and behind.
--                   Vm/Arena/Stack and Vm/Arena/Depth relate it to the list of live records.
--   Vm/State        `VM`, the undo records and the two layouts of a choice record
--   Vm/Trail        the undo trail of core/src/vm_capture.c: `trail_push`, the three writers,
--                   `trail_replay`
--   Vm/Choices      `vm_push_choice`, `vm_pop_choice` and the statistics of core/src/vm_choice.c
--   Vm/Classes      the character classes of core/src/vm_exec.c: `get_ranges_ptr`, the bitmaps,
--                   `range_contains`, `bitmap_single_ascii_byte`
--   Vm/Cursor       the loops over the subject that the handlers share
--   Vm/Handlers     one function for each opcode: `op_lit` is the case OP_LIT of `vm_run`, and so
--                   on. A handler ends in an `Outcome`: it goes on, matches, fails, or leaves the
--                   model, at an opcode that is not modelled or has no entry in `opcode_table`, or
--                   where the code would read behind the bytecode.
--   Vm/Exec         the dispatch loop `run`, `vm_exec` and the label table
--   Vm/Backtrack    what a push, a run and a pop restore
--   Vm/Bounds       the cursor stays within the subject
--   Vm/Membership, Vm/Bitmaps, Vm/SingleByte  the binary search, the bitmaps and the `memchr` path
--   Vm/Snapshot     the snapshot mode of the choice stack
--   Vm/Positions    POS, RPOS, TAB and RTAB on ASCII subjects
--   Vm/Growth       the growing trail and label table
--   Vm/Jumps        GOTO and GOTO_F
--   Vm/Buffer       the output buffer `snobol_buf` of core/src/vm_exec.c
--   Slots, Table    core/src/table.c: the entries and the probe loops, and the operations;
--                   Table/Probing, Counts, Rehash, Keys, Valid, Lookup and Frame hold the lemmas,
--                   from one probe to whole operations
--   Strings         core/src/string_fn.c; Strings/Encoding, CodePoints, Padding and Edits hold the
--                   lemmas
--                   Strings/Casing has UPPER and LOWER
--   Compiler/Ast    the node types of core/include/snobol/ast.h, and `ast_node_nullable`
--   Compiler/Code   the `cb_emit_*` functions of core/src/compiler_analysis.c
--   Compiler/Folding  core/src/unicode_fold.c
--   Compiler/CharClass, Compiler/Labels  the class list and the label table of a compilation
--   Compiler/Emit   the emitters of core/src/compiler_codegen.c: `emit_alt` is `emit_alt_c`, and so
--                   on. An emission ends in a new state, a refusal (-1), or a fault, a read through
--                   an invalid pointer.
--   Compiler/Fuse   the fusion pass of core/src/compiler_analysis.c
--   Compiler/Compile  `compile_ast_to_bytecode_c`
--   Compiler/Normalize, Compiler/Registration  the classes' normal form and their ids
--   Compiler/Safety what every emitter keeps
--   Compiler/Correct  compiled patterns on the machine: Plain and Meaning say what the code and the
--                   meaning of a pattern are, Patching relates the emitters to the code, Threads is
--                   an abstract machine without arena and registers, Behaviour runs the code on it,
--                   Machine, Dispatch and Instructions relate the virtual machine to it, and
--                   Cuts is about FENCE
--   Lexer           core/src/lexer.c; Lexer/Progress, Lookahead and Weight hold the lemmas
--   Parser          core/src/parser.c: Parser has the state, the tokens and the errors, Targets the
--                   registers and capture names, Calls the pattern functions, Tables assignments and
--                   tables, Primary and Grammar the rest; Trees and Reports hold the lemmas
--   Types           core/src/type_fn.c; Types/Lexical and Types/Numeric hold the lemmas
--   Tests           runs on concrete inputs, and an example for each result
--
-- The machine's handlers read the bytecode and the subject by `at`, which gives 0 out of range.
-- The operand readers test the range as the code does. Three reads the code does not test: the text of
-- OP_LIT, the opcode at the target of an unbounded OP_REPEAT_STEP, and the packed ranges of a class.
-- Where one of them would pass the end of the bytecode, the handler ends in `outside past_bytecode`;
-- for a class this is tested on the whole table of its ranges, before the first of them is read. The
-- tables at the end of the bytecode, which `get_ranges_ptr` and `vm_exec` search, are read by `at`
-- as they stand. An opcode from 42 on, for which the code jumps through a word behind `opcode_table`,
-- ends in `outside` too.
--
-- The machine calls the arena through the choice stack, and the choice stack calls the trail: a pop
-- replays the undo records above the record's trail base. A pop restores by the layout of the record
-- it reads; the code takes the layout from `use_compact_choice`, which `vm_run` sets once, after it
-- has emptied the arena, so that in a run every record has the layout of the mode.
--
-- Fuel: `run` takes the number of rounds, since bytecode may loop for ever. The loops over the
-- subject take its length, and each round moves by a byte or more. A probe of a table takes the
-- capacity, after which it would repeat. The doubling loop of the trail takes the number of
-- records and one. The string loops take the length, as do those of the lexer, of the class parser
-- and of the fusion pass. The binary search in a folding table takes its length and one. The parser
-- takes the depth of its calls; some sources with a lexical error keep it from ending.
--
-- The compiler reads a node's fields as words of 32 bits and cuts them to the width of the operand.
-- The code's positions are cut to 32 bits where they are emitted.
--
-- Numbers are natural numbers. A wrap-around is written out where the code can reach it: loop
-- counters, the trail base in a compact record, FNV hashes, label offsets and the counts of a
-- table. A position is at most a string's length. Allocation succeeds, and pointers are not null.
--
-- Not modelled: the opcodes OP_EVAL, OP_EMIT_*, OP_TABLE_*, OP_ARRAY_* and OP_DYNAMIC*, which call
-- the host or other parts; the cached range metadata, which repeats what the bytecode holds; the
-- write log, which nothing allocates or reads; the generated case folding tables, which are a
-- parameter; the arrays, the front ends of the compiler for other hosts, and the search
-- tiers.
pub mod Base
pub mod Vm
pub mod Slots
pub mod Table
pub mod Strings
pub mod Types
pub mod Compiler
pub mod Lexer
pub mod Parser
mod Tests
