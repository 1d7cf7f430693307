-- ===== src/Lib.antt =====
-- A verification of parts of chibicc, a C compiler in C.
--
-- The compiler reads a file (tokenize.c, unicode.c), expands macros (preprocess.c), parses to a typed
-- tree (parse.c, type.c), lowers it to a high-level intermediate representation (ir/hlir.c) that the
-- passes of ir/hlir_opt*.c rewrite, lowers that to a low-level one (ir/ir.c, ir/opt*.c) and prints
-- assembly (codegen/). Modelled here:
--   Common: the library names, lists over the native numbers, bitwise laws and 64-bit words that the
--     other modules share.
--   Unicode (unicode.c): Utf8 has `encode_utf8` and `decode_utf8`, Ranges `is_ident1` and
--     `is_ident2`, Width `char_width` and `display_width`.
--   Types (type.c, chibicc.h): kinds of types and their predicates; Arithmetic is
--     `get_common_type` on arithmetic operands.
--   Strings (strings.c): `strarray_push`; `format` prints and is left out.
--   Hlir (ir/hlir.h, ir/hlir_opt.c): instructions, functions, the predicates and the mutation helpers.
--     Env is `HLIREnv`. Machine gives a function its meaning: a run over 64-bit words, with memory,
--     calls and floating point as an arbitrary effect, which is the specification that the passes are
--     held against; Frame and Run are about it.
--   Hlir/Fold (ir/hlir_opt_fold.c): `hlir_opt_const_fold`, its rounds and its correctness.
--   Hlir/DeadCode (ir/hlir_opt_dce.c): `hlir_opt_dce` and `hlir_opt_dead_code`; Unreachable is about
--     the second.
--   Hlir/Algebraic (ir/hlir_opt_algebraic.c): `hlir_opt_algebraic`; Rules and Binary have its rules,
--     Value what a rule knows and keeps, with a module for each rule it is shown of.
--   Hlir/Cse (ir/hlir_opt_cse.c): `hlir_opt_local_cse`; Match is about
--     `hlir_insn_match_cse`, Fuel about the loops.
--   Hlir/Compare (ir/hlir_opt.c): what the helpers for comparisons mean.
--   HashMap (hashmap.c): the table and its operations. Slots is about the sequence of buckets that a
--     search looks at, Search and Insert about the loops, Table has the invariant, Update what a write
--     changes; Delete, Store, Fresh, Rehash and Put are about the operations, Usable about tables that hold a
--     key twice as well, and Entries about the table as an association list.
--   Tokenize (tokenize.c): Prepare is the end of `read_file` and the passes of `tokenize_file`, which
--     Lines and Universal have; Lexeme is what stands at a place of the text, with Escape, Literal and
--     Number for the functions it calls; Scan is `tokenize`, `add_line_numbers` and `tokenize_file`;
--     Keyword is `is_keyword`, over the hash map.
--     Reads says what it means to read inside the text, and the Within modules show it.
--   Preprocess (preprocess.c, preprocess.h, and `equal` and `skip` of tokenize.c): Stream has the lists
--     of tokens, Hideset the hidesets, Names the names of the directives, Macro the table of macros, a
--     HashMap, and the reading of definitions and arguments, which Macro/Table and
--     Macro/Args are about, Text the tokens that are made
--     from text, with Text/Quote about strings, State the state, Subst `subst`, with Subst/Params about
--     it, Expand `expand_macro`, Skip `skip_cond_incl`, Const the expressions of `#if`, Directive the
--     handlers, and Loop `preprocess2` and `preprocess`.
--     Tree is a file as lines and nested groups; Skip/Nested and Skip/Branch are about the groups that
--     are skipped, Loop/Select says which lines are selected, Loop/Handlers, Openers and Elifs are about
--     the directives, and Loop/Gives, Branches, Closed, Groups and Texts about the loop on such a file.
--     Loop/Cost and Loop/Macros are about object-like macros. Runs has runs on small files.
--   Tests modules hold examples.
--
-- A `char *` is a list of bytes, a pointer into it the remaining list or the number of bytes read; a
-- value of the intermediate representation is its id, NULL is `none`, and the linked list of a
-- function's instructions is a list, so that a pass returns the list that it leaves and what the call
-- returns. A machine integer is the number of its bit pattern, with wrap-around written out; a
-- function that does not return (`error_at`, `unreachable`, a failed assertion) has a result of its
-- own; only a search of the macros that would end in `unreachable()` finds nothing instead. The text
-- of a file ends at its first NUL, and reading on behind the end of a text is a result of its own.
--
-- Fuel: `display_width` takes `len` rounds, since each consumes a byte; `grow_capacity` the number of
-- keys, where one round is enough; `put_nested` a level for each call of `hashmap_put2` within
-- another, of which there are two, since `rehash` leaves room; `find_shift` takes 64, the width of a
-- word; `convert_loop` and `tokenize_loop` the length of the text, `read_units` that of the literal,
-- and `ident_loop` one more than that of the text; `cse_insns` takes the number of instructions; the
-- loops that skip groups and that substitute arguments take the number of tokens, `params_loop` one
-- more; `preprocess_loop` takes a unit for each round, which are as many as tokens where nothing is
-- expanded, and `cost` where object-like macros are; `preprocess_const_expr` shares its fuel; `run`
-- takes a unit for each jump, is total, and the theorems about it hold for every amount.
--
-- Outside of the source: `strtoull` is that of the C library, in the C locale; `strtod` is a parameter
-- of `convert_pp_number`; `fread` delivers the bytes of a file.
--
-- Parameters: the parts of the preprocessor that are not modelled, and what it uses of the parser, are
-- the fields of `Parts` and `Evaluator`: `#include` and its search, `#embed`, `#line`, `#pragma` and
-- its operators, and the value of an expression. The handlers of built-in macros are fields of the
-- table's records.
--
-- Not modelled: messages and file names of the tokenizer and the preprocessor, the parser, lowering and
-- code generation, the passes of the low-level representation, register allocation, the driver, and
-- memory allocation, which is taken to succeed.
pub mod Common
pub mod Unicode
pub mod Types
pub mod Strings
pub mod HashMap
pub mod Tokenize
pub mod Preprocess
pub mod Hlir
