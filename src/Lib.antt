-- ===== src/Lib.antt =====
-- u6a is a compiler and an interpreter for the language Unlambda. The compiler, src/u6ac.c, is a
-- chain of three stages: the lexer makes an array of tokens from the bytes of the source, the parser
-- an array of nodes in pre-order from the tokens, and the code generator a bytecode file from the
-- nodes. The interpreter, src/u6a.c, loads such a file and executes it on a virtual machine.
--
-- Which file models which part:
-- - Base and its children: shared names, Boolean tests, list lemmas and the result type.
-- - Defs, VmDefs: src/defs.h and src/vm_defs.h, the tokens, nodes, opcodes and instructions.
-- - Lexer: src/lexer.c. `lex` is `u6a_lex`; `lex_loop` is its loop, `grow` the growth of the array,
--   `switch` the `switch`, `read_ch` the macro `READ_CH`. Lexer/Grammar says what a source text is;
--   Lexer/Sound and Lexer/Complete relate the lexer to it.
-- - Parser: src/parser.c. `parse` is `u6a_parse`; `parse_step` is a round of its loop. Parser/Term has
--   the terms that tokens and nodes stand for.
-- - Codegen: the loop of `u6a_codegen` in src/codegen.c. `visit` is the body of the loop, `unwind` the
--   loop that empties the stack, `take_string` the one that collects a constant string.
--   Codegen/Compile has a recursion on the term without stack and patching, to compare it with.
-- - Bytecode: the rest of src/codegen.c, the bytes of the file.
-- - Loader: src/runtime.c up to `u6a_runtime_init`, with `u6a_runtime_info` in Loader/Info.
-- - VmPool: src/vm_pool.c, src/vm_pool.h and `vm_stack_free` of src/vm_stack.c. `free_loop` is
--   `u6a_vm_pool_free`, `free_stack` is `vm_stack_free`; they call each other. VmPool/Owed has the
--   invariant of the reference counts, Begins, Allocs, Drops, Drains and Frees what keeps it. The
--   accumulator never drops the reference that it overwrites: `Pins` are the elements that have such a
--   reference.
-- - Semantics: what programs mean that are made of all functions but `c`, `d` and `e`; `cells` and
--   `grows` say what an evaluation needs of the pool.
-- - Runtime: `u6a_runtime_execute` in src/runtime.c. `ExecState` has its variables, `stack_push`,
--   `stack_pop` and the like are its macros; Runtime/Apply has the cases at `do_apply` that need more
--   than a line, `apply` in Runtime/Step is that `switch`, `step_ins` the one on the opcode, `step` a
--   round of the loop. Runtime/Start sets the stack and the pool up. Runtime/Values says which
--   function stands for which value; Cases, Steps, Macros, Yields, Holding, Reads, Serving,
--   Distributes, Applications, Code, Strings, Legible, Computes, Loading and Correct relate the rounds
--   to the rules of Semantics. Rounds and Agrees compare the runs of a program.
-- - Compiler: src/u6ac.c, `main` behind the options. Compiler/Outcomes, Compiler/Total, Compiler/Runs,
--   Compiler/Printable and Compiler/Outputs put the theorems on the stages together.
-- - Driver: the rest of src/u6ac.c, and the branch of `u6a_codegen` that dumps. `process_options` goes
--   through the results of `getopt_long` and opens the files, `main` in Driver/Main is `main`.
--   Driver/Opened and Driver/Unopened say which file is removed, Driver/Outcome what `main` comes to.
-- - Logging: src/logging.c, the texts of the messages. `error_text` is what a function `u6a_err_...`
--   prints, with a constructor of `Message` for each. Lexer/Reports has the messages of the lexer.
-- - Interpreter: src/u6a.c. `process_options` goes through the results of `getopt_long`, `interpret` is
--   `main`; what `strtoul` and `fopen` give are arguments. Interpreter/Runs puts the theorems on the
--   two programs together.
-- - Mnemonic, Dump: src/mnemonic.c and src/dump.c, the lines of the dump for the
--   instructions, and in Dump/Data for the constants; Dump/Data/Lines has the lines of
--   the hexadecimal dump.
-- - VmHeap, VmStack: src/vm_stack.c and src/vm_stack.h. Segments stand in a heap, the elements of one
--   as a list with the top first. VmStack/Chain says which list a chain of segments holds, if a segment
--   has room for five elements (the interpreter takes no fewer than 64) and all addresses that are
--   still to be allocated are free. Push, Pop, Copy, Separate, InPlace and Exchange relate the
--   operations to that list, Grows, Removes and Exchanges bound what they add to the reference counts.
--
-- Conventions. Bytes, sizes and positions are natural numbers; `u32` is written where the source
-- computes in `uint32_t` and the value may not fit. Memory is an argument: which requests are granted,
-- and what unwritten memory holds. A stack whose index the source lets wrap below 0 is a list, and
-- UINT32_MAX as its index the empty list. The input of the lexer and of the loader is the list of the
-- bytes to be read. What the host does with the bytes of an integer is the argument `little`.
--
-- The loop of the lexer runs on fuel, a round for each byte and one more. A round reads at least one
-- byte or ends the loop, so that this is enough. A number in a message has a round for
-- each digit, and more. The hexadecimal dump runs on a round for each byte, of which it shows up to
-- sixteen in one.
-- The loop of the execution runs on fuel, a round for each instruction; a program need not end.
-- Freeing a pool element or a segment runs on fuel, because it may free others; without continuations
-- three rounds are enough, since all that an element holds is pinned. All other loops are recursions on
-- a list or on a number of rounds that the source fixes beforehand.
--
-- Not modelled: which messages the components behind the lexer print, which has no effect on what is
-- modelled; the help texts; and what has been written to a stream before a write fails.
pub mod Base
pub mod Defs
pub mod VmDefs
pub mod Lexer
pub mod Parser
pub mod Codegen
pub mod Bytecode
pub mod Loader
pub mod VmHeap
pub mod VmStack
pub mod VmPool
pub mod Semantics
pub mod Runtime
pub mod Compiler
pub mod Logging
pub mod Interpreter
pub mod Mnemonic
pub mod Dump
pub mod Driver
