-- ===== src/Lib.antt =====
-- The rocketvm repository: a virtual machine for a 16-bit instruction set (rocketvm), the program
-- that runs an image on it (rocketrun), and the assembler that makes images (rocketasm).
--
-- Parts, and how they interact. An assembly text goes through the lexer and the parser into a
-- program of instructions and labels. The encoder resolves labels and makes one 16-bit word of each
-- instruction, with the functions of the instruction set that stand beside the processor's decoder.
-- The emitter writes the words. The virtual machine copies the image into its memory and runs
-- cycles: a cycle fetches the word at RIP, decodes it, advances RIP and calls the handler of its
-- opcode.
--
-- Files:
-- - Isa: rocketvm/common/isa. `Opcode`, `Instr` and `encode`, `decode`, `mov_imm` .. `ret_word` are
--   rvm_opcode_t, rvm_instr_t, rvm_encode, rvm_decode and rvm_mov_imm .. rvm_ret.
-- - Memory: rocketvm/memory.h. The array is a function of the offset.
-- - Cpu/State, Cpu/Flags: rocketvm/cpu/cpu.h and cpu_internal.h.
-- - Cpu/Alu, Cpu/Data, Cpu/Transfer, Cpu/Ctrlf: the handlers rvm_cpu_exec_* of cpu_alu.c, cpu_data.c,
--   cpu_mem.c and cpu_ctrlf.c, with the `exec_` names of the source.
-- - Cpu/Cycle: cpu.c. `handler` is the table, `execute` and `cycle` are the two functions.
-- - Cpu/Dump: cpu_debug.c, the messages that it logs.
-- - Vm: vm.c, and the file check of common/utility/io.c. `create`, `load` and `run`.
-- - Files: common/utility/io.c, call by call; Log: common/utility/logger.c; Isa/Names:
--   common/isa/utility.c.
-- - Runner: rocketrun/main.c.
-- - Asm/Program, Asm/Lexer, Asm/Parser, Asm/Encoder, Asm/Emitter: the files of rocketasm with these
--   names; Asm/Dump and Asm/Lexer/Dump: what program.c and lexer.c print; Asm/Arguments and Asm/Main:
--   rocketasm/main.c, the arguments and the steps behind them.
-- - Asm/Meaning: what an instruction of a program is to do on a machine, without words, encoder and
--   decoder. It follows specification/Architecture.md, and the code where the two differ or the
--   document is silent (SHL by 0, MUL of 2 ^ 31 or more, labels as memory operands, odd addresses);
--   the bits that shifts move out, and the push of CALL, are those of Cpu/Alu/Shifts and
--   Cpu/Ctrlf/Stack. Its Execution is a whole run of a program by these meanings.
-- - Asm/Lexer/Comments: a text without its comments, written without the lexer.
-- - Runner/Assembled: rocketrun on an image that rocketasm has written.
-- - Cpu/Ctrlf/Frames: the stack of return addresses as a list.
-- - Exec: how a C function ends. A failed `assert` (without NDEBUG) and the overflow of a signed `int`
--   are crashes; a logged error is a value.
-- - Base: Boolean tests, lists, integers and bits, and what `printf` prints. Tests: runs at
--   concrete inputs.
--
-- A handler gets pointers to the processor and the memory; here it takes and returns them, and
-- those that ignore the memory take the processor alone. Registers, flags and memory are natural
-- numbers with the wrap-around of their C types written out. A machine is well-formed
-- (`IsWellFormed`) if its registers hold 16-bit words, no flag but the four is set, RIP is even,
-- RSP is odd and between 0xF001 and 0xFEFF, RSB is 0, and the memory holds bytes.
--
-- Fuel. `run` takes a unit for each cycle, since a program need not halt; the relation `Runs`
-- describes the loop without fuel. The parser's loop gets the length of the text and two units,
-- since each round is to take a token. All other loops are structural.
--
-- The assembler's `realloc` is the parameter `room` (whether a capacity can be had). Files,
-- `access`, `malloc` in the two `main` functions, the clock and the formatted message of a log line
-- are parameters too: Booleans, and the bytes that were read or printed. Of the standard library
-- `strtol` is written out for the digits that the lexer gives it, the character classes for a
-- `char` that is not negative (a byte from 0x80 is in none), `snprintf` for the bytes that it
-- stores, and the conversions of `printf` that the dumps use. Twenty digits are enough for a 64-bit
-- number in decimal, and sixteen in hexadecimal.
--
-- Not modelled: the release of memory, but for the buffers of io.c; failures of `malloc` in the
-- functions that `main` does not call itself; the text of the log messages outside cpu_debug.c; the
-- output of a build with DEBUG.
mod Base
pub mod Isa
pub mod Exec
pub mod Memory
pub mod Cpu
pub mod Vm
pub mod Log
pub mod Files
pub mod Runner
pub mod Asm
pub mod Tests
