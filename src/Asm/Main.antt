-- ===== src/Asm/Main.antt =====
-- The steps of rocketasm/main.c behind its arguments: read the text, parse it, resolve its labels
-- and emit the image.
pub mod Sound
pub mod Loaded
pub mod Execution
use rocketvm.Base.{ℕ, Bool, if◌then◌else◌, [], Option, none, some}
use rocketvm.Exec.{Exec, ok}
use rocketvm.Cpu.Cycle.{Status, failure}
use rocketvm.Vm.{read_file}
use rocketvm.Asm.Program.{Bytes, Program, create}
use rocketvm.Asm.Encoder.{resolve_labels}
use rocketvm.Asm.Parser.{Parsed, done, failed, out_of_fuel, parse}
use rocketvm.Asm.Emitter.{emit_binary}

-- The steps behind the parser. The parser's model has the outcome `out_of_fuel`, which the code has
-- not.
unfoldable pub after_parse : Bool → Parsed → Exec (Bytes × Status)
after_parse opened (done program) =
    if resolve_labels program program.instrs then emit_binary opened program else ok ([], failure)
after_parse opened failed = ok ([], failure)
after_parse opened out_of_fuel = ok ([], failure)

-- The steps behind `rvm_io_read_file`.
unfoldable pub assemble_text : (ℕ → Bool) → Bool → Option Bytes → Exec (Bytes × Status)
unfolding after_parse
assemble_text room opened none = ok ([], failure)
assemble_text room opened (some text) = after_parse opened (parse room text create)

-- From what is read of the input file to the bytes written and the status.
unfoldable pub assemble : (ℕ → Bool) → Bool → Option Bytes → Exec (Bytes × Status)
unfolding assemble_text
assemble room opened file = assemble_text room opened (read_file file)
