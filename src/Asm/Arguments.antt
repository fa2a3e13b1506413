-- ===== src/Asm/Arguments.antt =====
-- The arguments of rocketasm/main.c, and `main` from them to the files.
pub mod Laws
use rocketvm.Base.{ℕ, Bool, true, false, not, if◌then◌else◌, List, [], ◌∷◌, Option, none, some}
use rocketvm.Base.Print.{bytes}
use rocketvm.Exec.{Exec, ok}
use rocketvm.Cpu.Cycle.{Status, success, failure}
use rocketvm.Asm.Program.{Bytes, same_name}
use rocketvm.Asm.Main.{assemble}

-- `input_path`, `none` where it is NULL, and `output_path`.
pub record Paths : Type 0 where
  pub input : Option Bytes
  pub output : Bytes

-- `!strcmp(argv[i], "-o")`.
unfoldable pub is_output_flag : Bytes → Bool
is_output_flag arg = same_name arg (bytes "-o")

-- The loop over the arguments; `none` is the -1 of a `-o` that stands last.
unfoldable pub read_arguments : Paths → List Bytes → Option Paths
read_arguments paths [] = some paths
read_arguments paths (arg ∷ []) =
    if is_output_flag arg then none else some (record paths { input = some arg })
read_arguments paths (arg ∷ next ∷ rest) =
    let output = read_arguments (record paths { output = next }) rest in
    let input = read_arguments (record paths { input = some arg }) (next ∷ rest) in
    if is_output_flag arg then output else input

abbrev pub default_paths : Paths
default_paths = record { input = none; output = bytes "out.rvm" }

-- What the system answers: which files are readable, their contents, whether the lexer, the parser
-- and the program are allocated, for which capacities `realloc` finds room, and which files can be
-- opened for writing.
pub record Host : Type 0 where
  pub readable : Bytes → Bool
  pub contents : Bytes → Option Bytes
  pub allocates : Bool
  pub room : ℕ → Bool
  pub writable : Bytes → Bool

-- The calls behind the arguments. The lexer, the parser and the program are allocated behind the
-- reading of the file; either failure is a -1.
unfoldable pub assemble_file : Host → Bytes → Bytes → Exec (Bytes × Status)
assemble_file host input output =
    if not (host.readable input)
    then ok ([], failure)
    else if not host.allocates
    then ok ([], failure)
    else assemble host.room (host.writable output) (host.contents input)

-- What `main` does with the paths.
unfoldable pub with_paths : Host → Option Paths → Exec (Bytes × Status)
with_paths host none = ok ([], failure)
with_paths host (some paths) = elim paths.input [
  | none ↦ ok ([], failure)
  | some input ↦ assemble_file host input paths.output
]

-- `main` of rocketasm, on its arguments, the name of the program first: the bytes that go to the
-- output file, and what it returns.
unfoldable pub main : Host → List Bytes → Exec (Bytes × Status)
main host [] = ok ([], success)
main host (name ∷ []) = ok ([], success)
main host (name ∷ arg ∷ args) = with_paths host (read_arguments default_paths (arg ∷ args))
