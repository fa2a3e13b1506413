-- ===== src/Tests/Hosts.antt =====
-- Files, the log, the two `main` functions and nested calls at concrete inputs.
use rocketvm.Base.{
  ℕ, ◌≤◌, ◌++◌, true, false, List, [], ◌∷◌, some, none, ◌≡◌, ◌≢◌, ◌↔◌, refl, arith, Array,
}
use rocketvm.Base.Print.{bytes}
use rocketvm.Base.Take.{take}
use rocketvm.Exec.{ok}
use rocketvm.Isa.Decode.{decode}
use rocketvm.Cpu.State.{Vm}
use rocketvm.Cpu.Ctrlf.{jump_target, exec_call, exec_ret}
use rocketvm.Cpu.Ctrlf.Frames.{Frames, enter, leave, Represents, exec_call-refines}
use rocketvm.Vm.{create}
use rocketvm.Files.{Calls, Resources, io_read_file}
use rocketvm.Files.Laws.{Succeeds, io_read_file_iff, io_read_file_resources}
use rocketvm.Log.{info, only_debug, is_fatal, heading, compose, written, log}
use rocketvm.Log.Line.{message_text, log_lem, compose-bounds}
use rocketvm.Asm.Main.{assemble}
use rocketvm.Asm.Arguments
use rocketvm.Asm.Arguments.{default_paths, Paths, read_arguments}
use rocketvm.Asm.Arguments.Laws.{Argument, source, target, read_arguments-render, main-render}

-- A file of one byte.
abbrev calls : Calls
calls = record {
  opens = true;
  seeks_end = true;
  tells = some 1;
  seeks_set = true;
  allocates = true;
  reads = 7 ∷ [];
}

abbrev unused : Resources
unused = record { streams = 0; buffers = 0 }

abbrev one_byte : List ℕ
one_byte = 7 ∷ []

io_read_file_iff_example :
    ((io_read_file calls unused).0 ≡ some one_byte) ↔ (Succeeds calls one_byte × (one_byte ≢ []))
io_read_file_iff_example = io_read_file_iff calls unused one_byte

io_read_file_resources_example :
    ((io_read_file calls unused).1.streams ≡ 0) × ((io_read_file calls unused).1.buffers ≡ 1)
unfolding io_read_file
io_read_file_resources_example = io_read_file_resources calls unused

abbrev blank : Array
blank = λ i. 0

log_lem_example :
    log true (bytes "12:00:00") info (bytes "vm.c") 51 (some (bytes "loaded")) blank
    ≡ written (
        take 1023 (
          heading true (bytes "12:00:00") info (bytes "vm.c") 51
          ++ (message_text (some (bytes "loaded")) ++ b'\n' ∷ [])))
unfolding only_debug is_fatal
log_lem_example =
    log_lem true (bytes "12:00:00") info (bytes "vm.c") 51 (some (bytes "loaded")) blank

compose-bounds_example :
    ((compose (bytes "12:00:00 ") (some (bytes "loaded")) blank).offset ≤ 1023)
    × ((j : ℕ) → 1024 ≤ j → (compose (bytes "12:00:00 ") (some (bytes "loaded")) blank).buf j ≡ 0)
compose-bounds_example = compose-bounds (bytes "12:00:00 ") (some (bytes "loaded")) blank

-- `a.rsm -o b`.
abbrev options : List Argument
options = source (bytes "a.rsm") ∷ target (bytes "b") ∷ []

other_path : bytes "a.rsm" ≢ bytes "-o"
other_path = ground arith

read_arguments-render_example :
    (read_arguments default_paths (bytes "a.rsm" ∷ bytes "-o" ∷ bytes "b" ∷ [])
      ≡ some (record { input = some (bytes "a.rsm"); output = bytes "b" }))
    × (read_arguments default_paths (bytes "a.rsm" ∷ bytes "-o" ∷ bytes "b" ∷ bytes "-o" ∷ [])
        ≡ none)
read_arguments-render_example = read_arguments-render default_paths options (other_path, tt)

abbrev host : Arguments.Host
host = record {
  readable = λ path. true;
  contents = λ path. some (b'r' ∷ b'e' ∷ b't' ∷ []);
  allocates = true;
  room = λ n. true;
  writable = λ path. true;
}

main-render_example :
    Arguments.main host (bytes "rocketasm" ∷ bytes "a.rsm" ∷ bytes "-o" ∷ bytes "b" ∷ [])
    ≡ assemble (λ n. true) true (some (b'r' ∷ b'e' ∷ b't' ∷ []))
main-render_example =
    main-render host (bytes "rocketasm") (source (bytes "a.rsm")) (target (bytes "b") ∷ [])
      (bytes "a.rsm") (other_path, tt) refl refl refl

-- The new machine has no call that has not returned.
abbrev no_frames : Frames
no_frames = record { pc = 0; frames = []; stopped = false }

new_machine : Represents create no_frames
new_machine = record { at = refl; halted = refl; depth = refl; room = omega arith; held = tt }

exec_call-refines_example :
    ((vm' : Vm) × (exec_call create (decode 0xE800) ≡ ok vm')
      × Represents vm' (enter (jump_target create.cpu (decode 0xE800)) no_frames))
    × ((vm' : Vm) × (exec_ret create (decode 0xE800) ≡ ok vm') × Represents vm' (leave no_frames))
exec_call-refines_example =
    exec_call-refines create (decode 0xE800) no_frames new_machine (λ i. omega arith)
      (unfold jump_target decode in omega arith) (omega arith)
