-- ===== src/Asm/Arguments/Laws.antt =====
-- The arguments of `rocketasm` against a list of options.
use rocketvm.Base.{
  true, false, List, [], ◌∷◌, ◌++◌, Option, none, some, ◌≡◌, ◌≢◌, refl, ap, ◌∙◌, Bool-cases, inl,
  inr,
}
use rocketvm.Base.Print.{bytes}
use rocketvm.Exec.{Exec, ok}
use rocketvm.Cpu.Cycle.{Status, failure}
use rocketvm.Asm.Program.{Bytes, same_name}
use rocketvm.Asm.Program.Laws.{same_name-equal}
use rocketvm.Asm.Main.{assemble}
use rocketvm.Asm.Arguments.{
  Paths, is_output_flag, read_arguments, default_paths, Host, assemble_file, with_paths, main,
}

-- An input path, or `-o` with an output path.
pub data Argument : Type 0 where
  source target : Bytes → Argument

abbrev pub render : List Argument → List Bytes
render [] = []
render (source path ∷ rest) = path ∷ render rest
render (target path ∷ rest) = bytes "-o" ∷ path ∷ render rest

-- The last of each kind counts.
abbrev pub chosen : Paths → List Argument → Paths
chosen paths [] = paths
chosen paths (source path ∷ rest) = chosen (record paths { input = some path }) rest
chosen paths (target path ∷ rest) = chosen (record paths { output = path }) rest

-- No input path is spelled like the flag.
abbrev pub Unflagged : List Argument → Type 0
Unflagged [] = Unit {0}
Unflagged (source path ∷ rest) = (path ≢ bytes "-o") × Unflagged rest
Unflagged (target path ∷ rest) = Unflagged rest

is_output_flag_refl : is_output_flag (bytes "-o") ≡ true
unfolding is_output_flag same_name
is_output_flag_refl = refl

is_output_flag-other : (path : Bytes) → path ≢ bytes "-o" → is_output_flag path ≡ false
unfolding is_output_flag
is_output_flag-other path other = elim (Bool-cases (is_output_flag path)) [
  | inl flag ↦ absurd (other (same_name-equal path (bytes "-o") flag))
  | inr plain ↦ plain
]

read_source :
    (paths : Paths) (path : Bytes) (rest : List Bytes)
    → path ≢ bytes "-o"
    → read_arguments paths (path ∷ rest) ≡ read_arguments (record paths { input = some path }) rest
unfolding read_arguments
read_source paths path [] other = rw (is_output_flag-other path other) refl
read_source paths path (next ∷ rest) other = rw (is_output_flag-other path other) refl

read_target :
    (paths : Paths) (path : Bytes) (rest : List Bytes)
    → read_arguments paths (bytes "-o" ∷ path ∷ rest)
      ≡ read_arguments (record paths { output = path }) rest
unfolding read_arguments
read_target paths path rest = rw is_output_flag_refl refl

-- From arguments that give input paths, none of them spelled `-o`, and `-o` with output paths, the
-- loop of `main` takes the last of each kind, and keeps its initial value where there is none; with
-- a further `-o` behind them it fails.
pub read_arguments-render :
    (paths : Paths) (items : List Argument)
    → Unflagged items
    → (read_arguments paths (render items) ≡ some (chosen paths items))
      × (read_arguments paths (render items ++ bytes "-o" ∷ []) ≡ none)
read_arguments-render paths [] h = unfold read_arguments in (refl, rw is_output_flag_refl refl)
read_arguments-render paths (source path ∷ rest) h =
    let (a, b) = read_arguments-render (record paths { input = some path }) rest h.1 in
    (
      read_source paths path (render rest) h.0 ∙ a,
      read_source paths path (render rest ++ bytes "-o" ∷ []) h.0 ∙ b,
    )
read_arguments-render paths (target path ∷ rest) h =
    let (a, b) = read_arguments-render (record paths { output = path }) rest h in
    (
      read_target paths path (render rest) ∙ a,
      read_target paths path (render rest ++ bytes "-o" ∷ []) ∙ b,
    )

main_step :
    (host : Host) (name : Bytes) (item : Argument) (items : List Argument)
    → main host (name ∷ render (item ∷ items))
      ≡ with_paths host (read_arguments default_paths (render (item ∷ items)))
unfolding main
main_step host name (source path) items = refl
main_step host name (target path) items = refl

given_input :
    (host : Host) (paths : Paths) (input : Bytes)
    → paths.input ≡ some input
    → with_paths host (some paths) ≡ assemble_file host input paths.output
unfolding with_paths
given_input host paths input given =
    ap
      (λ (o : Option Bytes).
        let result : Exec (Bytes × Status) = elim o [
          | none ↦ ok ([], failure)
          | some p ↦ assemble_file host p paths.output
        ] in
        result)
      given

-- With arguments that give input paths, none of them spelled `-o`, and `-o` with output paths,
-- where the last input is readable and the allocations succeed, `main` of rocketasm assembles that
-- input, with the output file opened where the last output path, or `out.rvm`, can be written.
pub main-render :
    (host : Host) (name : Bytes) (item : Argument) (items : List Argument) (input : Bytes)
    → Unflagged (item ∷ items)
    → let paths = chosen default_paths (item ∷ items) in
      paths.input ≡ some input
      → host.readable input ≡ true
      → host.allocates ≡ true
      → main host (name ∷ render (item ∷ items))
        ≡ assemble host.room (host.writable paths.output) (host.contents input)
main-render host name item items input h given readable allocated =
    let paths = chosen default_paths (item ∷ items) in
    main_step host name item items
    ∙ ap (with_paths host) (read_arguments-render default_paths (item ∷ items) h).0
    ∙ given_input host paths input given
    ∙ unfold assemble_file in rw (readable, allocated) refl
