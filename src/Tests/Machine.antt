-- ===== src/Tests/Machine.antt =====
-- Cycles and whole runs at concrete images.
use rocketvm.Base.{ℕ, ◌≡◌, ◌≢◌, refl, arith, List, [], ◌∷◌, get_or, ltb, if◌then◌else◌, some, inl}
use rocketvm.Exec.{ok, crash, signed_overflow, Returns}
use rocketvm.Isa.Opcode.{Opcode, opcode_value, mov}
use rocketvm.Isa.Decode.{decode}
use rocketvm.Memory.{read_uint8, read_uint16}
use rocketvm.Cpu.State.{Vm, set_rip, set_halt, source_value}
use rocketvm.Cpu.Ctrlf.{exec_ret}
use rocketvm.Cpu.Cycle.{success, failure, handler, dispatch, execute, cycle}
use rocketvm.Cpu.Cycle.Invariant.{IsWellFormed}
use rocketvm.Cpu.Cycle.Safety.{GoodCycle, cycle-IsWellFormed, cycle-overflow}
use rocketvm.Vm.{create, read_file, copy_bytes, load_image, load, returned, out_of_fuel, run}
use rocketvm.Vm.Runs.{Runs, halted, again, GoodOutcome}
use rocketvm.Vm.Straight.{IsStraightOp, computes, straight_ends}
use rocketvm.Asm.Encoder.Words.{is_mov}
use rocketvm.Vm.Load.{
  create-IsWellFormed, load-refuses, load-accepts, load-IsWellFormed, load-GoodOutcome,
}

-- The image of the program `RET`.
abbrev image : List ℕ
image = 0x00 ∷ 0xF0 ∷ []

-- The new machine after the image is loaded, before and after its only cycle.
abbrev loaded : Vm
loaded = record create { mem = copy_bytes 0 image create.mem }

abbrev ended : Vm
ended = record loaded { cpu = set_halt (set_rip 2 create.cpu) }

loads : load create (some image) ≡ (loaded, success)
unfolding load load_image read_file
loads = refl

one_cycle : cycle loaded ≡ ok (ended, success)
unfolding cycle execute dispatch handler exec_ret read_uint16 decode copy_bytes
one_cycle = refl

ends : Runs loaded (returned ended success)
ends = again refl one_cycle (halted refl)

-- The same run, from the machine that `load` returns.
ends_loaded : Runs (load create (some image)).0 (returned ended success)
unfolding load load_image read_file
ends_loaded = ends

loaded-IsWellFormed : IsWellFormed loaded
unfolding load load_image read_file
loaded-IsWellFormed =
    load-IsWellFormed create image create-IsWellFormed (omega arith, (omega arith, tt))

cycle-IsWellFormed_example : Returns (GoodCycle loaded) (cycle loaded)
unfolding copy_bytes
cycle-IsWellFormed_example =
    cycle-IsWellFormed loaded loaded-IsWellFormed (unfold decode copy_bytes in refl)

-- A machine about to square 0xFFFF.
abbrev squaring : Vm
squaring = record {
  cpu = record create.cpu { regs = record create.cpu.regs { rv = λ i. 0xFFFF } };
  mem = record { bytes = λ i. 0x51 };
}

squaring-IsWellFormed : IsWellFormed squaring
squaring-IsWellFormed =
    let v = create-IsWellFormed.valid in
    record {
      valid = record {
        words = λ i. omega arith;
        four_flags = v.four_flags;
        rip_word = v.rip_word;
        rip_even = v.rip_even;
        rsp_low = v.rsp_low;
        rsp_high = v.rsp_high;
        rsp_odd = v.rsp_odd;
        rsb_unused = v.rsb_unused;
      };
      bytes = λ i. omega arith;
    }

cycle-overflow_example : cycle squaring ≡ crash signed_overflow
cycle-overflow_example =
    cycle-overflow squaring squaring-IsWellFormed (unfold decode source_value in refl)

load-GoodOutcome_example : GoodOutcome (returned ended success)
load-GoodOutcome_example =
    load-GoodOutcome image (returned ended success) (omega arith, (omega arith, tt)) ends_loaded

load-refuses_example : load create (some []) ≡ (create, failure)
load-refuses_example = load-refuses create (some []) λ bytes e. inl (empty bytes e)
  where
    empty : (bytes : List ℕ) → some [] ≡ some bytes → bytes ≡ []
    empty bytes e = cc

load-accepts_example :
    let r = load create (some image) in
    (r.1 ≡ success)
    × (r.0.cpu ≡ create.cpu)
    × ((j : ℕ)
        → read_uint8 r.0.mem j ≡ (if ltb j 2 then get_or image j 0 else read_uint8 create.mem j))
load-accepts_example = load-accepts create image (omega arith) (omega arith)

-- The empty memory is a list of `MOV rv0, 0`.
zeros_are_moves : (op : Opcode) → (decode 0).opcode ≡ opcode_value op → IsStraightOp op
unfolding decode
zeros_are_moves mov e = computes is_mov
zeros_are_moves _ e = absurd (ground arith)

straight_ends_example : run 0x4000 create ≢ out_of_fuel
straight_ends_example =
    straight_ends create create-IsWellFormed refl λ op a even low e. zeros_are_moves op e
