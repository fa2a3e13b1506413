-- ===== src/Cpu/Ctrlf/Frames.antt =====
-- CALL and RET on an abstract stack: the list of return addresses, the last call first.
use rocketvm.Base.{
  ℕ, ◌+◌, ◌-◌, ◌*◌, ◌%◌, ◌^◌, ◌<◌, ◌≤◌, Bool, true, false, ◌&&◌, ◌==◌, ltb, ltb→lt, if◌then◌else◌,
  List, [], ◌∷◌, length, ◌≡◌, refl, ◌∙◌, arith, Bool-cases, inl, inr,
}
use rocketvm.Exec.{ok}
use rocketvm.Isa.Instr.{Instr}
use rocketvm.Memory.{Memory, stack_start, stack_end}
use rocketvm.Memory.Laws.{IsByteMemory, word_at, with_word, word_at-with_word}
use rocketvm.Cpu.State.{Vm, set_halt, set_rip, set_rsp, fault}
use rocketvm.Cpu.Ctrlf.{jump_target, exec_call, exec_ret}
use rocketvm.Cpu.Ctrlf.Stack.{called, exec_call_lem, exec_ret_lem}

-- Where control is, where it returns to, and whether the machine has stopped.
pub record Frames : Type 0 where
  pub pc : ℕ
  pub frames : List ℕ
  pub stopped : Bool

-- The return addresses that the stack region has room for.
abbrev pub capacity : ℕ
capacity = 1919

-- A call of an even target while there is room.
unfoldable pub enter : ℕ → Frames → Frames
enter t s =
    if t % 2 == 0 && ltb (length s.frames) capacity
    then record s { pc = t; frames = s.pc ∷ s.frames }
    else record s { stopped = true }

-- A return to the last call that has not returned; the machine stops where there is none, and at an
-- odd address.
unfoldable pub leave_to : List ℕ → Frames → Frames
leave_to [] s = record s { stopped = true }
leave_to (r ∷ rs) s =
    if r % 2 == 0
    then record s { pc = r; frames = rs }
    else record s { frames = rs; stopped = true }

abbrev pub leave : Frames → Frames
leave s = leave_to s.frames s

-- The words from an offset on.
abbrev pub Holds : Memory → ℕ → List ℕ → Type 0
Holds mem sp [] = Unit {0}
Holds mem sp (r ∷ rs) = (word_at mem sp ≡ r) × Holds mem (sp + 2) rs

-- A machine whose stack region, from RSP to its end, holds the return addresses.
pub record Represents (vm : Vm) (s : Frames) : Type 0 where
  pub at : vm.cpu.regs.rip ≡ s.pc
  pub halted : vm.cpu.halt ≡ s.stopped
  pub depth : vm.cpu.regs.rsp + 2 * length s.frames ≡ 0xFEFF
  pub room : length s.frames ≤ capacity
  pub held : Holds vm.mem vm.cpu.regs.rsp s.frames

Holds-with_word :
    (mem : Memory) (offset value sp : ℕ) (rs : List ℕ)
    → offset + 2 ≤ sp
    → Holds mem sp rs
    → Holds (with_word mem offset value) sp rs
Holds-with_word mem offset value sp [] above h = tt
Holds-with_word mem offset value sp (r ∷ rs) above h =
    (ground (arith, h.0), Holds-with_word mem offset value (sp + 2) rs (omega arith) h.1)

Represents-stopped :
    (vm : Vm) (s : Frames)
    → Represents vm s
    → Represents (record vm { cpu = fault vm.cpu }) (record s { stopped = true })
Represents-stopped vm s r = record {
  at = r.at;
  halted = refl;
  depth = r.depth;
  room = r.room;
  held = r.held;
}

Represents-called :
    (vm : Vm) (t : ℕ) (s : Frames)
    → Represents vm s
    → vm.cpu.regs.rip < 2 ^ 16
    → length s.frames < capacity
    → Represents (called vm t) (record s { pc = t; frames = s.pc ∷ s.frames })
Represents-called vm t s r word free =
    let d = r.depth in
    let rsp = vm.cpu.regs.rsp in
    let back : rsp - 2 + 2 ≡ rsp = omega arith in
    record {
      at = refl;
      halted = r.halted;
      depth = omega arith;
      room = omega arith;
      held = (
        word_at-with_word vm.mem (rsp - 2) vm.cpu.regs.rip word ∙ r.at,
        rw back
            (Holds-with_word vm.mem (rsp - 2) vm.cpu.regs.rip rsp s.frames (omega arith) r.held),
      );
    }

-- CALL on a machine that represents a stack.
Represents-exec_call :
    (vm : Vm) (i : Instr) (s : Frames)
    → Represents vm s
    → jump_target vm.cpu i < 2 ^ 16
    → vm.cpu.regs.rip < 2 ^ 16
    → (vm' : Vm) × (exec_call vm i ≡ ok vm') × Represents vm' (enter (jump_target vm.cpu i) s)
unfolding enter
Represents-exec_call vm i s r target word =
    let t = jump_target vm.cpu i in
    let d = r.depth in
    let faulted = record vm { cpu = fault vm.cpu } in
    let calls = exec_call_lem vm i target (omega arith) in
    elim (Bool-cases (t % 2 == 0)) [
      | inr odd ↦ (faulted, calls ∙ rw odd refl, rw odd (Represents-stopped vm s r))
      | inl even ↦ elim (Bool-cases (ltb (length s.frames) capacity)) [
        | inl free ↦
            let low : ltb vm.cpu.regs.rsp (stack_start + 2) ≡ false = ground arith in
            (
              called vm t,
              calls ∙ rw (even, low) refl,
              rw (even, free)
                  (Represents-called vm t s r word (ltb→lt (length s.frames) capacity free)),
            )
        | inr full ↦
            let low : ltb vm.cpu.regs.rsp (stack_start + 2) ≡ true = ground arith in
            (faulted, calls ∙ rw (even, low) refl, rw (even, full) (Represents-stopped vm s r))
      ]
    ]

-- RET, by the return addresses that there are.
Represents-exec_ret :
    (vm : Vm) (i : Instr) (pc : ℕ) (rs : List ℕ) (stopped : Bool)
    → let s : Frames = record { pc = pc; frames = rs; stopped = stopped } in
      Represents vm s
      → IsByteMemory vm.mem
      → (vm' : Vm) × (exec_ret vm i ≡ ok vm') × Represents vm' (leave s)
unfolding leave_to
Represents-exec_ret vm i pc [] stopped r bytes =
    let d = r.depth in
    let none_left : ltb (stack_end - 1) vm.cpu.regs.rsp ≡ true = ground arith in
    (
      record vm { cpu = set_halt vm.cpu },
      exec_ret_lem vm i bytes (omega arith) ∙ rw none_left refl,
      Represents-stopped vm _ r,
    )
Represents-exec_ret vm i pc (a ∷ rs) stopped r bytes =
    let d = r.depth in
    let room = r.room in
    let some_left : ltb (stack_end - 1) vm.cpu.regs.rsp ≡ false = ground arith in
    let popped = set_rsp (vm.cpu.regs.rsp + 2) vm.cpu in
    let returns = exec_ret_lem vm i bytes (omega arith) in
    elim (Bool-cases (a % 2 == 0)) [
      | inl even ↦ (
        record vm { cpu = set_rip a popped },
        returns ∙ rw (some_left, r.held.0, even) refl,
        rw even (record {
          at = refl;
          halted = r.halted;
          depth = omega arith;
          room = omega arith;
          held = r.held.1;
        }),
      )
      | inr odd ↦ (
        record vm { cpu = fault popped },
        returns ∙ rw (some_left, r.held.0, odd) refl,
        rw odd (record {
          at = r.at;
          halted = refl;
          depth = omega arith;
          room = omega arith;
          held = r.held.1;
        }),
      )
    ]

-- On a machine that represents an abstract stack of return addresses, with a memory of bytes, a
-- 16-bit target and a 16-bit RIP: CALL and RET both return, and leave a machine that represents the
-- stack after `enter`, which pushes RIP unless the target is odd or 1919 addresses are there, and
-- after `leave`, which pops the last address, or stops where there is none or it is odd.
pub exec_call-refines :
    (vm : Vm) (i : Instr) (s : Frames)
    → Represents vm s
    → IsByteMemory vm.mem
    → jump_target vm.cpu i < 2 ^ 16
    → vm.cpu.regs.rip < 2 ^ 16
    → ((vm' : Vm) × (exec_call vm i ≡ ok vm') × Represents vm' (enter (jump_target vm.cpu i) s))
      × ((vm' : Vm) × (exec_ret vm i ≡ ok vm') × Represents vm' (leave s))
exec_call-refines vm i s r bytes target word = (
  Represents-exec_call vm i s r target word,
  Represents-exec_ret vm i s.pc s.frames s.stopped r bytes,
)
