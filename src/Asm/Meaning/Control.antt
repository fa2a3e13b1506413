-- ===== src/Asm/Meaning/Control.antt =====
-- Jumps, CALL and RET: the handler at the assembled word.
use rocketvm.Base.{
  ℕ, ◌<◌, ◌+◌, ◌*◌, ◌%◌, ◌^◌, ◌≡◌, refl, ◌∙◌, ap, sym, arith, Bool-cases, inl, inr, Option-cases,
  some,
}
use rocketvm.Base.Int.{ℤ, signed16, unsigned16}
use rocketvm.Exec.{Exec, ok, crash, assertion}
use rocketvm.Isa.Opcode.{Opcode, opcode_value, opcode_value-lt, ret}
use rocketvm.Isa.Decode.{decode}
use rocketvm.Isa.Encoder.{offset_word, register_word, fits_simm11}
use rocketvm.Isa.Encoder.Layout.{decode-fields, offset_word-sum, register_word-sum}
use rocketvm.Cpu.State.{Vm}
use rocketvm.Cpu.Ctrlf.{jump_target}
use rocketvm.Cpu.Ctrlf.Laws.{jump_target-lt}
use rocketvm.Cpu.Ctrlf.Stack.{exec_ret_lem}
use rocketvm.Cpu.Cycle.{handler}
use rocketvm.Cpu.Cycle.Invariant.{IsWellFormed}
use rocketvm.Asm.Program.{Operand, reg, label, Program, find_label_address}
use rocketvm.Asm.Encoder.{encode_op, encode_control, control_reg}
use rocketvm.Asm.Encoder.Jumps.{
  IsControl, is_jmp, is_jz, is_jnz, is_call, distance, encode_instr-label, encode_op-control,
}
use rocketvm.Asm.Meaning.{with_value, place, transfer, return_from, means_control}
use rocketvm.Asm.Meaning.Jumps.{handler-transfer, jump_target-label, jump_target-reg}
use rocketvm.Asm.Meaning.Does.{Does, known, nothing}

offset_word-opcode :
    (op : Opcode) (z : ℤ) → (decode (offset_word (opcode_value op) z)).opcode ≡ opcode_value op
offset_word-opcode op z =
    let sum = offset_word-sum (opcode_value op) z in
    let small = opcode_value-lt op in
    rw (decode-fields (offset_word (opcode_value op) z)) (omega arith)

offset_word-lt : (op : Opcode) (z : ℤ) → offset_word (opcode_value op) z < 2 ^ 16
offset_word-lt op z = let sum = offset_word-sum (opcode_value op) z in omega arith

register_word-lt : (op : Opcode) (d : ℕ) → register_word (opcode_value op) d < 2 ^ 16
register_word-lt op d = let sum = register_word-sum (opcode_value op) d in omega arith

register_word-opcode :
    (op : Opcode) (d : ℕ) → (decode (register_word (opcode_value op) d)).opcode ≡ opcode_value op
register_word-opcode op d =
    let sum = register_word-sum (opcode_value op) d in
    let small = opcode_value-lt op in
    rw (decode-fields (register_word (opcode_value op) d)) (omega arith)

module _ (program : Program) (vm : Vm) (f : IsWellFormed vm) (k : ℕ) where
  word-control :
      (op : Opcode) (w t : ℕ)
      → IsControl op
      → w < 2 ^ 16
      → (decode w).opcode ≡ opcode_value op
      → jump_target vm.cpu (decode w) ≡ t
      → Does vm op w (transfer op t vm)
  word-control op w t control small e arrives = (
    small,
    e,
    handler-transfer vm (decode w) op control (jump_target-lt vm.cpu w f.valid.words)
          f.valid.rsp_high
        ∙ ap (λ x. transfer op x vm) arrives,
  )

  pub Does-control :
      (op : Opcode) (a b : Operand) (w : ℕ) (m : Exec Vm)
      → IsControl op
      → vm.cpu.regs.rip ≡ 2 * k + 2
      → encode_op program op a b k ≡ ok (some w)
      → means_control program op a vm ≡ some m
      → Does vm op w m
  unfolding encode_control
  Does-control op (label name) b w m control behind e s =
      elim (Option-cases (find_label_address program name)) [
        | inl missing ↦
            nothing (ap (λ o. with_value (place o) (λ t. transfer op t vm)) (sym missing) ∙ s)
        | inr (a, found) ↦
            let simm = signed16 (unsigned16 (distance k a)) in
            let word = encode_instr-label program op name b k a control found in
            elim (Bool-cases (fits_simm11 simm)) [
              | inl fits ↦
                  known vm op _ _ (offset_word (opcode_value op) simm) w
                    (transfer op (2 * a % 2 ^ 16) vm) m (word ∙ rw fits refl) e
                    (ap (λ o. with_value (place o) (λ t. transfer op t vm)) found) s
                    (word-control op _ _ control (offset_word-lt op simm)
                      (offset_word-opcode op simm) (jump_target-label op vm.cpu k a fits behind))
              | inr far ↦ absurd (too_far (sym (word ∙ rw far refl) ∙ e))
            ]
      ]
    where
      too_far : crash assertion ≡ ok (some w) → ⊥
      too_far h = ground arith
  Does-control op (reg d) b w m control behind e s =
      known vm op _ _ (register_word (opcode_value op) d) w _ m
        (encode_op-control program op (reg d) b k control ∙ ap ok (register control)) e refl s
        (word-control op _ _ control (register_word-lt op d) (register_word-opcode op d)
          (jump_target-reg op vm.cpu d))
    where
      register :
          {op : Opcode} → IsControl op → control_reg op d ≡ some (register_word (opcode_value op) d)
      register is_jmp = unfold control_reg in refl
      register is_jz = unfold control_reg in refl
      register is_jnz = unfold control_reg in refl
      register is_call = unfold control_reg in refl
  Does-control op _ b w m control behind e s = nothing s

  pub Does-ret :
      (a b : Operand) (w : ℕ) (m : Exec Vm)
      → encode_op program ret a b k ≡ ok (some w)
      → some (return_from vm) ≡ some m
      → Does vm ret w m
  unfolding encode_op handler return_from
  Does-ret a b w m e s = known vm ret _ _ 0xF000 w (return_from vm) m refl e refl s (
    omega arith,
    rw (decode-fields 0xF000) refl,
    exec_ret_lem vm (decode 0xF000) f.bytes f.valid.rsp_high,
  )
