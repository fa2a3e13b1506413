-- ===== src/Asm/Meaning/Defined.antt =====
-- An instruction that has a word has a meaning.
use rocketvm.Base.{if◌then◌else◌, ℕ, Option, none, some, ◌≡◌, refl}
use rocketvm.Base.Int.{negsuc, ◌==ℤ◌, signed16, unsigned16}
use rocketvm.Exec.{Exec, ok}
use rocketvm.Isa.Opcode.{Opcode, mov, load, store, jmp, jz, jnz, call, ret}
use rocketvm.Cpu.State.{Vm}
use rocketvm.Asm.Program.{
  mem_imm, mem_reg, mem_label, Operand, imm, reg, label, mem, Program, find_label_address,
}
use rocketvm.Asm.Encoder.{
  encode_op, encode_mov, encode_alu, encode_load, encode_store, load_label, store_label,
  encode_control, resolve_label, offset_from, control_imm,
}
use rocketvm.Asm.Meaning.{
  transfer, with_value, low_byte, place, means_compute, means_load, means_store, means_control,
  means,
}
use rocketvm.Asm.Meaning.Does.{nothing_encoded}

abbrev pub HasMeaning : Option (Exec Vm) → Type 0
HasMeaning s = (m : Exec Vm) × (s ≡ some m)

module _ (program : Program) (vm : Vm) where
  alu-HasMeaning :
      (op : Opcode) (a b : Operand) (w : ℕ)
      → ok (encode_alu op a b) ≡ ok (some w)
      → HasMeaning (means_compute op a b vm)
  unfolding encode_alu
  alu-HasMeaning op (reg d) (imm n) w e = (_, refl)
  alu-HasMeaning op (reg d) (reg n) w e = (_, refl)
  alu-HasMeaning op _ _ w e = nothing_encoded e

  mov-HasMeaning :
      (a b : Operand) (w : ℕ)
      → ok (encode_mov a b) ≡ ok (some w)
      → HasMeaning (means_compute mov a b vm)
  unfolding encode_mov
  mov-HasMeaning (reg d) (imm n) w e = (_, refl)
  mov-HasMeaning (reg d) (reg n) w e = (_, refl)
  mov-HasMeaning _ _ w e = nothing_encoded e

  load_label-HasMeaning :
      (d w : ℕ) (o : Option ℕ) (f : ℕ → Exec Vm)
      → ok (load_label d o) ≡ ok (some w)
      → HasMeaning (with_value (low_byte o) f)
  unfolding load_label
  load_label-HasMeaning d w none f e = nothing_encoded e
  load_label-HasMeaning d w (some a) f e = (_, refl)

  store_label-HasMeaning :
      (d w : ℕ) (o : Option ℕ) (f : ℕ → Exec Vm)
      → ok (store_label d o) ≡ ok (some w)
      → HasMeaning (with_value (low_byte o) f)
  unfolding store_label
  store_label-HasMeaning d w none f e = nothing_encoded e
  store_label-HasMeaning d w (some a) f e = (_, refl)

  load-HasMeaning :
      (a b : Operand) (w : ℕ)
      → ok (encode_load program a b) ≡ ok (some w)
      → HasMeaning (means_load program a b vm)
  unfolding encode_load
  load-HasMeaning (reg d) (mem (mem_imm n)) w e = (_, refl)
  load-HasMeaning (reg d) (mem (mem_reg n)) w e = (_, refl)
  load-HasMeaning (reg d) (mem (mem_label name)) w e =
      load_label-HasMeaning d w (find_label_address program name) _ e
  load-HasMeaning _ _ w e = nothing_encoded e

  store-HasMeaning :
      (a b : Operand) (w : ℕ)
      → ok (encode_store program a b) ≡ ok (some w)
      → HasMeaning (means_store program a b vm)
  unfolding encode_store
  store-HasMeaning (mem (mem_imm n)) (reg d) w e = (_, refl)
  store-HasMeaning (mem (mem_reg n)) (reg d) w e = (_, refl)
  store-HasMeaning (mem (mem_label name)) (reg d) w e =
      store_label-HasMeaning d w (find_label_address program name) _ e
  store-HasMeaning _ _ w e = nothing_encoded e

  control-HasMeaning :
      (op : Opcode) (a : Operand) (w k : ℕ)
      → encode_control program op a k ≡ ok (some w)
      → HasMeaning (means_control program op a vm)
  unfolding encode_control resolve_label offset_from
  control-HasMeaning op (label name) w k e = by_address (find_label_address program name) e
    where
      by_address :
          (o : Option ℕ)
          → (if offset_from k o ==ℤ negsuc 0
              then ok none
              else control_imm op (signed16 (unsigned16 (offset_from k o))))
            ≡ ok (some w)
          → HasMeaning (with_value (place o) (λ t. transfer op t vm))
      by_address none e = nothing_encoded e
      by_address (some a) e = (_, refl)
  control-HasMeaning op (reg d) w k e = (_, refl)
  control-HasMeaning op _ w k e = nothing_encoded e

  pub encode_op-HasMeaning :
      (op : Opcode) (a b : Operand) (k w : ℕ)
      → encode_op program op a b k ≡ ok (some w)
      → HasMeaning (means program op a b vm)
  unfolding encode_op means
  encode_op-HasMeaning mov a b k w e = mov-HasMeaning a b w e
  encode_op-HasMeaning load a b k w e = load-HasMeaning a b w e
  encode_op-HasMeaning store a b k w e = store-HasMeaning a b w e
  encode_op-HasMeaning jmp a b k w e = control-HasMeaning jmp a w k e
  encode_op-HasMeaning jz a b k w e = control-HasMeaning jz a w k e
  encode_op-HasMeaning jnz a b k w e = control-HasMeaning jnz a w k e
  encode_op-HasMeaning call a b k w e = control-HasMeaning call a w k e
  encode_op-HasMeaning ret a b k w e = (_, refl)
  encode_op-HasMeaning op a b k w e = alu-HasMeaning op a b w e
