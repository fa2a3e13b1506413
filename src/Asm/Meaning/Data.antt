-- ===== src/Asm/Meaning/Data.antt =====
-- Computing, loading and storing instructions: the handler at the assembled word.
use rocketvm.Base.{ℕ, ◌<◌, ◌%◌, ◌^◌, ◌≡◌, refl, ◌∙◌, ap, arith, Option, none, some}
use rocketvm.Exec.{Exec, ok, ◌>>=◌}
use rocketvm.Isa.Opcode.{Opcode, opcode_value, load, store}
use rocketvm.Isa.Instr.{mode_imm_or_addr, mode_reg}
use rocketvm.Isa.Decode.{decode}
use rocketvm.Isa.Encoder.{encode}
use rocketvm.Cpu.State.{Vm, source_value}
use rocketvm.Cpu.Alu.Spec.{source_value-lt}
use rocketvm.Cpu.Transfer.Laws.{exec_load_lem, exec_store_lem}
use rocketvm.Cpu.Cycle.{handler, on_cpu}
use rocketvm.Cpu.Cycle.Invariant.{IsWellFormed, decode-IsDecoded, ready}
use rocketvm.Asm.Program.{
  mem_imm, mem_reg, mem_label, Operand, absent, imm, reg, label, mem, invalid, Program,
  find_label_address,
}
use rocketvm.Asm.Encoder.{encode_op, encode_load, encode_store, load_label, store_label}
use rocketvm.Asm.Encoder.Words.{
  IsCompute, is_mov, is_add, is_sub, is_mul, is_div, is_modulo, is_shl, is_shr, is_cmp,
  encode_instr-imm, encode_instr-reg, source_value-imm, source_value-reg,
}
use rocketvm.Asm.Meaning.{
  with_value, low_byte, compute, load_from, store_to, means_compute, means_load, means_store, means,
}
use rocketvm.Asm.Meaning.Compute.{handler-compute}
use rocketvm.Asm.Meaning.Does.{Does, known, nothing, encode-opcode, encode-lt, encode-reg}

module _ (program : Program) (vm : Vm) (f : IsWellFormed vm) (k : ℕ) where
  word-compute :
      (op : Opcode) (w d v : ℕ)
      → IsCompute op
      → w < 2 ^ 16
      → (decode w).opcode ≡ opcode_value op
      → (decode w).reg ≡ d
      → source_value vm.cpu (decode w) ≡ v
      → Does vm op w (compute op d v vm.cpu >>= on_cpu vm)
  word-compute op w d v computes small e r s =
      let decoded = decode-IsDecoded w in
      (
        small,
        e,
        handler-compute vm (decode w) (ready f.valid decoded) decoded.has_mode op computes
            ∙ ap (λ x. compute op x (source_value vm.cpu (decode w)) vm.cpu >>= on_cpu vm) r
            ∙ ap (λ x. compute op d x vm.cpu >>= on_cpu vm) s,
      )

  pub means-compute :
      (op : Opcode) (a b : Operand)
      → IsCompute op
      → means program op a b vm ≡ means_compute op a b vm
  unfolding means
  means-compute op a b is_mov = refl
  means-compute op a b is_add = refl
  means-compute op a b is_sub = refl
  means-compute op a b is_mul = refl
  means-compute op a b is_div = refl
  means-compute op a b is_modulo = refl
  means-compute op a b is_shl = refl
  means-compute op a b is_shr = refl
  means-compute op a b is_cmp = refl

  pub Does-compute :
      (op : Opcode) (a b : Operand) (w : ℕ) (m : Exec Vm)
      → IsCompute op
      → encode_op program op a b k ≡ ok (some w)
      → means_compute op a b vm ≡ some m
      → Does vm op w m
  Does-compute op (reg d) (imm n) w m computes e s =
      let once : n % 2 ^ 8 % 256 ≡ n % 256 = omega arith in
      known vm op _ _ (encode (opcode_value op) d mode_imm_or_addr (n % 2 ^ 8)) w _ m
        (encode_instr-imm program op d n k computes) e refl s
        (word-compute op _ (d % 8) (n % 256) computes
          (encode-lt (opcode_value op) d mode_imm_or_addr (n % 2 ^ 8))
          (encode-opcode op d mode_imm_or_addr (n % 2 ^ 8))
          (encode-reg (opcode_value op) d mode_imm_or_addr (n % 2 ^ 8))
          (source_value-imm vm.cpu (opcode_value op) d (n % 2 ^ 8) ∙ once))
  Does-compute op (reg d) (reg n) w m computes e s =
      known vm op _ _ (encode (opcode_value op) d mode_reg (n % 2 ^ 8)) w _ m
        (encode_instr-reg program op d n k computes) e refl s
        (word-compute op _ (d % 8) _ computes (encode-lt (opcode_value op) d mode_reg (n % 2 ^ 8))
          (encode-opcode op d mode_reg (n % 2 ^ 8))
          (encode-reg (opcode_value op) d mode_reg (n % 2 ^ 8))
          (source_value-reg vm.cpu (opcode_value op) d n))
  Does-compute op _ _ w m computes e s = nothing s

  word-load :
      (w d v : ℕ)
      → w < 2 ^ 16
      → (decode w).opcode ≡ opcode_value load
      → (decode w).reg ≡ d
      → source_value vm.cpu (decode w) ≡ v
      → Does vm load w (load_from d v vm)
  unfolding handler load_from
  word-load w d v small e r s =
      let decoded = decode-IsDecoded w in
      (
        small,
        e,
        exec_load_lem vm (decode w) decoded.has_mode f.bytes
              (source_value-lt (ready f.valid decoded))
            ∙ ap (λ x. load_from x (source_value vm.cpu (decode w)) vm) r
            ∙ ap (λ x. load_from d x vm) s,
      )

  word-store :
      (w d v : ℕ)
      → w < 2 ^ 16
      → (decode w).opcode ≡ opcode_value store
      → (decode w).reg ≡ d
      → source_value vm.cpu (decode w) ≡ v
      → Does vm store w (store_to d v vm)
  unfolding handler store_to
  word-store w d v small e r s =
      let decoded = decode-IsDecoded w in
      (
        small,
        e,
        exec_store_lem vm (decode w) decoded.has_mode (source_value-lt (ready f.valid decoded))
            ∙ ap (λ x. store_to x (source_value vm.cpu (decode w)) vm) r
            ∙ ap (λ x. store_to d x vm) s,
      )

  -- The source of an immediate that was cut to a byte.
  source-byte :
      (op d n : ℕ)
      → source_value vm.cpu (decode (encode op d mode_imm_or_addr (n % 2 ^ 8))) ≡ n % 256
  source-byte op d n =
      let once : n % 2 ^ 8 % 256 ≡ n % 256 = omega arith in
      source_value-imm vm.cpu op d (n % 2 ^ 8) ∙ once

  pub Does-load :
      (a b : Operand) (w : ℕ) (m : Exec Vm)
      → encode_op program load a b k ≡ ok (some w)
      → means_load program a b vm ≡ some m
      → Does vm load w m
  unfolding encode_op encode_load load_label
  Does-load (reg d) (mem (mem_imm n)) w m e s =
      known vm load _ _ (encode 1 d mode_imm_or_addr (n % 2 ^ 8)) w _ m refl e refl s (
        word-load _ (d % 8) _ (encode-lt (opcode_value load) d mode_imm_or_addr (n % 2 ^ 8))
          (encode-opcode load d mode_imm_or_addr (n % 2 ^ 8))
          (encode-reg 1 d mode_imm_or_addr (n % 2 ^ 8)) (source-byte 1 d n))
  Does-load (reg d) (mem (mem_reg n)) w m e s =
      known vm load _ _ (encode 1 d mode_reg (n % 2 ^ 8)) w _ m refl e refl s (
        word-load _ (d % 8) _ (encode-lt (opcode_value load) d mode_reg (n % 2 ^ 8))
          (encode-opcode load d mode_reg (n % 2 ^ 8)) (encode-reg 1 d mode_reg (n % 2 ^ 8))
          (source_value-reg vm.cpu 1 d n))
  Does-load (reg d) (mem (mem_label name)) w m e s = at_label (find_label_address program name) e s
    where
      at_label :
          (o : Option ℕ)
          → ok (load_label d o) ≡ ok (some w)
          → with_value (low_byte o) (λ x. load_from (d % 8) x vm) ≡ some m
          → Does vm load w m
      at_label none e s = nothing s
      at_label (some n) e s =
          known vm load _ _ (encode 1 d mode_imm_or_addr (n % 2 ^ 8)) w _ m refl e refl s (
            word-load _ (d % 8) _ (encode-lt (opcode_value load) d mode_imm_or_addr (n % 2 ^ 8))
              (encode-opcode load d mode_imm_or_addr (n % 2 ^ 8))
              (encode-reg 1 d mode_imm_or_addr (n % 2 ^ 8)) (source-byte 1 d n))
  Does-load _ _ w m e s = nothing s

  pub Does-store :
      (a b : Operand) (w : ℕ) (m : Exec Vm)
      → encode_op program store a b k ≡ ok (some w)
      → means_store program a b vm ≡ some m
      → Does vm store w m
  unfolding encode_op encode_store store_label
  Does-store (mem (mem_imm n)) (reg d) w m e s =
      known vm store _ _ (encode 2 d mode_imm_or_addr (n % 2 ^ 8)) w _ m refl e refl s (
        word-store _ (d % 8) _ (encode-lt (opcode_value store) d mode_imm_or_addr (n % 2 ^ 8))
          (encode-opcode store d mode_imm_or_addr (n % 2 ^ 8))
          (encode-reg 2 d mode_imm_or_addr (n % 2 ^ 8)) (source-byte 2 d n))
  Does-store (mem (mem_reg n)) (reg d) w m e s =
      known vm store _ _ (encode 2 d mode_reg (n % 2 ^ 8)) w _ m refl e refl s (
        word-store _ (d % 8) _ (encode-lt (opcode_value store) d mode_reg (n % 2 ^ 8))
          (encode-opcode store d mode_reg (n % 2 ^ 8)) (encode-reg 2 d mode_reg (n % 2 ^ 8))
          (source_value-reg vm.cpu 2 d n))
  Does-store (mem (mem_label name)) (reg d) w m e s = at_label (find_label_address program name) e s
    where
      at_label :
          (o : Option ℕ)
          → ok (store_label d o) ≡ ok (some w)
          → with_value (low_byte o) (λ x. store_to (d % 8) x vm) ≡ some m
          → Does vm store w m
      at_label none e s = nothing s
      at_label (some n) e s =
          known vm store _ _ (encode 2 d mode_imm_or_addr (n % 2 ^ 8)) w _ m refl e refl s (
            word-store _ (d % 8) _ (encode-lt (opcode_value store) d mode_imm_or_addr (n % 2 ^ 8))
              (encode-opcode store d mode_imm_or_addr (n % 2 ^ 8))
              (encode-reg 2 d mode_imm_or_addr (n % 2 ^ 8)) (source-byte 2 d n))
  Does-store _ absent w m e s = nothing s
  Does-store _ (imm _) w m e s = nothing s
  Does-store _ (label _) w m e s = nothing s
  Does-store _ (mem _) w m e s = nothing s
  Does-store _ invalid w m e s = nothing s
  Does-store _ (reg d) w m e s = nothing s
