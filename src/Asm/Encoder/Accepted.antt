-- ===== src/Asm/Encoder/Accepted.antt =====
-- Which of the instructions that the parser accepts have a word.
use rocketvm.Base.{
  ℕ, Bool, true, false, ◌&&◌, if◌then◌else◌, ◌≡◌, refl, ◌∙◌, ap, sym, subst, arith, Option, some,
  ◌⊎◌, inl, inr,
}
use rocketvm.Base.Int.{signed16, unsigned16}
use rocketvm.Exec.{Exec, ok, crash, assertion}
use rocketvm.Isa.Opcode.{
  Opcode, opcode_value, mov, load, store, add, sub, mul, div, modulo, shl, shr, cmp, jmp, jz, jnz,
  call, ret,
}
use rocketvm.Isa.Encoder.{offset_word, fits_simm11}
use rocketvm.Asm.Program.{
  mem_none, mem_imm, mem_reg, mem_label, Operand, imm, reg, label, mem, Program, find_label_address,
}
use rocketvm.Asm.Encoder.{
  load_label, store_label, encode_load, encode_store, control_reg, encode_control, encode_op,
  encode_instr,
}
use rocketvm.Asm.Encoder.Jumps.{
  distance, IsControl, is_jmp, is_jz, is_jnz, is_call, encode_instr-label, encode_op-control,
}
use rocketvm.Asm.Encoder.Words.{
  IsCompute, is_mov, is_add, is_sub, is_mul, is_div, is_modulo, is_shl, is_shr, is_cmp,
  encode_instr-imm, encode_instr-reg,
}
use rocketvm.Asm.Parser.{accepts, is_target, is_reg, is_reg_or_imm, is_mem}

-- A label that an operand names is in the program; a memory operand has a type.
abbrev pub Named : Program → Operand → Type 0
Named program (label name) = (a : ℕ) × (find_label_address program name ≡ some a)
Named program (mem (mem_label name)) = (a : ℕ) × (find_label_address program name ≡ some a)
Named program (mem mem_none) = ⊥
Named program _ = Unit

-- An instruction has a word, or its offset fails the assertion on 11 bits; it is no -1.
abbrev pub Encodes : Exec (Option ℕ) → Type 0
Encodes r = ((w : ℕ) × (r ≡ ok (some w))) ⊎ (r ≡ crash assertion)

-- The operands of an instruction that computes.
abbrev Sources : Operand → Operand → Type 0
Sources a b = (rvd : ℕ) × (a ≡ reg rvd) × (((n : ℕ) × (b ≡ imm n)) ⊎ ((rvs : ℕ) × (b ≡ reg rvs)))

sources : (a b : Operand) → is_reg a && is_reg_or_imm b ≡ true → Sources a b
sources (reg r) (imm n) h = (r, refl, inl (n, refl))
sources (reg r) (reg s) h = (r, refl, inr (s, refl))
sources _ _ h = ground arith

Encodes-compute :
    (program : Program) (op : Opcode) (a b : Operand) (i : ℕ)
    → IsCompute op
    → is_reg a && is_reg_or_imm b ≡ true
    → Encodes (encode_op program op a b i)
Encodes-compute program op a b i computes h = go (sources a b h)
  where
    go : Sources a b → Encodes (encode_op program op a b i)
    go (rvd, ea, inl (n, eb)) = rw (ea, eb) (inl (_, encode_instr-imm program op rvd n i computes))
    go (rvd, ea, inr (rvs, eb)) =
        rw (ea, eb) (inl (_, encode_instr-reg program op rvd rvs i computes))

label-Encodes :
    (f : Option ℕ → Option ℕ) (o : Option ℕ) (a : ℕ) (w : ℕ)
    → o ≡ some a
    → f (some a) ≡ some w
    → Encodes (ok (f o))
label-Encodes f o a w found e = inl (w, ap (λ o. ok (f o)) found ∙ ap ok e)

Encodes-load :
    (program : Program) (a b : Operand)
    → is_reg a && is_mem b ≡ true
    → Named program b
    → Encodes (ok (encode_load program a b))
unfolding encode_load load_label
Encodes-load program (reg r) (mem (mem_imm n)) h k = inl (_, refl)
Encodes-load program (reg r) (mem (mem_reg n)) h k = inl (_, refl)
Encodes-load program (reg r) (mem (mem_label name)) h (a, found) =
    label-Encodes (load_label r) (find_label_address program name) a _ found refl
Encodes-load program (reg r) (mem mem_none) h k = elim k [ ]
Encodes-load program _ _ h k = ground arith

Encodes-store :
    (program : Program) (a b : Operand)
    → is_mem a && is_reg b ≡ true
    → Named program a
    → Encodes (ok (encode_store program a b))
unfolding encode_store store_label
Encodes-store program (mem (mem_imm n)) (reg r) h k = inl (_, refl)
Encodes-store program (mem (mem_reg n)) (reg r) h k = inl (_, refl)
Encodes-store program (mem (mem_label name)) (reg r) h (a, found) =
    label-Encodes (store_label r) (find_label_address program name) a _ found refl
Encodes-store program (mem mem_none) (reg r) h k = elim k [ ]
Encodes-store program _ _ h k = ground arith

-- The target of a jump or call is no immediate.
abbrev pub no_imm_target : Opcode → Operand → Bool
no_imm_target jmp (imm n) = false
no_imm_target jz (imm n) = false
no_imm_target jnz (imm n) = false
no_imm_target call (imm n) = false
no_imm_target _ _ = true

Encodes-control :
    (program : Program) (op : Opcode) (a b : Operand) (i : ℕ)
    → IsControl op
    → is_target a ≡ true
    → no_imm_target op a ≡ true
    → Named program a
    → Encodes (encode_op program op a b i)
unfolding encode_control
Encodes-control program op (label name) b i control t m (addr, found) =
    let simm = signed16 (unsigned16 (distance i addr)) in
    subst Encodes (sym (encode_instr-label program op name b i addr control found))
      (Encodes-if (fits_simm11 simm) (offset_word (opcode_value op) simm))
  where
    Encodes-if : (c : Bool) (w : ℕ) → Encodes (if c then ok (some w) else crash assertion)
    Encodes-if true w = inl (w, refl)
    Encodes-if false w = inr refl
Encodes-control program op (reg r) b i control t m k =
    let (w, e) = register control in
    inl (w, encode_op-control program op (reg r) b i control ∙ ap ok e)
  where
    register : {op : Opcode} → IsControl op → (w : ℕ) × (control_reg op r ≡ some w)
    register is_jmp = unfold control_reg in (_, refl)
    register is_jz = unfold control_reg in (_, refl)
    register is_jnz = unfold control_reg in (_, refl)
    register is_call = unfold control_reg in (_, refl)
Encodes-control program op (imm n) b i control t m k = elim (refused control m) [ ]
  where
    refused : {op : Opcode} → IsControl op → no_imm_target op (imm n) ≡ true → ⊥
    refused is_jmp m = ground arith
    refused is_jz m = ground arith
    refused is_jnz m = ground arith
    refused is_call m = ground arith
Encodes-control program op _ b i control t m k = ground arith

-- An instruction with operands that the parser accepts for its opcode, whose labels are in the
-- program, whose memory operands have a type and whose jump target is no immediate, is never
-- refused with -1: it has a word, or the assertion on the range of its offset fails.
pub encode_instr-accepted :
    (program : Program) (op : Opcode) (a b : Operand) (i : ℕ)
    → accepts op a b ≡ true
    → Named program a
    → Named program b
    → no_imm_target op a ≡ true
    → Encodes (encode_instr program (record { opcode = op; opr1 = a; opr2 = b }) i)
unfolding accepts encode_op
encode_instr-accepted program mov a b i h ka kb m = Encodes-compute program mov a b i is_mov h
encode_instr-accepted program add a b i h ka kb m = Encodes-compute program add a b i is_add h
encode_instr-accepted program sub a b i h ka kb m = Encodes-compute program sub a b i is_sub h
encode_instr-accepted program mul a b i h ka kb m = Encodes-compute program mul a b i is_mul h
encode_instr-accepted program div a b i h ka kb m = Encodes-compute program div a b i is_div h
encode_instr-accepted program modulo a b i h ka kb m =
    Encodes-compute program modulo a b i is_modulo h
encode_instr-accepted program shl a b i h ka kb m = Encodes-compute program shl a b i is_shl h
encode_instr-accepted program shr a b i h ka kb m = Encodes-compute program shr a b i is_shr h
encode_instr-accepted program cmp a b i h ka kb m = Encodes-compute program cmp a b i is_cmp h
encode_instr-accepted program load a b i h ka kb m = Encodes-load program a b h kb
encode_instr-accepted program store a b i h ka kb m = Encodes-store program a b h ka
encode_instr-accepted program jmp a b i h ka kb m = Encodes-control program jmp a b i is_jmp h m ka
encode_instr-accepted program jz a b i h ka kb m = Encodes-control program jz a b i is_jz h m ka
encode_instr-accepted program jnz a b i h ka kb m = Encodes-control program jnz a b i is_jnz h m ka
encode_instr-accepted program call a b i h ka kb m =
    Encodes-control program call a b i is_call h m ka
encode_instr-accepted program ret a b i h ka kb m = inl (_, refl)
