-- ===== src/Asm/Parser.antt =====
-- rocketasm/parser.c. The state is the current token with the text that the lexer has left, and the
-- program. `none` is the -1 of a parse error. The loop of `rsm_parser_parse` takes fuel.
pub mod Partial
pub mod Total
pub mod Fuel
pub mod Stripped
pub mod Shapes
use rocketvm.Base.{
  ℕ, zero, suc, ◌+◌, ◌^◌, ◌-◌, Bool, true, false, not, ◌&&◌, ◌||◌, ltb, if◌then◌else◌, List, [],
  ◌∷◌, length, Option, none, some,
}
use rocketvm.Isa.Opcode.{
  Opcode, mov, load, store, add, sub, mul, div, modulo, shl, shr, cmp, jmp, jz, jnz, call, ret,
}
use rocketvm.Asm.Program.{
  Bytes, mem_imm, mem_reg, mem_label, Operand, absent, imm, reg, label, mem, AsmInstr, Program,
  push_instr, push_label,
}
use rocketvm.Asm.Lexer.{
  Token, comma, colon, lbracket, rbracket, newline, eof, ident, number, opcode, tokenize,
}

infixl 5 ◌>>=◌
abbrev pub ◌>>=◌ {ℓ κ} : {A : Type ℓ} {B : Type κ} → Option A → (A → Option B) → Option B
none >>= f = none
some a >>= f = f a

-- The parser's token, and the lexer's text.
pub record State : Type 0 where
  pub token : Token
  pub text : Bytes

-- `rsm_parser_advance`.
unfoldable pub advance : State → State
advance s = let (token, text) = tokenize s.text in record { token = token; text = text }

-- The inside of a memory operand.
unfoldable pub mem_operand : Token → Option Operand
mem_operand (number n) = some (mem (mem_imm n))
mem_operand (Token.reg r) = some (mem (mem_reg r))
mem_operand (ident name) = some (mem (mem_label name))
mem_operand _ = none

abbrev pub is_rbracket : Token → Bool
is_rbracket rbracket = true
is_rbracket _ = false

-- A memory operand needs its closing bracket.
unfoldable pub close_mem : Operand → State → Option (Operand × State)
close_mem operand s = if is_rbracket s.token then some (operand, s) else none

-- `rsm_parser_parse_operand`, which leaves the last token of the operand current; `none` is
-- RSM_OPERAND_INVALID.
unfoldable pub parse_mem : State → Option (Operand × State)
unfolding close_mem
parse_mem s =
    let inside = advance s in
    mem_operand inside.token >>= λ operand. close_mem operand (advance inside)

unfoldable pub parse_operand_at : Token → State → Option (Operand × State)
parse_operand_at lbracket s = parse_mem s
parse_operand_at (number n) s = some (imm n, s)
parse_operand_at (Token.reg r) s = some (reg r, s)
parse_operand_at (ident name) s = some (label name, s)
parse_operand_at _ s = none

abbrev pub parse_operand : State → Option (Operand × State)
parse_operand s = parse_operand_at s.token s

-- The token is a line feed or the end of the text.
abbrev pub ends_line : Token → Bool
ends_line newline = true
ends_line eof = true
ends_line _ = false

abbrev pub is_comma : Token → Bool
is_comma comma = true
is_comma _ = false

-- The part behind the first operand.
unfoldable pub parse_second : Operand → State → Option (Operand × Operand × State)
parse_second first s =
    parse_operand (advance s) >>= λ (second, s'). some (first, second, advance s')

-- The part from the token behind the first operand.
unfoldable pub parse_rest : Operand → State → Option (Operand × Operand × State)
unfolding parse_second
parse_rest first s = if is_comma s.token then parse_second first s else some (first, absent, s)

-- The operands behind an opcode that is not RET: none at the end of the line, else one, and a second
-- behind a comma.
unfoldable pub parse_operands : State → Option (Operand × Operand × State)
unfolding parse_rest
parse_operands s =
    if ends_line s.token
    then some (absent, absent, s)
    else parse_operand s >>= λ (first, s'). parse_rest first (advance s')

abbrev pub is_reg : Operand → Bool
is_reg (reg _) = true
is_reg _ = false

abbrev pub is_reg_or_imm : Operand → Bool
is_reg_or_imm (reg _) = true
is_reg_or_imm (imm _) = true
is_reg_or_imm _ = false

abbrev pub is_mem : Operand → Bool
is_mem (mem _) = true
is_mem _ = false

abbrev pub is_absent : Operand → Bool
is_absent absent = true
is_absent _ = false

abbrev pub is_target : Operand → Bool
is_target (label _) = true
is_target (reg _) = true
is_target (imm _) = true
is_target _ = false

-- The operand types that `rsm_parser_parse_opcode` accepts for an opcode.
unfoldable pub accepts : Opcode → Operand → Operand → Bool
accepts ret a b = is_absent a && is_absent b
accepts load a b = is_reg a && is_mem b
accepts store a b = is_mem a && is_reg b
accepts mov a b = is_reg a && is_reg_or_imm b
accepts jmp a b = is_target a
accepts jz a b = is_target a
accepts jnz a b = is_target a
accepts call a b = is_target a
accepts _ a b = is_reg a && is_reg_or_imm b

abbrev pub is_ret : Opcode → Bool
is_ret ret = true
is_ret _ = false

-- What `rsm_parser_parse_opcode` does with the operands: the instruction ends its line, its operands
-- fit the opcode, and it is pushed.
unfoldable pub finish_instr :
    (ℕ → Bool) → Opcode → Program → Operand × Operand × State → Option (State × Program)
finish_instr room op program (a, b, after) =
    if ends_line after.token && accepts op a b
    then (push_instr room program (record { opcode = op; opr1 = a; opr2 = b }) >>= λ program'.
        some (after, program'))
    else none

-- `rsm_parser_parse_opcode`, at the opcode of the current token. Operands are read only where the
-- opcode is not RET.
unfoldable pub parse_opcode : (ℕ → Bool) → Opcode → State → Program → Option (State × Program)
unfolding finish_instr parse_operands
parse_opcode room op s program =
    let first = advance s in
    let operands = if is_ret op then some (absent, absent, first) else parse_operands first in
    operands >>= finish_instr room op program

abbrev pub is_colon : Token → Bool
is_colon colon = true
is_colon _ = false

-- A label: the identifier has been read, a colon must follow, and the instruction number is its
-- address, which must fit 16 bits.
unfoldable pub parse_label : (ℕ → Bool) → Bytes → State → Program → Option (State × Program)
parse_label room name s program =
    let s' = advance s in
    if is_colon s'.token && not (ltb (2 ^ 16 - 1) (length program.instrs))
    then (push_label room program (record { name = name; address = length program.instrs })
        >>= λ program'. some (advance s', program'))
    else none

-- One round of the loop of `rsm_parser_parse`, at a token that is not the end.
unfoldable pub parse_round : (ℕ → Bool) → Token → State → Program → Option (State × Program)
parse_round room (ident name) s program = parse_label room name s program
parse_round room (opcode op) s program = parse_opcode room op s program
parse_round room newline s program = some (advance s, program)
parse_round room _ s program = none

-- How the parse ends: with a program, with -1, or not within the fuel.
pub data Parsed : Type 0 where
  done : Program → Parsed
  failed out_of_fuel : Parsed

abbrev pub is_eof : Token → Bool
is_eof eof = true
is_eof _ = false

-- The loop goes on after a round, unless the round has failed.
unfoldable pub after_round : (State → Program → Parsed) → Option (State × Program) → Parsed
after_round rest none = failed
after_round rest (some (s, program)) = rest s program

-- The loop of `rsm_parser_parse`.
unfoldable pub parse_loop : (ℕ → Bool) → ℕ → State → Program → Parsed
parse_loop room zero s program = out_of_fuel
parse_loop room (suc fuel) s program =
    let rest = after_round (parse_loop room fuel) (parse_round room s.token s program) in
    if is_eof s.token then done program else rest

-- `rsm_parser_parse` on a text, with fuel for its length.
unfoldable pub parse : (ℕ → Bool) → Bytes → Program → Parsed
parse room text program =
    parse_loop room (length text + 2) (advance (record { token = Token.invalid; text = text }))
      program
