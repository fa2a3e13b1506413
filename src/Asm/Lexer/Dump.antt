-- ===== src/Asm/Lexer/Dump.antt =====
-- The functions of rocketasm/lexer.c that print tokens.
use rocketvm.Base.{◌++◌, Option, none, some, ◌≡◌, refl}
use rocketvm.Base.Print.{bytes, decimal}
use rocketvm.Isa.Names.{opcode_to_string, reg_to_string}
use rocketvm.Asm.Program.{Bytes}
use rocketvm.Asm.Lexer.{
  Token, invalid, opcode, ident, number, comma, colon, lbracket, rbracket, newline, eof,
}

-- `rsm_token_type_to_string`.
unfoldable pub token_type_to_string : Token → Bytes
token_type_to_string invalid = bytes "INVALID_TOKEN"
token_type_to_string (opcode op) = bytes "OPCODE"
token_type_to_string (Token.reg r) = bytes "REG"
token_type_to_string (ident name) = bytes "IDENT"
token_type_to_string (number n) = bytes "NUMBER"
token_type_to_string comma = bytes "COMMA"
token_type_to_string colon = bytes "COLON"
token_type_to_string lbracket = bytes "LBRACKET"
token_type_to_string rbracket = bytes "RBRACKET"
token_type_to_string newline = bytes "NEWLINE"
token_type_to_string eof = bytes "EOF"

-- The message that `rsm_lexer_dump_token` logs, if any.
unfoldable pub dump_token : Token → Option Bytes
dump_token invalid = none
dump_token (opcode op) = some (bytes "Token: OPCODE -> " ++ opcode_to_string op)
dump_token (Token.reg r) = some (bytes "Token: REG -> " ++ reg_to_string r)
dump_token (ident name) = some (bytes "Token: IDENT -> " ++ name)
dump_token (number n) = some (bytes "Token: NUMBER -> " ++ decimal n)
dump_token comma = some (bytes "Token: COMMA")
dump_token colon = some (bytes "Token: COLON")
dump_token lbracket = some (bytes "Token: LBRACKET")
dump_token rbracket = some (bytes "Token: RBRACKET")
dump_token newline = some (bytes "Token: NEWLINE")
dump_token eof = some (bytes "Token: EOF")

-- What a message says behind the type of the token.
abbrev pub detail : Token → Bytes
detail (opcode op) = bytes " -> " ++ opcode_to_string op
detail (Token.reg r) = bytes " -> " ++ reg_to_string r
detail (ident name) = bytes " -> " ++ name
detail (number n) = bytes " -> " ++ decimal n
detail _ = bytes ""

-- The messages name the token types as `rsm_token_type_to_string` does.
pub dump_token-token_type_to_string :
    (t : Token)
    → dump_token t ≡ (elim t [
      | invalid ↦ none
      | other ↦ some (bytes "Token: " ++ (token_type_to_string other ++ detail other))
    ])
unfolding dump_token token_type_to_string
dump_token-token_type_to_string invalid = refl
dump_token-token_type_to_string _ = refl
