-- ===== src/Base/Print.antt =====
-- What the conversions of `printf` print: `%s` of a literal, `%d` and `%u` of a value that is not
-- negative, and `%x`, each with its padding.
use Prim.Native.Nat.{ℕ, zero, suc, ◌+◌, ◌-◌, ◌/◌, ◌%◌}
use mathlib.Core.List.{List, [], ◌∷◌, ◌++◌}
use Prim.Native.Char.{code}
use Prim.Native.String.{String}
use rocketvm.Base.Tests.{ltb, if◌then◌else◌}
use rocketvm.Base.Lists.{length}

-- The bytes of a literal.
abbrev pub bytes : String → List ℕ
bytes String.[] = []
bytes (String.◌∷◌ c s) = code c ∷ bytes s

-- The character of a digit of `%d` and `%x`.
unfoldable pub digit : ℕ → ℕ
digit d = if ltb d 10 then b'0' + d else b'a' + d - 10

-- The digits of a value in a base, in front of what follows. Twenty are enough for 64 bits in
-- base 10.
unfoldable pub digits : ℕ → ℕ → ℕ → List ℕ → List ℕ
digits base zero n rest = rest
digits base (suc most) n rest =
    let longer = digits base most (n / base) (digit (n % base) ∷ rest) in
    if ltb n base then digit n ∷ rest else longer

-- `%d` and `%u`.
unfoldable pub decimal : ℕ → List ℕ
unfolding digits digit
decimal n = digits 10 20 n []

-- `%x`.
unfoldable pub hexadecimal : ℕ → List ℕ
unfolding digits digit
hexadecimal n = digits 16 16 n []

unfoldable pub replicate : ℕ → ℕ → List ℕ
replicate zero c = []
replicate (suc n) c = c ∷ replicate n c

-- A field that is filled on the left.
unfoldable pub padded : ℕ → ℕ → List ℕ → List ℕ
unfolding replicate
padded width fill s = replicate (width - length s) fill ++ s
