-- ===== src/Log.antt =====
-- rocketvm/common/utility/logger.c. The buffer of 1024 bytes is an array, and `offset` the place of
-- the next byte. What the clock prints and what the arguments of the call print are parameters.
pub mod Stores
pub mod Line
use rocketvm.Base.{
  ℕ, zero, suc, ◌+◌, ◌-◌, Bool, true, false, ◌&&◌, leb, ltb, if◌then◌else◌, List, [], ◌∷◌, ◌++◌,
  length, Array, update, Option, none, some,
}
use rocketvm.Base.Print.{bytes, decimal, replicate}

-- `enum rvm_logger_level`.
pub data Level : Type 0 where
  info debug warn error fatal trace : Level

-- `rvm_logger_level_strings`.
unfoldable pub level_string : Level → List ℕ
level_string info = bytes "INFO"
level_string debug = bytes "DEBUG"
level_string warn = bytes "WARN"
level_string error = bytes "ERROR"
level_string fatal = bytes "FATAL"
level_string trace = bytes "TRACE"

-- The levels that a build with NDEBUG drops.
unfoldable pub only_debug : Level → Bool
only_debug debug = true
only_debug trace = true
only_debug _ = false

unfoldable pub is_fatal : Level → Bool
is_fatal fatal = true
is_fatal _ = false

abbrev pub buf_size : ℕ
buf_size = 1024

-- The local variables `buf` and `offset`.
pub record Buffer : Type 0 where
  pub buf : Array
  pub offset : ℕ

-- What `snprintf` stores from an index on, in a given room: as much of the text as leaves a byte for
-- the NUL, and the NUL. Without room it stores nothing.
unfoldable pub snprintf : ℕ → ℕ → List ℕ → Array → Array
snprintf zero i text buf = buf
snprintf (suc zero) i text buf = update buf i 0
snprintf (suc (suc room)) i [] buf = update buf i 0
snprintf (suc (suc room)) i (c ∷ cs) buf = snprintf (suc room) (i + 1) cs (update buf i c)

-- The offset after a call that returned `written`.
unfoldable pub advance : ℕ → ℕ → ℕ
advance offset written =
    if ltb 0 written
    then (if leb (buf_size - offset) written then buf_size - 1 else offset + written)
    else offset

-- A call of `snprintf` or `vsnprintf` and the update of the offset; `none` is a call that returns a
-- negative number, after which the buffer is taken to be as it was.
unfoldable pub print : Option (List ℕ) → Buffer → Buffer
print none b = b
print (some text) b = record {
  buf = snprintf (buf_size - b.offset) b.offset text b.buf;
  offset = advance b.offset (length text);
}

-- The line feed, where there is room.
unfoldable pub end_line : Buffer → Buffer
end_line b =
    if ltb b.offset (buf_size - 1)
    then record { buf = update b.buf b.offset b'\n'; offset = b.offset + 1 }
    else b

-- `%-5s`.
abbrev pub level_field : Level → List ℕ
level_field level = let s = level_string level in s ++ replicate (5 - length s) b' '

-- The text before the message: time and level, and in a build without NDEBUG the place of the call.
unfoldable pub heading : Bool → List ℕ → Level → List ℕ → ℕ → List ℕ
heading ndebug time level file line =
    if ndebug
    then time ++ (b' ' ∷ (level_field level ++ (b' ' ∷ [])))
    else time
      ++ (b' '
          ∷ (level_field level ++ (b' ' ∷ (file ++ (b':' ∷ (decimal line ++ (b' ' ∷ b' ' ∷ [])))))))

-- The first `n` bytes of an array, from an index on.
unfoldable pub slice : ℕ → ℕ → Array → List ℕ
slice zero i a = []
slice (suc n) i a = a i ∷ slice n (i + 1) a

-- How a call ends: the message is dropped, or bytes are written to the standard error, after which
-- the program goes on or is aborted.
pub data Logged : Type 0 where
  dropped : Logged
  written : List ℕ → Logged
  aborted : List ℕ → Logged

-- The buffer that is written.
unfoldable pub compose : List ℕ → Option (List ℕ) → Array → Buffer
compose head message buf =
    end_line (print message (print (some head) (record { buf = buf; offset = 0 })))

-- `rvm_log`.
unfoldable pub log : Bool → List ℕ → Level → List ℕ → ℕ → Option (List ℕ) → Array → Logged
log ndebug time level file line message buf =
    let b = compose (heading ndebug time level file line) message buf in
    let out = slice b.offset 0 b.buf in
    if ndebug && only_debug level
    then dropped
    else if is_fatal level
    then aborted out
    else written out
