-- ===== src/Log/Line.antt =====
-- The bytes that a call of `rvm_log` writes, and where it stores them.
use mathlib.Core.List.{append_assoc, append-nil}
use rocketvm.Base.{
  ℕ, suc, ◌+◌, ◌-◌, ◌≤◌, Bool, false, ◌&&◌, leb, ltb, if◌then◌else◌, List, [], ◌∷◌, ◌++◌, length,
  length-append, Array, update, Option, none, some, ◌≡◌, refl, sym, ap, ◌∙◌, arith, Bool-cases, inl,
  inr, subst,
}
use rocketvm.Base.Take.{take, take-append, take-take-append, take-short, length-take}
use rocketvm.Log.{
  Level, heading, only_debug, is_fatal, Logged, dropped, aborted, written, log, Buffer, buf_size,
  snprintf, advance, print, end_line, slice, compose,
}
use rocketvm.Log.Stores.{
  Starts, slice-Starts, Starts-append, Starts-kept, snprintf-outside, snprintf-Starts,
}

-- The buffer holds a text of at most 1023 bytes, and the offset is behind it.
record Holds (b : Buffer) (t : List ℕ) : Type 0 where
  behind : b.offset ≡ length t
  short : length t ≤ 1023
  starts : Starts b.buf 0 t

zero_add : (n : ℕ) → n ≡ 0 + n
zero_add n = omega arith

advance_lem :
    (offset size : ℕ)
    → offset ≤ 1023
    → let stored = if leb (1023 - offset) size then 1023 - offset else size in
      (advance offset size ≡ offset + stored) × (offset + stored ≤ 1023)
unfolding advance
advance_lem offset size h = ground arith

-- A text is added as far as 1023 bytes go.
print-Holds :
    (b : Buffer) (t text : List ℕ) → Holds b t → Holds (print (some text) b) (take 1023 (t ++ text))
unfolding print
print-Holds b t text h =
    let n = length t in
    let room : buf_size - b.offset ≡ suc (1023 - n) =
      let o = h.behind in let s = h.short in omega arith in
    let added = take (1023 - n) text in
    let total : length (t ++ added)
        ≡ n + (if leb (1023 - n) (length text) then 1023 - n else length text) =
      length-append t added ∙ ap (λ k. n + k) (length-take (1023 - n) text) in
    let (moved, fits) = advance_lem n (length text) h.short in
    let stored = snprintf (suc (1023 - n)) n text b.buf in
    let old : Starts stored 0 t =
      Starts-kept b.buf stored 0 t
        (λ j lt. (snprintf-outside (suc (1023 - n)) n text b.buf j).0 (omega arith)) h.starts in
    let both : Starts stored 0 (t ++ added) =
      Starts-append stored 0 t added old (
        subst (λ k. Starts stored k added) (zero_add n)
          (snprintf-Starts (1023 - n) n text b.buf)) in
    rw (take-append 1023 t text h.short, room, h.behind)
      (record { behind = moved ∙ sym total; short = rw total fits; starts = both })

-- What a call prints, nothing where it fails.
unfoldable pub message_text : Option (List ℕ) → List ℕ
message_text none = []
message_text (some text) = text

print_message-Holds :
    (b : Buffer) (t : List ℕ) (message : Option (List ℕ))
    → Holds b t
    → Holds (print message b) (take 1023 (t ++ message_text message))
unfolding message_text print
print_message-Holds b t (some text) h = print-Holds b t text h
print_message-Holds b t none h =
    subst (Holds b) (sym (ap (take 1023) (append-nil t) ∙ take-short 1023 t h.short)) h

-- The line feed is added like a text of one byte.
end_line-Holds :
    (b : Buffer) (t : List ℕ) → Holds b t → Holds (end_line b) (take 1023 (t ++ b'\n' ∷ []))
unfolding end_line take
end_line-Holds b t h = elim (Bool-cases (ltb (length t) 1023)) [
  | inl free ↦
      let n = length t in
      let feed = update b.buf n b'\n' in
      let total = length-append t (b'\n' ∷ []) in
      let fits : length (t ++ b'\n' ∷ []) ≤ 1023 = ground arith in
      let old : Starts feed 0 t = Starts-kept b.buf feed 0 t (λ j lt. ground arith) h.starts in
      let last : feed (0 + n) ≡ b'\n' = ground arith in
      rw (h.behind, free, take-short 1023 (t ++ b'\n' ∷ []) fits)
        (record {
          behind = omega arith;
          short = fits;
          starts = Starts-append feed 0 t (b'\n' ∷ []) old (last, tt);
        })
  | inr full ↦
      let exact : 1023 - length t ≡ 0 = let s = h.short in ground arith in
      let cut : take 1023 (t ++ b'\n' ∷ []) ≡ t =
        take-append 1023 t (b'\n' ∷ []) h.short
        ∙ ap (λ k. t ++ take k (b'\n' ∷ [])) exact
        ∙ append-nil t in
      subst (λ e. Holds e (take 1023 (t ++ b'\n' ∷ []))) (sym (stays full))
        (subst (Holds b) (sym cut) h)
]
  where
    stays : ltb (length t) 1023 ≡ false → end_line b ≡ b
    stays full = let o = h.behind in ground arith

print-outside :
    (b : Buffer) (message : Option (List ℕ)) (j : ℕ)
    → b.offset ≤ 1023
    → 1024 ≤ j
    → (print message b).buf j ≡ b.buf j
unfolding print
print-outside b none j small far = refl
print-outside b (some text) j small far =
    (snprintf-outside (buf_size - b.offset) b.offset text b.buf j).1 (omega arith)

end_line-outside : (b : Buffer) (j : ℕ) → b.offset ≤ 1023 → 1024 ≤ j → (end_line b).buf j ≡ b.buf j
unfolding end_line
end_line-outside b j small far = ground arith

-- The buffer before the first call.
abbrev start : Array → Buffer
start buf = record { buf = buf; offset = 0 }

start-Holds : (buf : Array) → Holds (start buf) []
start-Holds buf = record { behind = refl; short = omega arith; starts = tt }

compose-Holds :
    (head : List ℕ) (message : Option (List ℕ)) (buf : Array)
    → Holds (compose head message buf) (take 1023 (head ++ (message_text message ++ b'\n' ∷ [])))
unfolding compose
compose-Holds head message buf =
    let b = print (some head) (start buf) in
    let first = print-Holds (start buf) [] head (start-Holds buf) in
    let second = print_message-Holds b (take 1023 head) message first in
    let third = end_line-Holds (print message b) _ second in
    let feed = b'\n' ∷ [] in
    let text = message_text message in
    let joined : take 1023 (take 1023 (take 1023 head ++ text) ++ feed)
        ≡ take 1023 (head ++ (text ++ feed)) =
      take-take-append 1023 (take 1023 head ++ text) feed
      ∙ ap (take 1023) (append_assoc (take 1023 head) text feed)
      ∙ take-take-append 1023 head (text ++ feed) in
    subst (Holds (end_line (print message b))) joined third

offset_small : (b : Buffer) (t : List ℕ) → Holds b t → b.offset ≤ 1023
offset_small b t h = rw h.behind h.short

compose-outside :
    (head : List ℕ) (message : Option (List ℕ)) (buf : Array) (j : ℕ)
    → 1024 ≤ j
    → (compose head message buf).buf j ≡ buf j
unfolding compose
compose-outside head message buf j far =
    let b = print (some head) (start buf) in
    let first = print-Holds (start buf) [] head (start-Holds buf) in
    let second = print_message-Holds b (take 1023 head) message first in
    end_line-outside (print message b) j (offset_small _ _ second) far
    ∙ print-outside b message j (offset_small b _ first) far
    ∙ print-outside (start buf) (some head) j (omega arith) far

-- What is written of the buffer.
compose-slice :
    (head : List ℕ) (message : Option (List ℕ)) (buf : Array)
    → let b = compose head message buf in
      slice b.offset 0 b.buf ≡ take 1023 (head ++ (message_text message ++ b'\n' ∷ []))
compose-slice head message buf =
    let h = compose-Holds head message buf in
    let b = compose head message buf in
    ap (λ n. slice n 0 b.buf) h.behind ∙ slice-Starts b.buf 0 _ h.starts

-- Whatever the heading and the message, the offset at which `rvm_log` ends is at most 1023, and
-- nothing at or beyond the 1024 bytes of its buffer is stored to.
pub compose-bounds :
    (head : List ℕ) (message : Option (List ℕ)) (buf : Array)
    → let b = compose head message buf in (b.offset ≤ 1023) × ((j : ℕ) → 1024 ≤ j → b.buf j ≡ buf j)
compose-bounds head message buf = (
  offset_small (compose head message buf) _ (compose-Holds head message buf),
  compose-outside head message buf,
)

-- In a build with NDEBUG the levels DEBUG and TRACE are dropped. Any other call writes the first
-- 1023 bytes of the heading, the message (nothing where it cannot be formatted) and a line feed,
-- and aborts behind it at level FATAL.
pub log_lem :
    (ndebug : Bool) (time : List ℕ) (level : Level) (file : List ℕ) (line : ℕ)
    (message : Option (List ℕ)) (buf : Array)
    → let text = heading ndebug time level file line ++ (message_text message ++ b'\n' ∷ []) in
      log ndebug time level file line message buf ≡ (
        if ndebug && only_debug level
        then dropped
        else if is_fatal level
        then aborted (take 1023 text)
        else written (take 1023 text))
unfolding log
log_lem ndebug time level file line message buf =
    let ending : List ℕ → Logged = λ out.
      if ndebug && only_debug level
      then dropped
      else if is_fatal level
      then aborted out
      else written out in
    ap ending (compose-slice (heading ndebug time level file line) message buf)
