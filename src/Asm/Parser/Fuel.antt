-- ===== src/Asm/Parser/Fuel.antt =====
-- The fuel of the parser's loop.
use rocketvm.Base.{
  ℕ, zero, suc, ◌+◌, Bool, true, false, if◌then◌else◌, Option, none, some, ◌≡◌, ◌≢◌, refl,
}
use Prim.Native.Nat.add
use rocketvm.Asm.Program.{Program}
use rocketvm.Asm.Parser.{
  State, parse_round, Parsed, done, out_of_fuel, is_eof, after_round, parse_loop,
}

after_round-more :
    (less more : State → Program → Parsed)
    → ((s : State) (program : Program)
        → less s program ≢ out_of_fuel
        → more s program ≡ less s program)
    → (x : Option (State × Program)) → after_round less x ≢ out_of_fuel
    → after_round more x ≡ after_round less x
unfolding after_round
after_round-more less more same none ends = refl
after_round-more less more same (some (s, program)) ends = same s program ends

-- Where the fuel is enough, more fuel changes nothing.
pub parse_loop-more :
    (room : ℕ → Bool) (fuel extra : ℕ) (s : State) (program : Program)
    → parse_loop room fuel s program ≢ out_of_fuel
    → parse_loop room (fuel + extra) s program ≡ parse_loop room fuel s program
unfolding parse_loop
parse_loop-more room zero extra s program ends = absurd (ends refl)
parse_loop-more room (suc fuel) extra s program ends =
    rw (add.suc fuel extra)
      (by_token (λ s' p. parse_loop-more room fuel extra s' p) (is_eof s.token) ends)
  where
    by_token :
        ((s' : State) (p : Program)
          → parse_loop room fuel s' p ≢ out_of_fuel
          → parse_loop room (fuel + extra) s' p ≡ parse_loop room fuel s' p)
        → (last : Bool)
        → (if last
            then done program
            else after_round (parse_loop room fuel) (parse_round room s.token s program))
          ≢ out_of_fuel
        → (if last
            then done program
            else after_round (parse_loop room (fuel + extra)) (parse_round room s.token s program))
          ≡ (if last
              then done program
              else after_round (parse_loop room fuel) (parse_round room s.token s program))
    by_token same true ends = refl
    by_token same false ends =
        after_round-more (parse_loop room fuel) (parse_loop room (fuel + extra)) same _ ends
