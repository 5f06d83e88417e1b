-- ===== src/Invoker/Options/Flags.antt =====
-- What the options leave in the settings.
use mathlib.Core.Path.{subst}
use mapplauncherd.Base.{
  ℕ, ◌%◌, ◌+◌, ◌*◌, ◌≤◌, ◌<◌, ◌≡◌, refl, Bool, true, false, not, ◌&&◌, List, [], ◌∷◌, some, Bytes,
  ◌==◌, ltb, bit_and, bit_or, word_mod, arith, all_below, all_below_sound,
}
use mapplauncherd.Protocol.{option_wait}
use mapplauncherd.Invoker.Options.{
  Numbers, get_delay, Opt, Settings, defaults, Parsed, parsed, usage, parse_option, parse_options,
}

-- The option word fits its byte, it asks the booster to report exactly if the invoker will wait, and
-- the delays are in the documented ranges.
pub record Agrees (s : Settings) : Type 0 where
  pub one_byte : s.magic_options < 256
  pub asks : not (bit_and s.magic_options option_wait == 0) ≡ s.wait_term
  pub delay_le : s.delay ≤ 86400
  pub respawn_le : s.respawn_delay ≤ 10

-- Setting a flag other than the first keeps the word in a byte, and its first bit.
abbrev keeps_wait : ℕ → ℕ → Bool
keeps_wait o m = ltb (bit_or m o) 256 && (bit_and (bit_or m o) option_wait == bit_and m option_wait)

flag_table :
    all_below 256 (λ m. keeps_wait 2 m && keeps_wait 4 m && keeps_wait 8 m && keeps_wait 32 m)
    ≡ true
unfolding all_below
flag_table = refl

clear_table :
    all_below 256
      (λ m. ltb (bit_and m 0xfffffffe) 256 && bit_and (bit_and m 0xfffffffe) option_wait == 0)
    ≡ true
unfolding all_below
clear_table = refl

parse_option-Agrees :
    (num : Numbers) (o : Opt) (s t : Settings)
    → Agrees s
    → parse_option num o s ≡ parsed t
    → Agrees t
unfolding parse_option
parse_option-Agrees num o s t v h = ground (
  arith,
  all_below_sound 256 _ s.magic_options flag_table,
  all_below_sound 256 _ s.magic_options clear_table,
)

parse_options_from :
    (num : Numbers) (os : List Opt) (s t : Settings)
    → Agrees s
    → parse_options num os s ≡ parsed t
    → Agrees t
unfolding parse_options
parse_options_from num [] s t v h = subst Agrees (cc) v
parse_options_from num (o ∷ os) s t v h =
    go (parse_option num o s) refl (λ s' v' e. parse_options_from num os s' t v' e)
  where
    go :
        (r : Parsed)
        → parse_option num o s ≡ r
        → ((s' : Settings) → Agrees s' → parse_options num os s' ≡ parsed t → Agrees t)
        → Agrees t
    go (parsed s') e rec = rec s' (parse_option-Agrees num o s s' v e) (rw (e, parse_options) at h)
    go (usage n) e rec = let bad : usage n ≡ parsed t = rw (e, parse_options) at h in absurd (cc)

-- Whatever options are given, in whatever order and however often: the option word that is sent fits
-- its byte and asks the booster for an exit report exactly if the invoker will wait for one, and the
-- exit delay and the respawn delay are at most 86400 and 10 seconds.
pub parse_options-Agrees :
    (num : Numbers) (os : List Opt) (t : Settings)
    → parse_options num os defaults ≡ parsed t
    → Agrees t
unfolding defaults
parse_options-Agrees num os t h = parse_options_from num os defaults t (ground arith) h

-- The range check reads the parsed number modulo 2^32: a number that differs from one in the range
-- by a multiple of 2^32, and that `strtoul` reads without an error, passes as the number in the
-- range.
pub get_delay_wraps :
    (num : Numbers) (text : Bytes) (lo hi small q : ℕ)
    → num.strtoul text ≡ (small + q * word_mod, false)
    → lo ≤ small
    → small ≤ hi
    → small < word_mod
    → get_delay num (some text) lo hi ≡ some small
unfolding get_delay
get_delay_wraps num text lo hi small q h le le' lt = rw h (rw wraps (ground arith))
  where
    wraps : (small + q * word_mod) % word_mod ≡ small
    wraps = omega arith
