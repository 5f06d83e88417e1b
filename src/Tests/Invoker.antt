-- ===== src/Tests/Invoker.antt =====
-- The invoker on concrete options and replies.
use mapplauncherd.Base.{
  ◌+◌, ◌*◌, ◌≡◌, refl, true, false, [], ◌∷◌, ◌++◌, none, some, codes, arith, if◌then◌else◌,
  word_mod,
}
use mapplauncherd.Wire.{bytes}
use mapplauncherd.Connection.State.{Connection, initial}
use mapplauncherd.Connection.Rounds.{acknowledgement}
use mapplauncherd.Invoker.Wait.{
  goes, status, killed_by, kills_both, msg_read, recv_msg, recv_exit, wait_loop, finish_invocation,
}
use mapplauncherd.Invoker.Signals.{
  ends_on, sig_forwarder, sigs_init, sigs_restore, sigs_set, set_each, acted,
}
use mapplauncherd.Invoker.Exit.{after_signals, finish_invocation_lost}
use mapplauncherd.Invoker.Options.{
  Numbers, no_wait, deep_syms, delay, Settings, defaults, parsed, parse_option, parse_options,
  get_delay,
}
use mapplauncherd.Invoker.Options.Flags.{Agrees, parse_options-Agrees, get_delay_wraps}
use mapplauncherd.Tests.Pipe.{take_bytes, pipe, stream, pipe-IsReliable}

abbrev pub asked : Connection pipe
asked = record (initial pipe ([], []) []) { send_pid = true }

nothing_left : (recv_exit pipe (stream [] [])).0 ≡ none
unfolding recv_exit recv_msg msg_read take_bytes
nothing_left = refl

finish_invocation_lost_example :
    finish_invocation pipe true false
      (after_signals (17 ∷ []))
      (stream (bytes (acknowledgement asked) ++ []) [])
    ≡ goes (if false then kills_both 42 else status 1)
finish_invocation_lost_example =
    finish_invocation_lost pipe pipe-IsReliable asked false (17 ∷ []) [] [] (refl, tt) refl
      (omega arith) (ground arith) nothing_left

-- SIGTERM ends an invoker that waits.
terminated : wait_loop pipe false 42 (after_signals (15 ∷ [])) (stream [] []) ≡ killed_by 15
unfolding wait_loop ends_on sig_forwarder sigs_init sigs_restore sigs_set set_each acted
terminated = refl

-- Reads everything as 5 seconds and 2^32 more.
abbrev pub big : Numbers
big = record { strtoul = λ text. (5 + 1 * word_mod, false); ulong_max = 0xffffffffffffffff }

get_delay_wraps_example : get_delay big (some (codes "4294967301")) 1 86400 ≡ some 5
get_delay_wraps_example =
    get_delay_wraps big (codes "4294967301") 1 86400 5 1 refl (omega arith) (omega arith)
      (omega arith)

abbrev settings : Settings
settings = record defaults { wait_term = false; magic_options = 4; delay = 5 }

parsed_lem :
    parse_options big (deep_syms ∷ delay (codes "4294967301") ∷ no_wait ∷ []) defaults
    ≡ parsed settings
unfolding parse_options parse_option defaults get_delay
parsed_lem = refl

parse_options-Agrees_example : Agrees settings
parse_options-Agrees_example =
    parse_options-Agrees big (deep_syms ∷ delay (codes "4294967301") ∷ no_wait ∷ []) settings
      parsed_lem
