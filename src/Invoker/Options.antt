-- ===== src/Invoker/Options.antt =====
-- The options of `main` in src/invoker/invoker.c, as `getopt_long` hands them out.
pub mod Flags
use mapplauncherd.Base.{
  ℕ, ◌%◌, ◌+◌, ◌*◌, ◌≤◌, ◌<◌, ◌≡◌, refl, Bool, true, false, not, ◌&&◌, ◌||◌, List, [], ◌∷◌, Option,
  none, some, Bytes, codes, bytes_eq, if◌then◌else◌, ◌==◌, ltb, bit_and, bit_or, word_mod, arith,
}
use mapplauncherd.Protocol.{
  option_wait, option_dlopen_global, option_dlopen_deep, option_single_instance,
  option_oom_adj_disable,
}

abbrev pub exit_delay : ℕ
exit_delay = 0

abbrev pub min_exit_delay : ℕ
min_exit_delay = 1

abbrev pub max_exit_delay : ℕ
max_exit_delay = 86400

abbrev pub respawn_delay_default : ℕ
respawn_delay_default = 3

abbrev pub min_respawn_delay : ℕ
min_respawn_delay = 0

abbrev pub max_respawn_delay : ℕ
max_respawn_delay = 10

-- `strtoul(text, NULL, 10)`: its value, and whether it set `errno` to ERANGE. ULONG_MAX is the
-- platform's.
pub record Numbers : Type 0 where
  pub strtoul : Bytes → ℕ × Bool
  pub ulong_max : ℕ

-- none is a call of `usage(1)`, which exits. The value is kept in an `unsigned int`.
unfoldable pub get_delay : Numbers → Option Bytes → ℕ → ℕ → Option ℕ
get_delay num none lo hi = some exit_delay
get_delay num (some text) lo hi =
    let (value, erange) = num.strtoul text in
    let delay = value % word_mod in
    if (erange && delay == num.ulong_max) || ltb delay lo || ltb hi delay then none else some delay

-- What `getopt_long` returns, with `optarg`. `other` is any value without a case, such as 'c'.
pub data Opt : Type 0 where
  help wait_term daemon_mode no_wait global_syms deep_syms test_mode single_instance splash : Opt
  unknown other : Opt
  app_type delay respawn : Bytes → Opt

-- The variables of `main` that the options set.
pub record Settings : Type 0 where
  pub app_type : Option Bytes
  pub magic_options : ℕ
  pub wait_term : Bool
  pub delay : ℕ
  pub respawn_delay : ℕ
  pub test_mode : Bool

unfoldable pub defaults : Settings
defaults = record {
  app_type = none;
  magic_options = option_wait;
  wait_term = true;
  delay = exit_delay;
  respawn_delay = respawn_delay_default;
  test_mode = false;
}

-- The loop ends with settings, or `usage` exits with a status.
pub data Parsed : Type 0 where
  parsed : Settings → Parsed
  usage : ℕ → Parsed

abbrev with_flag : ℕ → Settings → Settings
with_flag o s = record s { magic_options = bit_or s.magic_options o }

abbrev or_usage : Option ℕ → (ℕ → Settings) → Parsed
or_usage none f = usage 1
or_usage (some n) f = parsed (f n)

-- The switch on one option.
unfoldable pub parse_option : Numbers → Opt → Settings → Parsed
unfolding get_delay
parse_option num help s = usage 0
parse_option num wait_term s = parsed s
parse_option num daemon_mode s = parsed (with_flag option_oom_adj_disable s)
parse_option num no_wait s =
    parsed (record s { wait_term = false; magic_options = bit_and s.magic_options 0xfffffffe })
parse_option num global_syms s = parsed (with_flag option_dlopen_global s)
parse_option num deep_syms s = parsed (with_flag option_dlopen_deep s)
parse_option num test_mode s = parsed (record s { test_mode = true })
parse_option num (app_type name) s = parsed (record s { app_type = some name })
parse_option num (delay text) s =
    or_usage (get_delay num (some text) min_exit_delay max_exit_delay) (λ n. record s { delay = n })
parse_option num (respawn text) s =
    or_usage (get_delay num (some text) min_respawn_delay max_respawn_delay)
      (λ n. record s { respawn_delay = n })
parse_option num single_instance s = parsed (with_flag option_single_instance s)
parse_option num splash s = parsed s
parse_option num unknown s = usage 1
parse_option num other s = parsed s

abbrev and_then : Parsed → (Settings → Parsed) → Parsed
and_then (parsed s) f = f s
and_then (usage n) f = usage n

-- The loop over the options, in the order in which `getopt_long` finds them.
unfoldable pub parse_options : Numbers → List Opt → Settings → Parsed
parse_options num [] s = parsed s
parse_options num (o ∷ os) s = and_then (parse_option num o s) (parse_options num os)

-- "Translate types for compatibility with older versions."
unfoldable pub translate_type : Bytes → Bytes
translate_type t =
    if bytes_eq t (codes "q") || bytes_eq t (codes "qt") || bytes_eq t (codes "m")
    then codes "qt4"
    else if bytes_eq t (codes "d")
    then codes "qml"
    else if bytes_eq t (codes "j")
    then codes "silica"
    else if bytes_eq t (codes "e")
    then codes "generic"
    else t
