-- ===== src/Invoker/Program.antt =====
-- `main` of src/invoker/invoker.c, with `invoke` and `invoke_fallback`.
pub mod Sent
pub mod Status
use mapplauncherd.Base.{
  ℕ, Bool, true, false, not, ◌&&◌, ◌||◌, List, [], ◌∷◌, ◌++◌, Option, none, some, Bytes, codes,
  if◌then◌else◌, ◌==◌, ltb, ℤ, pos, negsuc, int_eq, int_lt, ◌-◌, ◌%◌, word_mod,
}
use mapplauncherd.Environ.{putenv}
use mapplauncherd.Wire.{Kernel, Item}
use mapplauncherd.Invoker.Send.{Invocation, invoke_remote}
use mapplauncherd.Invoker.Wait.{
  Step, goes, dies, Event, Waiting, status, killed_by, kills_both, waiting, finish_invocation,
}
use mapplauncherd.Invoker.Options.{
  Numbers, Opt, Settings, defaults, Parsed, parsed, usage, parse_options, translate_type,
}
use mapplauncherd.Invoker.Search.{System, search_program}
use mapplauncherd.Invoker.Connect.{connect_path}

-- `strstr(text, part) != NULL`
unfoldable pub starts_with : Bytes → Bytes → Bool
starts_with text [] = true
starts_with [] (c ∷ part) = false
starts_with (b ∷ text) (c ∷ part) = b == c && starts_with text part

unfoldable pub contains : Bytes → Bytes → Bool
contains [] part = starts_with [] part
contains (b ∷ text) part = starts_with (b ∷ text) part || contains text part

-- EXIT_STATUS_APPLICATION_NOT_FOUND
abbrev pub not_found : ℕ
not_found = 0x7f

-- What `main` asks the system. `is_file` is none where `stat` fails, and otherwise whether the file is
-- regular or a link; `socket` and `connects` are whether these calls succeed; `fork` is its result, and
-- `execs` is whether `execve` of a file replaces the process. `getpriority` is what it returns, and
-- whether it sets `errno`.
pub record Machine : Type 0 where
  pub numbers : Numbers
  pub search : System
  pub is_file : Bytes → Option Bool
  pub pipe : Bool
  pub runtime_dir : Option Bytes
  pub socket : Bool
  pub connects : Bytes → Bool
  pub fork : ℤ
  pub execs : Bytes → Bool
  pub getpriority : ℤ × Bool
  pub uid : ℕ
  pub gid : ℕ
  pub environ : List Bytes

-- How the process ends: with a status, behind a delay in seconds; as another program, with its
-- arguments; by killing the application and itself; by a signal; or it waits still.
pub data Ending : Type 0 where
  ends : ℕ → ℕ → Ending
  becomes : Bytes → List Bytes → Ending
  kills : ℕ → Ending
  ends_by : ℕ → Ending
  waits : Ending

-- `fd = invoker_init(app_type)`: it is open, it is -1, or the process dies.
pub data Connected : Type 0 where
  opened : Bytes → Connected
  broken : Connected
  invalid : Connected

-- `invoker_init`
unfoldable pub invoker_init : Machine → Bytes → Connected
invoker_init w app_type =
    if not w.socket then broken else elim (connect_path w.runtime_dir app_type) [
      | none ↦ invalid
      | some path ↦ if w.connects path then opened path else broken
    ]

-- `execve`, and what follows where it returns.
unfoldable pub execute : Machine → Bytes → List Bytes → Ending
execute w prog argv = if w.execs prog then becomes prog argv else ends 1 0

-- `invoke_fallback`, with the exit delay of `main` where it returns to it.
unfoldable pub invoke_fallback : Machine → Bytes → List Bytes → Bool → ℕ → Ending
unfolding execute
invoke_fallback w prog argv wait_term delay =
    if wait_term
    then execute w prog argv
    else if int_eq w.fork (negsuc 0)
    then ends 1 0
    else if int_eq w.fork (pos 0)
    then execute w prog argv
    else ends 0 delay

-- The status of `invoke_remote`, and the end of `main`.
unfoldable pub settle : ℕ → Step Waiting → Ending
settle delay (dies n) = ends n 0
settle delay (goes (status n)) = ends n delay
settle delay (goes (kills_both pid)) = kills pid
settle delay (goes (killed_by sig)) = ends_by sig
settle delay (goes waiting) = waits

-- An `int` passed as a `uint32_t`.
unfoldable pub as_word : ℤ → ℕ
as_word (pos n) = n % word_mod
as_word (negsuc n) = word_mod - 1 - n % word_mod

-- `prog_prio` of `invoke_remote`
unfoldable pub prog_prio : ℤ × Bool → ℤ
prog_prio (prio, errno) = if errno && int_lt prio (pos 0) then pos 0 else prio

-- What `invoke_remote` sends for the program and its arguments, the first of which is its name. The
-- environment is the one that the `putenv` of `main` has left.
unfoldable pub invocation : Machine → Settings → Bytes → Bytes → List Bytes → Invocation
unfolding as_word prog_prio
invocation w s prog argv0 args = record {
  options = s.magic_options;
  argv0 = argv0;
  args = args;
  prog_name = prog;
  prio = as_word (prog_prio w.getpriority);
  respawn_delay = s.respawn_delay;
  uid = w.uid;
  gid = w.gid;
  environ = putenv (codes "POSIXLY_CORRECT=1") w.environ;
}

-- The checks of `main` on the file: the status with which it returns, or none where they pass.
unfoldable pub check_file : Option Bool → Option ℕ
check_file none = some not_found
check_file (some false) = some not_found
check_file (some true) = none

-- How the run ends, and what it sent.
pub record Run : Type 0 where
  pub ending : Ending
  pub sent : List Item

abbrev pub silent : Ending → Run
silent e = record { ending = e; sent = [] }

-- `events` and `sock` are what the invoker meets once it is connected, and `runs` is whether the
-- application is found in /proc when the connection is lost.
module _ (k : Kernel) (w : Machine) (sock : k.Sock) (events : List Event) (runs : Bool) where
  -- `invoke`. The switch of test mode only writes a message, and has no effect.
  unfoldable pub invoke : Settings → Bytes → Bytes → List Bytes → Bytes → Run
  invoke s prog argv0 args app_type = elim (invoker_init w app_type) [
    | invalid ↦ silent (ends 1 0)
    | broken ↦ silent (invoke_fallback w prog (argv0 ∷ args) s.wait_term s.delay)
    | opened path ↦ record {
      ending = settle s.delay (finish_invocation k s.wait_term runs events sock);
      sent = invoke_remote (invocation w s prog argv0 args);
    }
  ]

  -- Behind the checks on the file.
  unfoldable pub launch : Settings → Bytes → Bytes → List Bytes → Option Bytes → Run
  launch s prog argv0 args none = silent (ends 1 0)
  launch s prog argv0 args (some app_type) =
      if not w.pipe then silent (ends 1 0) else invoke s prog argv0 args (translate_type app_type)

  unfoldable pub with_program : Settings → Bytes → List Bytes → Option Bytes → Run
  with_program s argv0 args none = silent (ends 1 0)
  with_program s argv0 args (some prog) = elim (check_file (w.is_file prog)) [
    | some n ↦ silent (ends n 0)
    | none ↦ launch s prog argv0 args s.app_type
  ]

  -- Behind the options; the words are those that are left of the command line.
  unfoldable pub with_settings : Settings → List Bytes → Run
  with_settings s [] = silent (ends 1 0)
  with_settings s (argv0 ∷ args) = with_program s argv0 args (search_program w.search argv0)

  -- `main`, called by the name `name`.
  unfoldable pub main : Bytes → List Opt → List Bytes → Run
  main name opts words =
      if not (contains name (codes "invoker"))
      then silent (ends 1 0)
      else elim (parse_options w.numbers opts defaults) [
        | usage n ↦ silent (ends n 0)
        | parsed s ↦ with_settings s words
      ]
