-- ===== src/Booster/Process.antt =====
-- What a booster does around its wait: its priority, and the start of the application, as a library by
-- `Booster::launchProcess` or as a program by `EBooster::launchProcess` of
-- src/booster-generic/booster-generic.cpp.
pub mod Restored
pub mod Started
use mapplauncherd.Base.{
  ℕ, Bool, true, false, not, List, [], ◌∷◌, ◌++◌, Option, none, some, Bytes, codes, if◌then◌else◌,
  ◌==◌, length, bit_or, ℤ, negsuc,
}
use mapplauncherd.Wire.{Kernel}
use mapplauncherd.AppData.{AppData, dlopen_global, dlopen_deep}
use mapplauncherd.Connection.State.{Connection}
use mapplauncherd.SocketManager.{SocketManager, close_all_sockets}
use mapplauncherd.Daemon.Loop.{Message}
use mapplauncherd.Booster.Launch.{
  Waited, launches, throws, waiting, out_of_fuel, Arrival, serve, send_data_to_parent,
}
use mapplauncherd.Booster.Rename.{Names, rename_process, words}
use mapplauncherd.Booster.Environment.{Call, Process, set_environment_before_launch}

-- `getpriority`, of which none is an error, and whether `setpriority` succeeds.
pub record Scheduler : Type 0 where
  pub getpriority : Option ℤ
  pub setpriority : ℤ → Bool

-- `m_oldPriority` and `m_oldPriorityOk`, and the priority that the process has.
pub record Priority : Type 0 where
  pub old : ℤ
  pub old_ok : Bool
  pub nice : ℤ

unfoldable pub set_nice : Scheduler → ℤ → Priority → Bool × Priority
set_nice s n p = if s.setpriority n then (true, record p { nice = n }) else (false, p)

unfoldable pub push_priority : Scheduler → ℤ → Priority → Bool × Priority
push_priority s n p = elim s.getpriority [
  | none ↦ (false, record p { old = negsuc 0; old_ok = false })
  | some cur ↦ set_nice s n (record p { old = cur; old_ok = true })
]

unfoldable pub pop_priority : Scheduler → Priority → Bool × Priority
pop_priority s p = if p.old_ok then set_nice s p.old p else (false, p)

-- `dlopen`, the address of `main` in the library, and whether `execv` replaces the process.
pub record Loader : Type 0 where
  pub dlopen : Bytes → ℕ → Option ℕ
  pub main_of : ℕ → Option ℕ
  pub execs : Bytes → Bool

-- How a launch goes: `main` at the address runs with the arguments, behind `preinit` or not; the process
-- becomes the file with the arguments; an exception; or a status.
pub data Launched : Type 0 where
  runs : ℕ → ℕ → Option (List Bytes) → Bool → Launched
  becomes : Bytes → Option (List Bytes) → Launched
  cannot_load : Launched
  no_main : Launched
  fails : ℕ → Launched

-- RTLD_LAZY, RTLD_GLOBAL, RTLD_LOCAL and RTLD_DEEPBIND of Linux.
abbrev pub rtld_lazy : ℕ
rtld_lazy = 1

abbrev pub rtld_global : ℕ
rtld_global = 256

abbrev pub rtld_local : ℕ
rtld_local = 0

abbrev pub rtld_deepbind : ℕ
rtld_deepbind = 8

unfoldable pub dlopen_flags : AppData → ℕ
dlopen_flags a =
    let flags = bit_or rtld_lazy (if dlopen_global a then rtld_global else rtld_local) in
    if dlopen_deep a then bit_or flags rtld_deepbind else flags

-- `loadMain`: the address of `main`, or how it throws.
pub data Loaded : Type 0 where
  entry : ℕ → Loaded
  not_loaded : Loaded
  without_main : Loaded

unfoldable pub load_main : Loader → AppData → Loaded
load_main l a = elim (l.dlopen a.file_name (dlopen_flags a)) [
  | none ↦ not_loaded
  | some lib ↦ elim (l.main_of lib) [ none ↦ without_main | some e ↦ entry e ]
]

unfoldable pub call_main : Bool → AppData → Loaded → Launched
call_main boot_mode a (entry e) = runs e a.argc a.argv (not boot_mode)
call_main boot_mode a not_loaded = cannot_load
call_main boot_mode a without_main = no_main

-- `Booster::launchProcess`
unfoldable pub launch_library : Process → Loader → Bool → AppData → List Call × Launched
launch_library p l boot_mode a =
    (set_environment_before_launch p a, call_main boot_mode a (load_main l a))

-- `EBooster::m_boosterType`
abbrev pub generic_type : Bytes
generic_type = codes "generic"

-- `EBooster::launchProcess`
unfoldable pub launch_program : Process → Loader → AppData → List Call × Launched
launch_program p l a = (
  set_environment_before_launch p a,
  if l.execs a.file_name then becomes a.file_name a.argv else fails 1,
)

-- What has become of the booster: it has sent its message, has closed the daemon's sockets, and has
-- launched, with its environment; or how its wait has ended otherwise.
pub data Boosted : Type 0 where
  boosted : Message → Option SocketManager → List Bytes → List Call × Launched → Boosted
  nothing_read : Boosted
  still_waiting : Boosted
  spent : Boosted

abbrev pub close_sockets : Option SocketManager → Option SocketManager
close_sockets none = none
close_sockets (some m) = some (close_all_sockets m)

-- `run`, with what `launchProcess` does.
unfoldable pub run :
    (AppData → List Call × Launched)
    → Option SocketManager
    → AppData
    → Option SocketManager × (List Call × Launched)
run launch m a = if length a.file_name == 0 then (m, ([], fails 1)) else (close_sockets m, launch a)

-- Behind the loop of `initialize`, and then `run`, as the daemon's child calls them: the message is sent,
-- the process takes the name of the application, and the application starts with the environment that
-- then is.
unfoldable pub go_on :
    {k : Kernel}
    → (AppData → List Call × Launched)
    → Option SocketManager
    → List Bytes
    → Names
    → Waited k
    → Boosted
go_on launch m parent names (launches plugin a c) =
    let (m', r) = run launch m a in
    let named = rename_process parent (words a.argv) (record names { environ = c.env }) in
    boosted (send_data_to_parent a c) m' named.environ r
go_on launch m parent names throws = nothing_read
go_on launch m parent names waiting = still_waiting
go_on launch m parent names out_of_fuel = spent

-- From the loop on; `names` is what the process is called by behind its first `renameProcess`.
unfoldable pub boost :
    {k : Kernel}
    → (AppData → List Call × Launched)
    → Option SocketManager
    → List Bytes
    → Names
    → ℤ
    → ℕ
    → Bool
    → AppData
    → List (Arrival k)
    → Boosted
boost launch m parent names listening n plugin a xs =
    go_on launch m parent names (serve listening n plugin a names.environ xs)
