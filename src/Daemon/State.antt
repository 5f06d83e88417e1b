-- ===== src/Daemon/State.antt =====
-- The class `Daemon`: its fields, the system calls it makes, and the members that make them.
use mapplauncherd.Base.{
  ℕ, Bool, true, false, not, ◌&&◌, List, [], ◌∷◌, ◌++◌, Bytes, if◌then◌else◌, ℤ, pos, negsuc,
  int_eq, int_lt,
}
use mapplauncherd.Map.{Map, insert}
use mapplauncherd.Map.Order.{int_ord}

pub data Handler : Type 0 where
  sig_dfl sig_ign sig_err : Handler
  handler : ℕ → Handler

-- What the daemon does to the world, in order. `forks n` is a fork whose child sleeps `n` seconds.
pub data Effect : Type 0 where
  forks : ℤ → Effect
  waits : ℤ → Effect
  kills : ℤ → ℕ → Effect
  writes : ℤ → ℤ → Effect
  closes : ℤ → Effect
  dies_with_parent : Effect
  new_session : Effect
  sleeps : ℤ → Effect
  restores : ℤ → Handler → Effect
  masks_files : ℕ → Effect
  removes_state notifies_ready : Effect

-- The result of `waitpid(pid, &status, WNOHANG)`: 0, -1, or the pid with its status. A status that
-- is neither an exit nor a signal does not come without WUNTRACED; the code tests for both.
pub data Status : Type 0 where
  exited : ℕ → Status
  signaled : ℕ → Status
  stopped : Status

pub data Wait : Type 0 where
  running : Wait
  failed : Wait
  died : Status → Wait

-- The results of the system calls, which may depend on all that was done before. `spare` is no call: it is
-- how many rounds `reapZombies` is given beyond what its children need, see `reap_zombies`.
pub record Os : Type 0 where
  pub fork : List Effect → ℤ
  pub waitpid : List Effect → ℤ → Wait
  pub spare : ℕ

-- `log` is no field of the source: it is what was done so far.
pub record Daemon : Type 0 where
  pub daemon : Bool
  pub debug_mode : Bool
  pub boot_mode : Bool
  pub re_exec : Bool
  pub notify_systemd : Bool
  pub has_booster : Bool
  pub children : List ℤ
  pub invoker_pids : Map ℤ ℤ
  pub invoker_fds : Map ℤ ℤ
  pub booster_pid : ℤ
  pub launcher_socket0 : ℤ
  pub launcher_socket1 : ℤ
  pub sig_pipe0 : ℤ
  pub sig_pipe1 : ℤ
  pub sockets : Map Bytes ℤ
  pub sig_handlers : Map ℤ Handler
  pub log : List Effect

-- How a member function ends: it returns, the process exits, an exception leaves it, it goes on in a
-- child that was forked, which runs a booster, the process image is replaced, with the words of the
-- state file that was left, or the behaviour is undefined.
pub data Outcome : Type 0 where
  returns : Daemon → Outcome
  exits : ℕ → Daemon → Outcome
  throws : Daemon → Outcome
  child : Daemon → Outcome
  execs : List Bytes → Daemon → Outcome
  faults : Daemon → Outcome

infixl 5 ◌>>=◌
abbrev pub ◌>>=◌ : Outcome → (Daemon → Outcome) → Outcome
returns d >>= f = f d
exits n d >>= f = exits n d
throws d >>= f = throws d
child d >>= f = child d
execs ws d >>= f = execs ws d
faults d >>= f = faults d

abbrev pub logged : Effect → Daemon → Daemon
logged e d = record d { log = d.log ++ e ∷ [] }

-- `killProcess`; a failure of `kill` is only logged.
unfoldable pub kill_process : ℤ → ℕ → Daemon → Daemon
kill_process pid signal d = if int_lt (pos 0) pid then logged (kills pid signal) d else d

abbrev pub sigterm : ℕ
sigterm = 15

abbrev pub sighup : ℤ
sighup = pos 1

-- `setUnixSignalHandler`, where `signal` returned `old`.
unfoldable pub set_unix_signal_handler : ℤ → Handler → Daemon → Outcome
set_unix_signal_handler signum sig_ign d =
    if int_eq signum sighup
    then returns (record d { sig_handlers = insert signum sig_dfl d.sig_handlers })
    else returns (record d { sig_handlers = insert signum sig_ign d.sig_handlers })
set_unix_signal_handler signum sig_err d = throws d
set_unix_signal_handler signum old d =
    returns (record d { sig_handlers = insert signum old d.sig_handlers })

-- `restoreUnixSignalHandlers`
unfoldable pub restore_handlers : Map ℤ Handler → Daemon → Daemon
restore_handlers [] d = record d { sig_handlers = [] }
restore_handlers ((s, h) ∷ hs) d = restore_handlers hs (logged (restores s h) d)

-- The loop of the child over the invokers' descriptors: it closes each one, and sets it to -1.
unfoldable pub close_fds : Map ℤ ℤ → Map ℤ ℤ → Daemon → Daemon
close_fds done [] d = record d { invoker_fds = done }
close_fds done ((p, fd) ∷ m) d =
    if int_eq fd (negsuc 0)
    then close_fds (done ++ (p, fd) ∷ []) m d
    else close_fds (done ++ (p, negsuc 0) ∷ []) m (logged (closes fd) d)

-- What the forked child does before it initializes its booster.
unfoldable pub enter_child : ℤ → Daemon → Daemon
enter_child sleep_time d =
    let e = logged dies_with_parent (restore_handlers d.sig_handlers d) in
    let f =
      logged (closes d.sig_pipe1)
        (logged (closes d.sig_pipe0) (logged (closes d.launcher_socket0) e)) in
    let g = logged new_session (close_fds [] f.invoker_fds f) in
    if not d.boot_mode && not (int_eq sleep_time (pos 0)) then logged (sleeps sleep_time) g else g

-- The branches on the result of `fork`.
unfoldable pub forked : ℤ → ℤ → Daemon → Outcome
forked new_pid sleep_time d =
    if int_eq new_pid (negsuc 0)
    then throws d
    else if int_eq new_pid (pos 0)
    then child (enter_child sleep_time d)
    else returns (record d { children = d.children ++ new_pid ∷ []; booster_pid = new_pid })

unfoldable pub fork_booster : Os → ℤ → Daemon → Outcome
unfolding forked
fork_booster os sleep_time d =
    if not d.has_booster
    then exits 1 d
    else let e = record d { booster_pid = pos 0 } in
      forked (os.fork e.log) sleep_time (logged (forks sleep_time) e)

-- `killBoosters`
unfoldable pub kill_boosters : Daemon → Daemon
unfolding kill_process
kill_boosters d = if int_eq d.booster_pid (pos 0) then d else kill_process d.booster_pid sigterm d

-- `enterNormalMode`
unfoldable pub enter_normal_mode : Daemon → Daemon
unfolding kill_boosters
enter_normal_mode d = if d.boot_mode then kill_boosters (record d { boot_mode = false }) else d

-- `enterBootMode`
unfoldable pub enter_boot_mode : Daemon → Daemon
unfolding kill_boosters
enter_boot_mode d = if d.boot_mode then d else kill_boosters (record d { boot_mode = true })
