-- ===== src/Daemon/Construct.antt =====
-- The constructor of `Daemon`, and `run` up to the main loop.
pub mod Fresh
pub mod Again
pub mod Detach
pub mod Onward
pub mod Stale
use mapplauncherd.Base.{
  ℕ, Bool, true, false, not, ◌&&◌, List, [], ◌∷◌, ◌++◌, Option, none, some, Bytes, if◌then◌else◌, ℤ,
  pos, int_eq, int_lt,
}
use mapplauncherd.SocketManager.{SocketManager, Sockets, Inited, inited, throws, init_socket}
use mapplauncherd.Daemon.State.{
  Effect, writes, Handler, Os, Daemon, Outcome, returns, exits, faults, ◌>>=◌, sighup, logged,
  masks_files, removes_state, notifies_ready, set_unix_signal_handler,
}
use mapplauncherd.Daemon.State as State
use mapplauncherd.Daemon.Saved.{Streams, Restored, restored, exits_1, uncaught, restore_state}
use mapplauncherd.Daemon.Loop.{
  Signal, sigchld, sigterm, sigusr1, sigusr2, sigpipe, unknown, World, Ready, start, run_loop,
}
use mapplauncherd.Daemon.Loop.Options.{parse_args}

-- What the constructor asks the system: `signal`, the descriptors of `socketpair` and `pipe`, of which
-- none is a failure, the words of the state file, the two forks of `daemonize`, and whether `setsid` and
-- `chdir` succeed. `created` is whether a daemon exists, and `memory` is what the members hold that the
-- constructor does not initialize.
pub record Host : Type 0 where
  pub old : ℤ → Handler
  pub created : Bool
  pub streams : Streams
  pub my_pid : ℤ
  pub state_file : List Bytes
  pub socketpair : Option (ℤ × ℤ)
  pub pipe : Option (ℤ × ℤ)
  pub first_fork : ℤ
  pub second_fork : ℤ
  pub setsid : Bool
  pub chdir : Bool
  pub memory : ℕ → ℤ

-- The initializers.
unfoldable pub fresh : Host → Daemon
fresh h = record {
  daemon = false;
  debug_mode = false;
  boot_mode = false;
  re_exec = false;
  notify_systemd = false;
  has_booster = false;
  children = [];
  invoker_pids = [];
  invoker_fds = [];
  booster_pid = pos 0;
  launcher_socket0 = h.memory 0;
  launcher_socket1 = h.memory 1;
  sig_pipe0 = h.memory 2;
  sig_pipe1 = h.memory 3;
  sockets = [];
  sig_handlers = [];
  log = [];
}

-- SIGCHLD, SIGTERM, SIGUSR1, SIGUSR2, SIGPIPE and SIGHUP, as on Linux.
abbrev pub signals : List ℤ
signals = pos 17 ∷ pos 15 ∷ pos 10 ∷ pos 12 ∷ pos 13 ∷ sighup ∷ []

-- The signal that the main loop reads from the byte in the pipe.
unfoldable pub signal_of : ℤ → Signal
signal_of b =
    if int_eq b (pos 17)
    then sigchld
    else if int_eq b (pos 15)
    then sigterm
    else if int_eq b (pos 10)
    then sigusr1
    else if int_eq b (pos 12)
    then sigusr2
    else if int_eq b (pos 13)
    then sigpipe
    else if int_eq b sighup
    then Signal.sighup
    else unknown

-- The handlers, `sigChldHandler` and the others: what they write to the pipe of the daemon that
-- `instance` gives. Without one they read through a null pointer.
unfoldable pub on_signal : Option Daemon → ℤ → Option Effect
on_signal none signum = none
on_signal (some d) signum = some (writes d.sig_pipe1 signum)

unfoldable pub install : (ℤ → Handler) → List ℤ → Daemon → Outcome
install old [] d = returns d
install old (s ∷ ss) d = set_unix_signal_handler s (old s) d >>= install old ss

-- There is one daemon at most.
unfoldable pub claim : Host → Daemon → Outcome
claim h d = if h.created then State.throws d else returns d

-- Both ends of `restoreState` remove the state file, unless in debug mode. Whether `remove` fails is only
-- logged.
unfoldable pub drop_state : Daemon → Daemon
drop_state d = if d.debug_mode then d else logged removes_state d

unfoldable pub settled : Option Restored → Daemon → Outcome
unfolding drop_state
settled none d = faults d
settled (some (restored e)) d = returns (drop_state e)
settled (some (exits_1 e)) d = exits 1 (drop_state e)
settled (some uncaught) d = State.throws d

-- `if (m_reExec) restoreState()`
unfoldable pub recover : Host → Daemon → Outcome
recover h d =
    if d.re_exec then settled (restore_state h.streams h.my_pid h.state_file d) d else returns d

unfoldable pub set_launcher : Option (ℤ × ℤ) → Daemon → Outcome
set_launcher none d = State.throws d
set_launcher (some (a, b)) d = returns (record d { launcher_socket0 = a; launcher_socket1 = b })

unfoldable pub set_pipe : Option (ℤ × ℤ) → Daemon → Outcome
set_pipe none d = State.throws d
set_pipe (some (a, b)) d = returns (record d { sig_pipe0 = a; sig_pipe1 = b })

-- A daemon that was not re-executed makes its socket pair and its pipe.
unfoldable pub open_pipes : Host → Daemon → Outcome
open_pipes h d = if d.re_exec then returns d else set_launcher h.socketpair d >>= set_pipe h.pipe

-- `daemonize`, without its work on the standard descriptors, see Detach.
unfoldable pub daemonize : Host → Daemon → Outcome
daemonize h d =
    if int_lt h.first_fork (pos 0)
    then State.throws d
    else if int_lt (pos 0) h.first_fork
    then exits 0 d
    else if int_lt h.second_fork (pos 0)
    then State.throws d
    else if int_lt (pos 0) h.second_fork
    then exits 0 d
    else let e = logged (masks_files 0) d in
      if not h.setsid then State.throws e else if not h.chdir then State.throws e else returns e

unfoldable pub detach : Host → Daemon → Outcome
unfolding daemonize
detach h d = if d.daemon then daemonize h d else returns d

-- The constructor, with the arguments behind the program's name.
unfoldable pub construct : Host → List Bytes → Outcome
construct h args =
    install h.old signals (fresh h)
    >>= claim h
    >>= parse_args args
    >>= recover h
    >>= open_pipes h
    >>= detach h

unfoldable pub keep_socket : Inited → Daemon → Outcome
keep_socket (inited m) d = returns (record d { sockets = m.sockets })
keep_socket throws d = State.throws d

-- What `run` asks the system for the booster's socket, whose name is the booster's type.
pub record Launcher : Type 0 where
  pub os : Os
  pub root_path : Bytes
  pub socket_calls : Sockets
  pub booster_type : Bytes

-- `m_socketManager->initSocket(booster->boosterType())`
unfoldable pub open_socket : Launcher → Daemon → Outcome
open_socket l d =
    keep_socket
      (init_socket l.socket_calls l.booster_type
        (record { root_path = l.root_path; sockets = d.sockets; closed = [] }))
      d

-- "Notify systemd that init is done"
unfoldable pub notify : Daemon → Outcome
notify d = returns (if d.notify_systemd then logged notifies_ready d else d)

-- `run`, up to the main loop.
unfoldable pub run : Launcher → Daemon → Outcome
run l d =
    let e = record d { has_booster = true } in
    (if e.re_exec then returns e else open_socket l e) >>= start l.os >>= notify

-- The whole program: the constructor, `run`, and so many rounds of its main loop.
unfoldable pub live : Host → List Bytes → Launcher → List (World × Ready) → Outcome
live h args l rounds = construct h args >>= run l >>= run_loop rounds
