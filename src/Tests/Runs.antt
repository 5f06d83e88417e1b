-- ===== src/Tests/Runs.antt =====
-- The parts of the program that start and end processes, at concrete inputs.
use mapplauncherd.Base.{
  ◌≡◌, refl, true, false, List, [], ◌∷◌, none, some, codes, arith, bytes_eq, pos, length, not,
  if◌then◌else◌, leb,
}
use mapplauncherd.Map.{find, insert}
use mapplauncherd.AppData.{empty}
use mapplauncherd.Environ.{setenv}
use mapplauncherd.Connection.State.{peer_pid}
use mapplauncherd.Connection.Delivery.{assignments}
use mapplauncherd.Connection.Invocation.{waits}
use mapplauncherd.SocketManager.{SocketManager, strncpy, init_socket}
use mapplauncherd.Invoker.Send.{argv}
use mapplauncherd.SingleInstance as Single
use mapplauncherd.SingleInstance.Parts.{Part}
use mapplauncherd.SingleInstance.Lock.{Balanced, main-Balanced}
use mapplauncherd.Daemon.State.{
  sig_dfl, Daemon, returns, exits, throws, child, execs, faults, fork_booster, forked,
  set_unix_signal_handler, kill_boosters,
}
use mapplauncherd.Daemon.Reap.{
  reap_child, next_index, next_round, reap_round, reap_from, reap_zombies,
}
use mapplauncherd.Daemon.Invariant.{Inv}
use mapplauncherd.Daemon.Saved.{saved_state, re_exec}
use mapplauncherd.Daemon.Saved.RoundTrip.{with_state_of}
use mapplauncherd.Daemon.Loop.{start, iterate, handle_signal, run_loop}
use mapplauncherd.Daemon.Loop.Options.{parse_args, spaces}
use mapplauncherd.Daemon.Construct.{
  Host, fresh, signals, install, claim, recover, open_pipes, set_launcher, set_pipe, daemonize,
  detach, construct, keep_socket, open_socket, run, Launcher, live, drop_state, notify,
}
use mapplauncherd.Daemon.Construct.Fresh.{live-Inv}
use mapplauncherd.Daemon.Construct.Again.{installed, construct-re_exec}
use mapplauncherd.Daemon.Construct.Detach.{redirect_all, redirect_all-null}
use mapplauncherd.Booster.Launch.{to_int}
use mapplauncherd.Booster.Rename.{Names}
use mapplauncherd.Booster.Handover.{arrival, served}
use mapplauncherd.Booster.Environment.{Call, Table, apply_all}
use mapplauncherd.Booster.Process.{generic_type, Loader, runs, launch_library, boosted, boost}
use mapplauncherd.Booster.Process.Started.{all_closed, boost-invoke_remote}
use mapplauncherd.Tests.Pipe.{pipe-IsReliable}
use mapplauncherd.Tests.Booster.{run_app, run_app-IsSendable}
use mapplauncherd.Tests.Daemon.{
  os, daemon, streams, streams-IsFaithful, storage, rounds, os-IsPosix,
}
use mapplauncherd.Tests.Handover.{never, free, process, open_files}

abbrev system : Single.System
system = record {
  mkdir = λ p. true;
  chmod = λ p. true;
  open_file = λ p. some 4;
  set_lock = λ fd. true;
  execs = λ p. true;
  bus = record { gets_bus = true; makes_message = true; appends = true; sends = true };
}

-- `//usr/app`
abbrev parts : List Part
parts =
    record { gap = 1; first = b'u'; more = codes "sr" }
    ∷ record { gap = 0; first = b'a'; more = codes "pp" }
    ∷ []

abbrev idle : Single.Process
idle = record { lock_fd = none; calls = [] }

main-Balanced_example :
    Balanced system idle (Single.main system (codes "/run/locks/") (codes "/usr/bin/app" ∷ []) idle)
main-Balanced_example = main-Balanced system (codes "/run/locks/") (codes "/usr/bin/app" ∷ []) idle

abbrev table : Table
table x = if leb x 2 then some x else none

redirect_all-null_example :
    redirect_all 9 (some 3) (some 3) (some 3) table 1 ≡ (if leb 1 2 then some 9 else table 1)
redirect_all-null_example =
    redirect_all-null 9 3 3 3 1 table (omega arith) (omega arith) (omega arith) refl refl refl

abbrev pub loader : Loader
loader = record { dlopen = λ name flags. some 1; main_of = λ lib. some 4096; execs = λ name. true }

abbrev pub manager : SocketManager
manager = record {
  root_path = codes "/run/";
  sockets = (codes "qt5", pos 6) ∷ (codes "silica", pos 7) ∷ [];
  closed = [];
}

abbrev names : Names
names = record { area = []; available = 0; title = none; environ = [] }

boost-invoke_remote_example :
    (calls : List Call) × (boost
        (launch_library process loader false)
        (some manager)
        (codes "booster" ∷ [])
        names
        (pos 6)
        8
        true
        empty
        (arrival pipe-IsReliable run_app [] [] never never ∷ [])
      ≡ boosted
          (record {
            invoker_pid =
                if waits run_app
                then to_int (peer_pid (served pipe-IsReliable run_app [] [] [] 5))
                else pos 0;
            delay = to_int run_app.respawn_delay;
            fd = if waits run_app then some (pos 5) else none;
          })
          (some (all_closed manager))
          (setenv (codes "_") run_app.argv0 (assignments run_app.environ))
          (calls, runs 4096 (length (argv run_app)) (some (argv run_app)) (not false)))
    × (apply_all calls open_files 0 ≡ some 10)
    × (apply_all calls open_files 1 ≡ some 11)
    × (apply_all calls open_files 2 ≡ some 12)
boost-invoke_remote_example =
    boost-invoke_remote pipe-IsReliable process loader false manager (codes "booster" ∷ []) names
      (pos 6) run_app 8 5 1 4096 true empty [] [] never never open_files run_app-IsSendable
      (omega arith) refl refl (ground arith) (omega arith) (refl, (refl, tt)) free refl refl
      (omega arith) (omega arith) (omega arith) (omega arith) (omega arith) (omega arith)
      (ground arith) (ground arith) (ground arith)

abbrev pub host : Host
host = record {
  old = λ s. sig_dfl;
  created = false;
  streams = streams;
  my_pid = pos 2;
  state_file = saved_state streams (pos 2) daemon;
  socketpair = some (pos 3, pos 4);
  pipe = some (pos 5, pos 6);
  first_fork = pos 0;
  second_fork = pos 0;
  setsid = true;
  chdir = true;
  memory = λ n. pos n;
}

pub saves : re_exec streams storage (pos 2) daemon ≡ execs host.state_file (kill_boosters daemon)
unfolding re_exec
saves = refl

construct-re_exec_example :
    construct host (codes "--re-exec" ∷ spaces 50 ∷ [])
    ≡ returns (
        drop_state (
          with_state_of daemon
            (record (fresh host) { re_exec = true; sig_handlers = installed host.old signals [] })))
construct-re_exec_example =
    construct-re_exec host storage daemon (kill_boosters daemon) 50 streams-IsFaithful (tt, tt)
      (tt, tt) (tt, tt) (refl, tt) refl (λ s. ground arith) saves

abbrev pub launcher : Launcher
launcher = record {
  os = os;
  root_path = codes "/run/";
  socket_calls = record { socket = pos 7; bind = λ fd p. true; listen = λ fd. true };
  booster_type = generic_type;
}

abbrev lived : Daemon
lived = elim (live host (codes "--daemon" ∷ []) launcher rounds) [
  | returns d ↦ d
  | exits n d ↦ d
  | throws d ↦ d
  | child d ↦ d
  | execs ws d ↦ d
  | faults d ↦ d
]

lives : live host (codes "--daemon" ∷ []) launcher rounds ≡ returns lived
unfolding live construct run install set_unix_signal_handler claim recover open_pipes set_launcher
    set_pipe detach daemonize open_socket keep_socket init_socket strncpy start fork_booster forked
    parse_args bytes_eq run_loop iterate notify handle_signal reap_zombies reap_from reap_round
    reap_child next_round next_index find insert fresh
lives = refl

plain : bytes_eq (codes "--daemon") (codes "--re-exec") ≡ false
unfolding bytes_eq
plain = refl

live-Inv_example : Inv lived
live-Inv_example =
    live-Inv host (codes "--daemon" ∷ []) launcher rounds lived (plain, tt) (os-IsPosix, tt) lives
