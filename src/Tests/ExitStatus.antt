-- ===== src/Tests/ExitStatus.antt =====
-- An application that exits, from the booster's message to the invoker's end.
use mapplauncherd.Base.{
  int_eq, ◌≡◌, ◌≢◌, inr, refl, true, false, List, [], ◌∷◌, ◌++◌, none, some, arith, ℤ, pos,
  if◌then◌else◌,
}
use mapplauncherd.Map.{find, insert, erase}
use mapplauncherd.Wire.{bytes}
use mapplauncherd.AppData.{empty}
use mapplauncherd.Connection.State.{Connection, peer_pid, is_report_app_exit_status_needed}
use mapplauncherd.Connection.Rounds.{acknowledgement}
use mapplauncherd.Daemon.State.{
  Effect, Os, Daemon, died, exited, running, returns, exits, throws, child, execs, faults,
  fork_booster, forked,
}
use mapplauncherd.Daemon.Reap.{
  bury, restart, reap_child, next_index, next_round, reap_round, reap_from, reap_zombies,
}
use mapplauncherd.Daemon.Loop.{
  World, Ready, arrived, sigchld, run_loop, iterate, handle_signal, read_from_booster_socket,
  store_invoker,
}
use mapplauncherd.Daemon.Spec.Lifelong.{Keeps}
use mapplauncherd.Daemon.Spec.{notice, visible}
use mapplauncherd.Booster.Launch.{invokers_pid, send_data_to_parent}
use mapplauncherd.Booster.Handover.{served}
use mapplauncherd.Invoker.Wait.{goes, status, finish_invocation}
use mapplauncherd.Invoker.Exit.{written, after_signals}
use mapplauncherd.ExitStatus.{exit_status_delivered}
use mapplauncherd.Tests.Pipe.{pipe, stream, pipe-IsReliable}
use mapplauncherd.Tests.Booster.{run_app}
use mapplauncherd.Tests.Daemon.{os, daemon, daemon-Inv, streams, storage}

-- The booster 12 becomes the application of the invoker 77, and exits with status 3.
abbrev waiting : Connection pipe
waiting = served pipe-IsReliable run_app [] [] [] 5

-- The daemon's number for the descriptor is another one.
abbrev new_fd : ℤ → ℤ
new_fd fd = pos 9

abbrev handed : Daemon
handed =
    elim (read_from_booster_socket os (some (arrived new_fd (send_data_to_parent empty waiting)))
      daemon) [
        | returns d ↦ d
        | exits n d ↦ d
        | throws d ↦ d
        | child d ↦ d
        | execs ws d ↦ d
        | faults d ↦ d
      ]

hands_over :
    read_from_booster_socket os (some (arrived new_fd (send_data_to_parent empty waiting))) daemon
    ≡ returns handed
unfolding read_from_booster_socket store_invoker fork_booster forked send_data_to_parent
    invokers_pid peer_pid is_report_app_exit_status_needed insert
hands_over = refl

abbrev later : Os
later = record {
  fork = λ l. pos 14;
  waitpid = λ l p. if int_eq p (pos 12) then died (exited 3) else running;
  spare = 0;
}

later-Keeps : Keeps (pos 12) (exited 3) later
later-Keeps = record {
  posix = λ l p. (ground arith, ground arith);
  no_reuse = λ l. ground arith;
  fate = λ l. inr refl;
}

abbrev later_world : World
later_world = record { os = later; streams = streams; storage = storage; my_pid = pos 2 }

abbrev idle : World × Ready
idle = (later_world, record { booster = none; signal = none })

abbrev chld : Ready
chld = record { booster = none; signal = some sigchld }

abbrev gone : Daemon
gone = elim (run_loop (idle ∷ (later_world, chld) ∷ []) handed) [
  | returns d ↦ d
  | exits n d ↦ d
  | throws d ↦ d
  | child d ↦ d
  | execs ws d ↦ d
  | faults d ↦ d
]

goes_away : run_loop (idle ∷ (later_world, chld) ∷ []) handed ≡ returns gone
unfolding run_loop iterate handle_signal reap_zombies reap_from reap_round reap_child next_round
    next_index bury restart find erase read_from_booster_socket store_invoker fork_booster forked
    send_data_to_parent invokers_pid peer_pid is_report_app_exit_status_needed insert
goes_away = refl

has_invoker : invokers_pid waiting ≢ pos 0
unfolding invokers_pid peer_pid is_report_app_exit_status_needed
has_invoker = ground arith

exit_status_delivered_example :
    (sent : List Effect) × (before : List Effect) × (after : List Effect) × (sent
      ≡ notice (invokers_pid waiting) (some (new_fd (pos 5))) (exited 3))
    × (visible gone.log ≡ before ++ (sent ++ after))
    × (finish_invocation pipe true false
          (after_signals (17 ∷ 28 ∷ []))
          (stream (bytes (acknowledgement waiting ++ written (new_fd (pos 5)) sent) ++ []) [])
        ≡ goes (status 3))
exit_status_delivered_example =
    exit_status_delivered pipe-IsReliable waiting empty os daemon handed gone (idle ∷ []) []
      later_world chld new_fd 5 (17 ∷ 28 ∷ []) 3 false [] [] (refl, (refl, tt)) refl refl
      has_invoker (omega arith) (ground arith) (omega arith) daemon-Inv (ground arith)
      (λ l. ground arith) hands_over (later-Keeps, (later-Keeps, tt)) refl (λ l l' p. refl) refl
      goes_away
