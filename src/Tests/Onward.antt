-- ===== src/Tests/Onward.antt =====
-- A daemon that replaces its image, at a concrete state.
use mapplauncherd.Base.{◌≡◌, refl, inr, pos, [], ◌∷◌, codes, arith, bytes_eq}
use mapplauncherd.Map.{find, insert, erase}
use mapplauncherd.SocketManager.{strncpy, init_socket}
use mapplauncherd.Daemon.State.{
  Daemon, returns, exits, throws, child, execs, faults, ◌>>=◌, fork_booster, forked,
  set_unix_signal_handler, kill_boosters,
}
use mapplauncherd.Daemon.Reap.{
  reap_child, next_index, next_round, reap_round, reap_from, reap_zombies, bury, restart,
}
use mapplauncherd.Daemon.Invariant.{Inv}
use mapplauncherd.Daemon.Saved.{
  saved_state, restore_state, read_entry, read_entries, child_lines, pair_lines, socket_lines,
}
use mapplauncherd.Daemon.Loop.{start, iterate, handle_signal, run_loop}
use mapplauncherd.Daemon.Loop.Options.{only_spaces, parse_args, spaces}
use mapplauncherd.Daemon.Construct.{
  Host, signals, fresh, install, claim, recover, open_pipes, set_launcher, set_pipe, daemonize,
  detach, construct, keep_socket, open_socket, notify, run, live, drop_state, settled,
}
use mapplauncherd.Tests.Daemon.{
  daemon, streams-IsFaithful, storage, rounds, os-IsPosix, daemon-Inv, read_number,
}
use mapplauncherd.Daemon.Construct.Onward.{live_again-Inv}
use mapplauncherd.Daemon.Construct.Stale.{construct_stale}
use mapplauncherd.Tests.Runs.{host, launcher, saves}

abbrev relived : Daemon
relived = elim (live host (codes "--re-exec" ∷ spaces 50 ∷ []) launcher rounds) [
  | returns d ↦ d
  | exits n d ↦ d
  | throws d ↦ d
  | child d ↦ d
  | execs ws d ↦ d
  | faults d ↦ d
]

lives_again : live host (codes "--re-exec" ∷ spaces 50 ∷ []) launcher rounds ≡ returns relived
unfolding live construct run install set_unix_signal_handler claim recover open_pipes set_launcher
    set_pipe detach daemonize open_socket keep_socket init_socket strncpy start fork_booster forked
    parse_args bytes_eq run_loop iterate notify drop_state handle_signal reap_zombies reap_from
    reap_round reap_child next_round next_index find insert fresh settled restore_state read_entries
    read_entry read_number only_spaces erase bury restart saved_state child_lines pair_lines
    socket_lines
lives_again = refl

live_again-Inv_example : Inv relived
live_again-Inv_example =
    live_again-Inv host storage daemon (kill_boosters daemon) relived 50 launcher rounds
      streams-IsFaithful (tt, tt) (tt, tt) (tt, tt) (refl, tt) refl (λ s. ground arith) os-IsPosix
      (os-IsPosix, tt) daemon-Inv saves lives_again

-- A host whose state file is that of another process.
abbrev other_host : Host
other_host = record host { state_file = codes "my-pid" ∷ (99 ∷ []) ∷ codes "end" ∷ [] }

abbrev told_again : Daemon
told_again =
    elim (install other_host.old signals (fresh other_host)
      >>= claim other_host
      >>= parse_args (codes "--re-exec" ∷ [])) [
        | returns d ↦ d
        | exits n d ↦ d
        | throws d ↦ d
        | child d ↦ d
        | execs ws d ↦ d
        | faults d ↦ d
      ]

is_told :
    (install other_host.old signals (fresh other_host)
      >>= claim other_host
      >>= parse_args (codes "--re-exec" ∷ []))
    ≡ returns told_again
unfolding install set_unix_signal_handler claim parse_args bytes_eq insert fresh
is_told = refl

construct_stale_example : construct other_host (codes "--re-exec" ∷ []) ≡ throws told_again
unfolding install set_unix_signal_handler claim parse_args bytes_eq insert fresh read_number
construct_stale_example =
    construct_stale other_host (codes "--re-exec" ∷ []) told_again is_told refl
      (inr (99 ∷ [], codes "end" ∷ [], pos 99, refl, refl, ground arith))
