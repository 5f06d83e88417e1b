-- ===== src/Daemon/Loop.antt =====
-- The daemon's life: its arguments, its main loop, and what it does on each event.
pub mod Lifetime
pub mod Options
use mapplauncherd.Base.{
  ℕ, Bool, true, false, not, ◌||◌, List, [], ◌∷◌, ◌++◌, Option, none, some, Bytes, if◌then◌else◌, ℤ,
  pos, int_eq,
}
use mapplauncherd.Map.{insert}
use mapplauncherd.Map.Order.{int_ord}
use mapplauncherd.Daemon.State.{
  Os, Daemon, Outcome, returns, exits, faults, ◌>>=◌, fork_booster, enter_normal_mode,
  enter_boot_mode,
}
use mapplauncherd.Daemon.Reap.{reap_zombies}
use mapplauncherd.Daemon.Saved.{Streams, Storage, re_exec}

-- A message from a booster: `sendDataToParent` of booster.cpp. `fd` is the descriptor in its control
-- message, if it has one: the sender's number where it is sent, and the daemon's where it was received.
pub record Message : Type 0 where
  pub invoker_pid : ℤ
  pub delay : ℤ
  pub fd : Option ℤ

-- What `recvmsg` makes of a message that was sent: the descriptor in it has a number of the daemon's own,
-- `newFd`, that stands for the same open file.
abbrev pub arrived : (ℤ → ℤ) → Message → Message
arrived new_fd m = record m { fd = elim m.fd [ none ↦ none | some fd ↦ some (new_fd fd) ] }

-- "Store booster - invoker pid pair. Store booster - invoker socket pair." Without a control message
-- the code copies from a null pointer.
unfoldable pub store_invoker : ℤ → Option ℤ → Daemon → Outcome
store_invoker invoker none d = faults d
store_invoker invoker (some fd) d = returns (record d {
  invoker_pids = insert d.booster_pid invoker d.invoker_pids;
  invoker_fds = insert d.booster_pid fd d.invoker_fds;
})

-- `readFromBoosterSocket`; none is a `recvmsg` that failed.
unfoldable pub read_from_booster_socket : Os → Option Message → Daemon → Outcome
read_from_booster_socket os none d = exits 1 d
read_from_booster_socket os (some m) d =
    (if int_eq m.invoker_pid (pos 0) || int_eq d.booster_pid (pos 0)
      then returns d
      else store_invoker m.invoker_pid m.fd d)
    >>= fork_booster os m.delay

-- The byte that was read from the signal pipe.
pub data Signal : Type 0 where
  sigchld sigterm sigusr1 sigusr2 sigpipe sighup unknown : Signal

-- The rest of the world, as one round of the main loop meets it.
pub record World : Type 0 where
  pub os : Os
  pub streams : Streams
  pub storage : Storage
  pub my_pid : ℤ

abbrev pub or_stuck : Option Outcome → Daemon → Outcome
or_stuck none d = faults d
or_stuck (some o) d = o

-- The switch on the signal.
unfoldable pub handle_signal : World → Signal → Daemon → Outcome
handle_signal w sigchld d = or_stuck (reap_zombies w.os d) d
handle_signal w sigterm d = exits 0 d
handle_signal w sigusr1 d = returns (enter_normal_mode d)
handle_signal w sigusr2 d = returns (enter_boot_mode d)
handle_signal w sigpipe d = returns d
handle_signal w sighup d = re_exec w.streams w.storage w.my_pid d
handle_signal w unknown d = returns d

-- What `select` found ready: a message of the booster, of which none is a failed read, and a signal.
pub record Ready : Type 0 where
  pub booster : Option (Option Message)
  pub signal : Option Signal

abbrev pub booster_part : World → Option (Option Message) → Daemon → Outcome
booster_part w none d = returns d
booster_part w (some m) d = read_from_booster_socket w.os m d

abbrev pub signal_part : World → Option Signal → Daemon → Outcome
signal_part w none d = returns d
signal_part w (some s) d = handle_signal w s d

-- One round of the main loop: the booster's socket first, then the signal pipe.
unfoldable pub iterate : World → Ready → Daemon → Outcome
iterate w r d = booster_part w r.booster d >>= signal_part w r.signal

-- The main loop over the rounds that a run of the daemon makes.
unfoldable pub run_loop : List (World × Ready) → Daemon → Outcome
run_loop [] d = returns d
run_loop ((w, r) ∷ rounds) d = iterate w r d >>= run_loop rounds

-- `run` before the main loop: a daemon that was re-executed reaps what died meanwhile, and any other
-- forks its first booster. The socket of a new daemon is made by `initSocket`, see SocketManager.
unfoldable pub start : Os → Daemon → Outcome
start os d = if d.re_exec then or_stuck (reap_zombies os d) d else fork_booster os (pos 0) d
