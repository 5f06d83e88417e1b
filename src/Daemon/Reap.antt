-- ===== src/Daemon/Reap.antt =====
-- `Daemon::reapZombies`: dead children are forgotten, their invokers are told, and a dead booster is
-- replaced.
pub mod Total
pub mod Alive
pub mod Settle
use mapplauncherd.Base.{
  ℕ, zero, suc, ◌+◌, Bool, true, false, List, [], ◌∷◌, ◌++◌, Option, none, some, if◌then◌else◌, ℤ,
  pos, negsuc, int_eq, get_elem?, erase_at, length,
}
use mapplauncherd.Map.{Map, find, erase}
use mapplauncherd.Map.Order.{int_ord}
use mapplauncherd.Protocol.{msg_exit}
use mapplauncherd.Daemon.State.{
  Effect, waits, writes, closes, Status, exited, signaled, stopped, Wait, running, failed, died, Os,
  Daemon, Outcome, returns, ◌>>=◌, logged, kill_process, fork_booster,
}

-- `m_boosterSleepTime`
abbrev pub booster_sleep_time : ℤ
booster_sleep_time = pos 2

-- The invoker is told the exit status through the descriptor that is kept for it.
unfoldable pub report_exit : ℤ → ℕ → Option ℤ → Daemon → Daemon
report_exit pid status none d = d
report_exit pid status (some fd) d =
    let e = logged (writes fd (pos status)) (logged (writes fd (pos msg_exit)) d) in
    record (logged (closes fd) e) { invoker_fds = erase pid d.invoker_fds }

-- The descriptor is closed without a message.
unfoldable pub drop_fd : ℤ → Option ℤ → Daemon → Daemon
drop_fd pid none d = d
drop_fd pid (some fd) d = record (logged (closes fd) d) { invoker_fds = erase pid d.invoker_fds }

unfoldable pub settle : ℤ → ℤ → Status → Daemon → Daemon
unfolding report_exit drop_fd kill_process
settle pid invoker (exited status) d = report_exit pid status (find pid d.invoker_fds) d
settle pid invoker (signaled signal) d =
    kill_process invoker signal (drop_fd pid (find pid d.invoker_fds) d)
settle pid invoker stopped d = d

-- What is done for a dead process that had a mapping to an invoker.
unfoldable pub bury : ℤ → Status → Option ℤ → Daemon → Daemon
unfolding settle
bury pid status none d = d
bury pid status (some invoker) d =
    let e = settle pid invoker status d in record e { invoker_pids = erase pid e.invoker_pids }

-- "Check if pid belongs to a booster and restart the dead booster if needed."
unfoldable pub restart : Os → ℤ → Daemon → Outcome
restart os pid d =
    if int_eq pid d.booster_pid then fork_booster os booster_sleep_time d else returns d

-- The body of the loop where `waitpid` did not return 0, with the child at `i` erased. Where it
-- failed, its result -1 serves as the pid, and nothing was stored in `status`.
unfoldable pub reap_child : Os → ℕ → ℤ → Wait → Daemon → Outcome
reap_child os i pid running d = returns d
reap_child os i pid failed d =
    let e = record d { children = erase_at i d.children } in
    restart os (negsuc 0) (bury (negsuc 0) stopped (find (negsuc 0) e.invoker_pids) e)
reap_child os i pid (died status) d =
    let e = record d { children = erase_at i d.children } in
    restart os pid (bury pid status (find pid e.invoker_pids) e)

-- `i++` is made only where the child still runs.
unfoldable pub next_index : ℕ → Wait → ℕ
next_index i running = suc i
next_index i _ = i

pub data Round : Type 0 where
  finished : Round
  next : ℕ → Daemon → Round
  stop : Outcome → Round

unfoldable pub next_round : ℕ → Outcome → Round
next_round j (returns d) = next j d
next_round j o = stop o

-- One round of the loop, for the child at index `i`.
unfoldable pub reap_round : Os → ℕ → Daemon → Round
reap_round os i d = elim (get_elem? d.children i) [
  | none ↦ finished
  | some pid ↦
      let w = os.waitpid d.log pid in
      next_round (next_index i w) (reap_child os i pid w (logged (waits pid) d))
]

-- The loop from index `i` on, on fuel: `none` means that the fuel ran out. The vector grows at its
-- end where a booster is replaced, and the loop then reaches the new child too.
unfoldable pub reap_from : Os → ℕ → ℕ → Daemon → Option Outcome
reap_from os zero i d = none
reap_from os (suc fuel) i d = elim (reap_round os i d) [
  | finished ↦ some (returns d)
  | next j e ↦ reap_from os fuel j e
  | stop o ↦ some o
]

-- Two rounds more than there are children, one for a booster forked on the way and one for the end; and
-- `spare` rounds for boosters that are forked and found dead in the same pass.
unfoldable pub reap_zombies : Os → Daemon → Option Outcome
reap_zombies os d = reap_from os (length d.children + 2 + os.spare) 0 d
