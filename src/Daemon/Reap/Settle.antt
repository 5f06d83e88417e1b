-- ===== src/Daemon/Reap/Settle.antt =====
-- What becomes of a dead child's mappings, and what its invoker is told.
use mapplauncherd.Base.{
  false, ◌≡◌, ◌≢◌, true, List, [], ◌∷◌, ◌++◌, none, some, if◌then◌else◌, arith, ℤ, pos, int_eq,
  int_eq_iff, int_lt, append_assoc, append-nil,
}
use mapplauncherd.Map.{find}
use mapplauncherd.Map.Order.{int_ord}
use mapplauncherd.Map.Laws.{find-erase}
use mapplauncherd.Protocol.{msg_exit}
use mapplauncherd.Daemon.State.{
  Effect, writes, closes, kills, Status, exited, signaled, stopped, Daemon,
}
use mapplauncherd.Daemon.Reap.{bury}

-- The dead child's mapping to its invoker goes, and every other one stays.
pub bury_pids :
    (pid p : ℤ) (s : Status) (d : Daemon)
    → find p (bury pid s (find pid d.invoker_pids) d).invoker_pids
      ≡ (if int_eq pid p then none else find p d.invoker_pids)
unfolding bury
bury_pids pid p s d = ground (arith, find-erase pid p d.invoker_pids, int_eq_iff pid p)

-- A dead child's descriptor to its invoker goes, and every other one stays, whether the child exited
-- or was killed, if a child without an invoker has no descriptor.
pub bury_fds :
    (pid p : ℤ) (s : Status) (d : Daemon)
    → s ≢ stopped
    → (find pid d.invoker_pids ≡ none → find pid d.invoker_fds ≡ none)
    → find p (bury pid s (find pid d.invoker_pids) d).invoker_fds
      ≡ (if int_eq pid p then none else find p d.invoker_fds)
unfolding bury
bury_fds pid p s d ne paired = ground (arith, find-erase pid p d.invoker_fds, int_eq_iff pid p)

-- No other process's descriptor is touched, paired or not.
pub bury_fds_ne :
    (pid p : ℤ) (s : Status) (d : Daemon)
    → int_eq pid p ≡ false
    → find p (bury pid s (find pid d.invoker_pids) d).invoker_fds ≡ find p d.invoker_fds
unfolding bury
bury_fds_ne pid p s d ne = ground (arith, find-erase pid p d.invoker_fds)

-- What is done for the invoker of a dead child, by the child's status.
abbrev pub told : ℤ → ℤ → Status → List Effect
told invoker fd (exited n) = writes fd (pos msg_exit) ∷ writes fd (pos n) ∷ closes fd ∷ []
told invoker fd (signaled n) = closes fd ∷ kills invoker n ∷ []
told invoker fd stopped = []

-- Where a dead child has an invoker with a positive pid and a descriptor: an exit is reported with
-- its status over the descriptor, which is then closed; a death by signal closes the descriptor
-- without a report, and the invoker is sent the same signal. Nothing else is done.
bury_log :
    (pid invoker fd : ℤ) (s : Status) (d : Daemon)
    → find pid d.invoker_pids ≡ some invoker
    → find pid d.invoker_fds ≡ some fd
    → int_lt (pos 0) invoker ≡ true
    → (bury pid s (find pid d.invoker_pids) d).log ≡ d.log ++ told invoker fd s
unfolding bury
bury_log pid invoker fd (exited n) d p f q = ground (
  arith,
  append_assoc d.log (writes fd (pos msg_exit) ∷ []) (writes fd (pos n) ∷ []),
  append_assoc d.log (writes fd (pos msg_exit) ∷ writes fd (pos n) ∷ []) (closes fd ∷ []),
)
bury_log pid invoker fd (signaled n) d p f q =
    ground (arith, append_assoc d.log (closes fd ∷ []) (kills invoker n ∷ []))
bury_log pid invoker fd stopped d p f q = ground (arith, append-nil d.log)
