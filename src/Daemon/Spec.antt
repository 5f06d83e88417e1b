-- ===== src/Daemon/Spec.antt =====
-- What the daemon promises about launched applications, apart from lists, maps and loops: a registry
-- of the invokers that wait, and the steps by which it may change.
pub mod Refinement
pub mod Runs
pub mod Notices
pub mod Lifelong
pub mod Waiting
use mapplauncherd.Base.{
  ℕ, ◌≡◌, ◌≢◌, Bool, true, false, List, [], ◌∷◌, ◌++◌, Option, none, some, if◌then◌else◌, ℤ, pos,
  int_eq, int_lt,
}
use mapplauncherd.Map.{find}
use mapplauncherd.Map.Order.{int_ord}
use mapplauncherd.Protocol.{msg_exit}
use mapplauncherd.Daemon.State.{
  Effect, forks, waits, kills, writes, closes, dies_with_parent, new_session, sleeps, restores,
  masks_files, removes_state, notifies_ready, Status, exited, signaled, stopped, Daemon, sigterm,
}

-- `sent` is all that was written to invokers, and all signals that were sent.
pub record Registry : Type 0 where
  pub invoker_of : ℤ → Option ℤ
  pub fd_of : ℤ → Option ℤ
  pub booster : ℤ
  pub sent : List Effect

-- What the invoker of a dead process gets: the exit message with the status, or the signal.
abbrev pub notice : ℤ → Option ℤ → Status → List Effect
notice invoker none (exited n) = []
notice invoker (some fd) (exited n) = writes fd (pos msg_exit) ∷ writes fd (pos n) ∷ []
notice invoker fd (signaled n) = if int_lt (pos 0) invoker then kills invoker n ∷ [] else []
notice invoker fd stopped = []

-- `t` has what `s` has, but `v` at `p`.
abbrev pub SetAt : ℤ → Option ℤ → (ℤ → Option ℤ) → (ℤ → Option ℤ) → Type 0
SetAt p v s t = (q : ℤ) → t q ≡ (if int_eq p q then v else s q)

-- The steps: a booster of which the daemon hears that it becomes an invoker's application is replaced; a
-- process that is dead with a status is forgotten, and its invoker gets its notice; a booster is replaced;
-- and the booster is told to end. `Dead` is what is known of the processes that have died, and `Heard` of
-- the invokers and descriptors in the messages of boosters.
module _ (Dead : ℤ → Status → Type 0) (Heard : ℤ → ℤ → Type 0) where
  pub data Step (s t : Registry) : Type 0 where
    launch :
        (invoker fd : ℤ)
        → Heard invoker fd
        → invoker ≢ pos 0
        → s.booster ≢ pos 0
        → SetAt s.booster (some invoker) s.invoker_of t.invoker_of
        → SetAt s.booster (some fd) s.fd_of t.fd_of
        → t.booster ≢ pos 0
        → t.sent ≡ s.sent
        → Step s t
    bury :
        (p invoker : ℤ) (status : Status)
        → s.invoker_of p ≡ some invoker
        → Dead p status
        → status ≢ stopped
        → SetAt p none s.invoker_of t.invoker_of
        → SetAt p none s.fd_of t.fd_of
        → t.booster ≡ s.booster
        → t.sent ≡ s.sent ++ notice invoker (s.fd_of p) status
        → Step s t
    replace :
        t.invoker_of ≡ s.invoker_of
        → t.fd_of ≡ s.fd_of
        → t.booster ≢ pos 0
        → t.sent ≡ s.sent
        → Step s t
    refresh :
        t.invoker_of ≡ s.invoker_of
        → t.fd_of ≡ s.fd_of
        → t.booster ≡ s.booster
        → t.sent ≡ s.sent ++ kills s.booster sigterm ∷ []
        → Step s t

  -- `t` is reached from `s`.
  pub data Reach (s : Registry) : Registry → Type 0 where
    here : Reach s s
    next : {t u : Registry} → Reach s t → Step t u → Reach s u

-- The effects that invokers and boosters see.
unfoldable pub visible : List Effect → List Effect
visible [] = []
visible (writes fd w ∷ es) = writes fd w ∷ visible es
visible (kills p n ∷ es) = kills p n ∷ visible es
visible (forks n ∷ es) = visible es
visible (waits p ∷ es) = visible es
visible (closes fd ∷ es) = visible es
visible (dies_with_parent ∷ es) = visible es
visible (new_session ∷ es) = visible es
visible (masks_files m ∷ es) = visible es
visible (removes_state ∷ es) = visible es
visible (notifies_ready ∷ es) = visible es
visible (sleeps n ∷ es) = visible es
visible (restores n h ∷ es) = visible es

-- The registry that the daemon's maps and log stand for.
abbrev pub registry : Daemon → Registry
registry d = record {
  invoker_of = λ p. find p d.invoker_pids;
  fd_of = λ p. find p d.invoker_fds;
  booster = d.booster_pid;
  sent = visible d.log;
}
