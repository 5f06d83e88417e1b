-- ===== src/Daemon/Spec/Runs.antt =====
-- Every run of the main loop is a run of the registry.
use mapplauncherd.Base.{
  ◌≡◌, ◌≢◌, ◌⊎◌, refl, sym, ap, ◌∙◌, inl, inr, true, false, List, [], ◌∷◌, ◌++◌, Option, none, some,
  ℤ, pos, int_eq, int_eq_iff, int_lt, arith, Bool-cases,
}
use mapplauncherd.Map.{find}
use mapplauncherd.Map.Order.{int_ord}
use mapplauncherd.Map.Laws.{find-insert}
use mapplauncherd.Daemon.State.{
  Effect, forks, kills, Status, died, Os, Daemon, returns, exits, fork_booster, kill_boosters,
  enter_normal_mode, enter_boot_mode, sigterm,
}
use mapplauncherd.Daemon.Saved.{re_exec}
use mapplauncherd.Daemon.Invariant.{IsPosix}
use mapplauncherd.Daemon.Loop.{
  Message, read_from_booster_socket, Signal, sigchld, sigterm as on_sigterm, sigusr1, sigusr2,
  sigpipe, sighup, unknown, World, Ready, handle_signal, booster_part, signal_part, iterate,
  run_loop,
}
use mapplauncherd.Daemon.Loop.Lifetime.{ArePosix, bind-returns, read_cases, mapped}
use mapplauncherd.Daemon.Spec.{Registry, Step, launch, refresh, Reach, here, visible, registry}
use mapplauncherd.Daemon.Spec as Spec
use mapplauncherd.Daemon.Spec.Refinement.{
  visible-append, hidden, fork_booster-Step, Reach-same, reap_zombies-Reach,
}

-- In some round `waitpid` says of the process that it has died with the status.
abbrev pub Reported : List (World × Ready) → ℤ → Status → Type 0
Reported [] p s = ⊥
Reported ((w, x) ∷ rounds) p s =
    ((l : List Effect) × (w.os.waitpid l p ≡ died s)) ⊎ Reported rounds p s

-- In some round the message of a booster names the invoker and has the descriptor.
abbrev pub Announced : List (World × Ready) → ℤ → ℤ → Type 0
Announced [] invoker fd = ⊥
Announced ((w, x) ∷ rounds) invoker fd =
    ((m : Message) × (x.booster ≡ some (some m)) × (m.invoker_pid ≡ invoker) × (m.fd ≡ some fd))
    ⊎ Announced rounds invoker fd

module _ (Dead : ℤ → Status → Type 0) (Heard : ℤ → ℤ → Type 0) where
  launch-Step :
      (os : Os) (t invoker fd : ℤ) (d e : Daemon)
      → Heard invoker fd
      → invoker ≢ pos 0
      → d.booster_pid ≢ pos 0
      → fork_booster os t (mapped invoker fd d) ≡ returns e
      → Step Dead Heard (registry d) (registry e)
  unfolding fork_booster visible
  launch-Step os t invoker fd d e said ni nb h =
      let pids : (mapped invoker fd d).invoker_pids ≡ e.invoker_pids = ground arith in
      let fds : (mapped invoker fd d).invoker_fds ≡ e.invoker_fds = ground arith in
      let grown : e.log ≡ d.log ++ forks t ∷ [] = ground arith in
      launch invoker fd said ni nb
        (λ q. sym (ap (find q) pids) ∙ find-insert d.booster_pid q invoker d.invoker_pids)
        (λ q. sym (ap (find q) fds) ∙ find-insert d.booster_pid q fd d.invoker_fds)
        (ground (arith, int_eq_iff (os.fork d.log) (pos 0)))
        (ap visible grown ∙ hidden d.log (forks t) refl)

  read_from_booster_socket-Reach :
      (os : Os) (m : Option Message) (d e : Daemon) (r : Registry)
      → ((fd : ℤ) (x : Message) → m ≡ some x → x.fd ≡ some fd → Heard x.invoker_pid fd)
      → read_from_booster_socket os m d ≡ returns e
      → Reach Dead Heard r (registry d)
      → Reach Dead Heard r (registry e)
  read_from_booster_socket-Reach os none d e r said h reached =
      let ended : exits 1 d ≡ returns e = unfold read_from_booster_socket in h in absurd (cc)
  read_from_booster_socket-Reach os (some m) d e r said h reached = elim (read_cases os m d e h) [
    | inl forked ↦ Spec.next reached (fork_booster-Step Dead Heard os m.delay d e forked)
    | inr (fd, at_fd, nb, forked, ni) ↦
        Spec.next reached
          (launch-Step os m.delay m.invoker_pid fd d e (said fd m refl at_fd) ni nb forked)
  ]

  kill_boosters-Reach :
      (d : Daemon) (r : Registry)
      → Reach Dead Heard r (registry d)
      → Reach Dead Heard r (registry (kill_boosters d))
  unfolding kill_boosters visible
  kill_boosters-Reach d r reached = elim (Bool-cases (int_eq d.booster_pid (pos 0))) [
    | inl nobody ↦ Reach-same Dead Heard d (kill_boosters d) r (ground arith) reached
    | inr somebody ↦ elim (Bool-cases (int_lt (pos 0) d.booster_pid)) [
      | inr wild ↦ Reach-same Dead Heard d (kill_boosters d) r (ground arith) reached
      | inl live ↦
          let grown : (kill_boosters d).log ≡ d.log ++ kills d.booster_pid sigterm ∷ [] =
            ground arith in
          Spec.next reached (
            refresh (ground arith) (ground arith) (ground arith)
              (ap visible grown ∙ visible-append d.log (kills d.booster_pid sigterm ∷ [])))
    ]
  ]

  enter_normal_mode-Reach :
      (d : Daemon) (r : Registry)
      → Reach Dead Heard r (registry d)
      → Reach Dead Heard r (registry (enter_normal_mode d))
  unfolding enter_normal_mode
  enter_normal_mode-Reach d r reached = elim (Bool-cases d.boot_mode) [
    | inl e ↦
        let f = record d { boot_mode = false } in
        Reach-same Dead Heard (kill_boosters f) (enter_normal_mode d) r (ground arith)
          (kill_boosters-Reach f r reached)
    | inr e ↦ Reach-same Dead Heard d (enter_normal_mode d) r (ground arith) reached
  ]

  enter_boot_mode-Reach :
      (d : Daemon) (r : Registry)
      → Reach Dead Heard r (registry d)
      → Reach Dead Heard r (registry (enter_boot_mode d))
  unfolding enter_boot_mode
  enter_boot_mode-Reach d r reached = elim (Bool-cases d.boot_mode) [
    | inl e ↦ Reach-same Dead Heard d (enter_boot_mode d) r (ground arith) reached
    | inr e ↦
        let f = record d { boot_mode = true } in
        Reach-same Dead Heard (kill_boosters f) (enter_boot_mode d) r (ground arith)
          (kill_boosters-Reach f r reached)
  ]

  handle_signal-Reach :
      (w : World) (s : Signal) (d e : Daemon) (r : Registry)
      → ((l : List Effect) (p : ℤ) (t : Status) → w.os.waitpid l p ≡ died t → Dead p t)
      → IsPosix w.os
      → handle_signal w s d ≡ returns e
      → Reach Dead Heard r (registry d)
      → Reach Dead Heard r (registry e)
  unfolding handle_signal
  handle_signal-Reach w sigchld d e r gone posix h reached =
      reap_zombies-Reach Dead Heard w.os d e r gone posix (ground arith) reached
  handle_signal-Reach w on_sigterm d e r gone posix h reached = absurd (cc)
  handle_signal-Reach w sigusr1 d e r gone posix h reached =
      Reach-same Dead Heard (enter_normal_mode d) e r (cc) (enter_normal_mode-Reach d r reached)
  handle_signal-Reach w sigusr2 d e r gone posix h reached =
      Reach-same Dead Heard (enter_boot_mode d) e r (cc) (enter_boot_mode-Reach d r reached)
  handle_signal-Reach w sigpipe d e r gone posix h reached =
      Reach-same Dead Heard d e r (cc) reached
  handle_signal-Reach w sighup d e r gone posix h reached = absurd (
      let ended : re_exec w.streams w.storage w.my_pid d ≡ returns e = h in
      unfold re_exec in ground arith)
  handle_signal-Reach w unknown d e r gone posix h reached =
      Reach-same Dead Heard d e r (cc) reached

  booster_part-Reach :
      (w : World) (m : Option (Option Message)) (d e : Daemon) (r : Registry)
      → ((fd : ℤ) (x : Message) → m ≡ some (some x) → x.fd ≡ some fd → Heard x.invoker_pid fd)
      → booster_part w m d ≡ returns e
      → Reach Dead Heard r (registry d)
      → Reach Dead Heard r (registry e)
  booster_part-Reach w none d e r said h reached = Reach-same Dead Heard d e r (cc) reached
  booster_part-Reach w (some m) d e r said h reached =
      read_from_booster_socket-Reach w.os m d e r (λ fd x z. said fd x (ap some z)) h reached

  pub signal_part-Reach :
      (w : World) (s : Option Signal) (d e : Daemon) (r : Registry)
      → ((l : List Effect) (p : ℤ) (t : Status) → w.os.waitpid l p ≡ died t → Dead p t)
      → IsPosix w.os
      → signal_part w s d ≡ returns e
      → Reach Dead Heard r (registry d)
      → Reach Dead Heard r (registry e)
  signal_part-Reach w none d e r gone posix h reached = Reach-same Dead Heard d e r (cc) reached
  signal_part-Reach w (some s) d e r gone posix h reached =
      handle_signal-Reach w s d e r gone posix h reached

  rounds_from :
      (rounds : List (World × Ready)) (d e : Daemon) (r : Registry)
      → ((p : ℤ) (s : Status) → Reported rounds p s → Dead p s)
      → ((invoker fd : ℤ) → Announced rounds invoker fd → Heard invoker fd)
      → ArePosix rounds
      → run_loop rounds d ≡ returns e
      → Reach Dead Heard r (registry d)
      → Reach Dead Heard r (registry e)
  unfolding run_loop iterate
  rounds_from [] d e r gone said posix h reached = Reach-same Dead Heard d e r (cc) reached
  rounds_from ((w, x) ∷ rounds) d e r gone said posix h reached =
      let (c, first, later) = bind-returns (iterate w x d) (run_loop rounds) e h in
      let (b, message, signal) =
        bind-returns (booster_part w x.booster d) (signal_part w x.signal) c first in
      rounds_from rounds c e r (λ p s z. gone p s (inr z)) (λ i fd z. said i fd (inr z)) posix.1
        later
        (signal_part-Reach w x.signal b c r (λ l p t z. gone p t (inl (l, z))) posix.0 signal
          (booster_part-Reach w x.booster d b r
            (λ fd y z f. said y.invoker_pid fd (inl (y, z, refl, f))) message reached))

-- Whatever boosters and signals a run of the main loop meets, if it returns and `waitpid` neither fails
-- nor reports a stopped child, the registry only makes these steps: a booster whose message names a
-- waiting invoker and has a descriptor is entered with just these, and replaced; a process of which
-- `waitpid` reports that it has died is forgotten, with its descriptor, and its invoker is sent the notice
-- of just the status that was reported; a booster is replaced, or told to end, and all entries stay. So an
-- entry goes only with a death that was reported, there is one notice for each entry that goes, and apart
-- from the notices only boosters are sent a signal.
pub run_loop-Reach :
    (rounds : List (World × Ready)) (d e : Daemon)
    → ArePosix rounds
    → run_loop rounds d ≡ returns e
    → Reach (Reported rounds) (Announced rounds) (registry d) (registry e)
run_loop-Reach rounds d e posix h =
    rounds_from (Reported rounds) (Announced rounds) rounds d e (registry d) (λ p s z. z)
      (λ i fd z. z) posix h here
