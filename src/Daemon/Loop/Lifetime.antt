-- ===== src/Daemon/Loop/Lifetime.antt =====
-- The invariant over a daemon's life, and the handover of a launched application.
use mathlib.Core.Path.{subst}
use mapplauncherd.Base.{
  ◌≡◌, ◌≢◌, ◌⊎◌, refl, ◌∙◌, inl, inr, Bool, true, false, ◌||◌, List, [], ◌∷◌, ◌++◌, Option, none,
  some, if◌then◌else◌, arith, ℤ, pos, int_eq, int_eq_iff, Bool-cases, Option-cases, All,
}
use mapplauncherd.Map.{find, insert}
use mapplauncherd.Map.Order.{int_ord}
use mapplauncherd.Map.Laws.{find-insert}
use mapplauncherd.Daemon.State.{
  Os, Daemon, Outcome, returns, exits, throws, child, execs, faults, ◌>>=◌, fork_booster,
  kill_boosters, enter_normal_mode, enter_boot_mode,
}
use mapplauncherd.Daemon.Saved.{re_exec}
use mapplauncherd.Daemon.Invariant.{
  has, Inv, Inv-of_same, IsPosix, fork_booster-Inv, reap_zombies-Inv,
}
use mapplauncherd.Daemon.Loop.{
  Message, store_invoker, read_from_booster_socket, Signal, sigchld, sigterm, sigusr1, sigusr2,
  sigpipe, sighup, unknown, World, Ready, handle_signal, booster_part, signal_part, iterate,
  run_loop,
}

kill_boosters-Inv : (d : Daemon) → Inv d → Inv (kill_boosters d)
kill_boosters-Inv d v = Inv-of_same d (kill_boosters d) v (same.0) (same.1) (same.2) (same.3)
  where
    same :
        ((kill_boosters d).children ≡ d.children)
        × ((kill_boosters d).booster_pid ≡ d.booster_pid)
        × ((kill_boosters d).invoker_pids ≡ d.invoker_pids)
        × ((kill_boosters d).invoker_fds ≡ d.invoker_fds)
    same = unfold kill_boosters in ground arith

modes-Inv : (b : Bool) (d : Daemon) → Inv d → Inv (record d { boot_mode = b })
modes-Inv b d v = Inv-of_same d (record d { boot_mode = b }) v refl refl refl refl

enter_normal_mode-Inv : (d : Daemon) → Inv d → Inv (enter_normal_mode d)
unfolding enter_normal_mode
enter_normal_mode-Inv d v = elim (Bool-cases d.boot_mode) [
  | inl e ↦
      subst Inv (ground arith)
        (kill_boosters-Inv (record d { boot_mode = false }) (modes-Inv false d v))
  | inr e ↦ subst Inv (ground arith) v
]

enter_boot_mode-Inv : (d : Daemon) → Inv d → Inv (enter_boot_mode d)
unfolding enter_boot_mode
enter_boot_mode-Inv d v = elim (Bool-cases d.boot_mode) [
  | inl e ↦ subst Inv (ground arith) v
  | inr e ↦
      subst Inv (ground arith)
        (kill_boosters-Inv (record d { boot_mode = true }) (modes-Inv true d v))
]

-- The daemon with the booster's mapping to an invoker stored.
abbrev pub mapped : ℤ → ℤ → Daemon → Daemon
mapped invoker fd d = record d {
  invoker_pids = insert d.booster_pid invoker d.invoker_pids;
  invoker_fds = insert d.booster_pid fd d.invoker_fds;
}

mapped-tracked :
    (invoker fd : ℤ) (d : Daemon)
    → Inv d
    → d.booster_pid ≢ pos 0
    → (p : ℤ) → find p (mapped invoker fd d).invoker_pids ≢ none
    → has p d.children ≡ true
mapped-tracked invoker fd d v ne p m = elim (Bool-cases (int_eq d.booster_pid p)) [
  | inl hit ↦ ground (arith, v.booster, int_eq_iff d.booster_pid p)
  | inr miss ↦ v.tracked p λ n. m (find-insert d.booster_pid p invoker d.invoker_pids ∙ rw miss n)
]

mapped-paired :
    (invoker fd : ℤ) (d : Daemon)
    → Inv d
    → (p : ℤ) → find p (mapped invoker fd d).invoker_pids ≡ none
    → find p (mapped invoker fd d).invoker_fds ≡ none
mapped-paired invoker fd d v p m = ground (
  arith,
  find-insert d.booster_pid p invoker d.invoker_pids,
  find-insert d.booster_pid p fd d.invoker_fds,
  v.paired p,
)

-- A message that is handled forks the next booster, after storing the mapping where there is one.
pub read_cases :
    (os : Os) (m : Message) (d e : Daemon)
    → read_from_booster_socket os (some m) d ≡ returns e
    → (fork_booster os m.delay d ≡ returns e)
      ⊎ ((fd : ℤ) × (m.fd ≡ some fd)
          × (d.booster_pid ≢ pos 0)
          × (fork_booster os m.delay (mapped m.invoker_pid fd d) ≡ returns e)
          × (m.invoker_pid ≢ pos 0))
unfolding read_from_booster_socket store_invoker
read_cases os m d e h =
    elim (Bool-cases (int_eq m.invoker_pid (pos 0) || int_eq d.booster_pid (pos 0))) [
      | inl skip ↦ inl (ground arith)
      | inr keep ↦ elim (Option-cases m.fd) [
        | inl bad ↦ absurd (ground arith)
        | inr (fd, good) ↦ inr (
          fd,
          good,
          ground (arith, int_eq_iff d.booster_pid (pos 0)),
          ground arith,
          ground (arith, int_eq_iff m.invoker_pid (pos 0)),
        )
      ]
    ]

pub read_from_booster_socket-Inv :
    (os : Os) (m : Option Message) (d e : Daemon)
    → Inv d
    → read_from_booster_socket os m d ≡ returns e
    → Inv e
read_from_booster_socket-Inv os none d e v h =
    let ended : exits 1 d ≡ returns e = unfold read_from_booster_socket in h in absurd (cc)
read_from_booster_socket-Inv os (some m) d e v h = elim (read_cases os m d e h) [
  | inl forks ↦ fork_booster-Inv os m.delay d e v.tracked v.paired forks
  | inr (fd, _, ne, forks, _) ↦
      fork_booster-Inv os m.delay (mapped m.invoker_pid fd d) e
        (mapped-tracked m.invoker_pid fd d v ne) (mapped-paired m.invoker_pid fd d v) forks
]

handle_signal-Inv :
    (w : World) (s : Signal) (d e : Daemon)
    → IsPosix w.os
    → Inv d
    → handle_signal w s d ≡ returns e
    → Inv e
unfolding handle_signal
handle_signal-Inv w sigchld d e posix v h = reap_zombies-Inv w.os d e posix v (ground arith)
handle_signal-Inv w sigterm d e posix v h = absurd (cc)
handle_signal-Inv w sigusr1 d e posix v h = subst Inv (cc) (enter_normal_mode-Inv d v)
handle_signal-Inv w sigusr2 d e posix v h = subst Inv (cc) (enter_boot_mode-Inv d v)
handle_signal-Inv w sigpipe d e posix v h = subst Inv (cc) v
handle_signal-Inv w sighup d e posix v h = absurd (
    let no : re_exec w.streams w.storage w.my_pid d ≡ returns e = h in
    unfold re_exec in ground arith)
handle_signal-Inv w unknown d e posix v h = subst Inv (cc) v

pub bind-returns :
    (o : Outcome) (f : Daemon → Outcome) (e : Daemon)
    → (o >>= f) ≡ returns e
    → (d : Daemon) × (o ≡ returns d) × (f d ≡ returns e)
bind-returns (returns d) f e h = (d, refl, h)
bind-returns (exits n d) f e h = absurd (cc)
bind-returns (throws d) f e h = absurd (cc)
bind-returns (child d) f e h = absurd (cc)
bind-returns (execs ws d) f e h = absurd (cc)
bind-returns (faults d) f e h = absurd (cc)

pub booster_part-Inv :
    (w : World) (m : Option (Option Message)) (d e : Daemon)
    → Inv d
    → booster_part w m d ≡ returns e
    → Inv e
booster_part-Inv w none d e v h = subst Inv (cc) v
booster_part-Inv w (some m) d e v h = read_from_booster_socket-Inv w.os m d e v h

signal_part-Inv :
    (w : World) (s : Option Signal) (d e : Daemon)
    → IsPosix w.os
    → Inv d
    → signal_part w s d ≡ returns e
    → Inv e
signal_part-Inv w none d e posix v h = subst Inv (cc) v
signal_part-Inv w (some s) d e posix v h = handle_signal-Inv w s d e posix v h

iterate-Inv :
    (w : World) (r : Ready) (d e : Daemon)
    → IsPosix w.os
    → Inv d
    → iterate w r d ≡ returns e
    → Inv e
unfolding iterate
iterate-Inv w r d e posix v h =
    let (c, first, second) =
      bind-returns (booster_part w r.booster d) (signal_part w r.signal) e h in
    signal_part-Inv w r.signal c e posix (booster_part-Inv w r.booster d c v first) second

-- Every world that the loop meets answers `waitpid` as POSIX says.
abbrev pub ArePosix : List (World × Ready) → Type 0
ArePosix = All (λ (x : World × Ready). IsPosix x.0.os)

-- Through any number of rounds, whatever boosters and signals they bring, the invariant is kept, if
-- `waitpid` neither fails nor reports a stopped child: the booster stays one of the daemon's
-- children, every process with an invoker is one, and no descriptor is kept for a process without an
-- invoker.
pub run_loop-Inv :
    (rounds : List (World × Ready)) (d e : Daemon)
    → ArePosix rounds
    → Inv d
    → run_loop rounds d ≡ returns e
    → Inv e
unfolding run_loop
run_loop-Inv [] d e posix v h = subst Inv (cc) v
run_loop-Inv ((w, r) ∷ rounds) d e posix v h =
    let (c, first, later) = bind-returns (iterate w r d) (run_loop rounds) e h in
    run_loop-Inv rounds c e posix.1 (iterate-Inv w r d c posix.0 v first) later

-- A message with the pid and the descriptor of a waiting invoker, from a booster that the daemon
-- knows, if it is handled and the next booster forked: it ties that invoker and its descriptor to
-- the process that was the booster, leaves all other processes' invokers as they were, and makes a
-- new child the booster.
pub read_from_booster_socket_hands_over :
    (os : Os) (m : Message) (fd : ℤ) (d e : Daemon)
    → m.fd ≡ some fd
    → m.invoker_pid ≢ pos 0
    → d.booster_pid ≢ pos 0
    → read_from_booster_socket os (some m) d ≡ returns e
    → ((p : ℤ)
        → (find p e.invoker_pids
            ≡ (if int_eq d.booster_pid p then some m.invoker_pid else find p d.invoker_pids))
          × (find p e.invoker_fds
              ≡ (if int_eq d.booster_pid p then some fd else find p d.invoker_fds)))
      × (e.children ≡ d.children ++ e.booster_pid ∷ [])
      × (e.booster_pid ≢ pos 0)
unfolding read_from_booster_socket store_invoker fork_booster
read_from_booster_socket_hands_over os m fd d e f ne ne' h =
    let n = os.fork d.log in
    (
      λ p. ground (
        arith,
        int_eq_iff m.invoker_pid (pos 0),
        int_eq_iff d.booster_pid (pos 0),
        find-insert d.booster_pid p m.invoker_pid d.invoker_pids,
        find-insert d.booster_pid p fd d.invoker_fds,
      ),
      ground (arith, int_eq_iff m.invoker_pid (pos 0), int_eq_iff d.booster_pid (pos 0)),
      ground (
        arith,
        int_eq_iff m.invoker_pid (pos 0),
        int_eq_iff d.booster_pid (pos 0),
        int_eq_iff n (pos 0),
      ),
    )
