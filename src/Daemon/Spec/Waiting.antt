-- ===== src/Daemon/Spec/Waiting.antt =====
-- An invoker whose application ends in some round of the main loop.
use mapplauncherd.Base.{
  ◌≡◌, ◌≢◌, refl, ap, ◌∙◌, inl, inr, List, [], ◌∷◌, ◌++◌, Option, some, ℤ, arith, All,
}
use mapplauncherd.Daemon.State.{Status, died, Daemon, returns, ◌>>=◌}
use mapplauncherd.Daemon.Reap.{reap_zombies}
use mapplauncherd.Daemon.Reap.Alive.{IsSnapshot}
use mapplauncherd.Daemon.Invariant.{Inv, IsPosix}
use mapplauncherd.Daemon.Loop.{
  sigchld, World, Ready, handle_signal, booster_part, signal_part, iterate, run_loop,
}
use mapplauncherd.Daemon.Loop.Lifetime.{ArePosix, bind-returns, booster_part-Inv, run_loop-Inv}
use mapplauncherd.Daemon.Spec.{here, registry}
use mapplauncherd.Daemon.Spec.Runs.{run_loop-Reach, signal_part-Reach}
use mapplauncherd.Daemon.Spec.Notices.{Tracked, Notified, Notified-Reach, reap_zombies-Notified}
use mapplauncherd.Daemon.Spec.Lifelong.{
  Keeps, Served, unmoved-Served, booster_part-Served, signal_part-Served,
}

-- A run of more rounds is a run of the first and then of the others.
run_loop-append :
    (xs ys : List (World × Ready)) (d e : Daemon)
    → run_loop (xs ++ ys) d ≡ returns e
    → (c : Daemon) × (run_loop xs d ≡ returns c) × (run_loop ys c ≡ returns e)
unfolding run_loop
run_loop-append [] ys d e h = (d, refl, h)
run_loop-append ((w, x) ∷ xs) ys d e h =
    let (b, first, later) = bind-returns (iterate w x d) (run_loop (xs ++ ys)) e h in
    let (c, mid, last) = run_loop-append xs ys b e later in
    (c, ap (λ o. o >>= run_loop xs) first ∙ mid, last)

last_rounds :
    (w : World) (x : Ready) (rounds : List (World × Ready)) (d e : Daemon)
    → run_loop ((w, x) ∷ rounds) d ≡ returns e
    → (b : Daemon) × (iterate w x d ≡ returns b) × (run_loop rounds b ≡ returns e)
unfolding run_loop
last_rounds w x rounds d e h = bind-returns (iterate w x d) (run_loop rounds) e h

All-append :
    (P : World × Ready → Type 0) (xs ys : List (World × Ready))
    → All P (xs ++ ys)
    → All P xs × All P ys
All-append P [] ys h = (tt, h)
All-append P (x ∷ xs) ys (h, t) = let (a, b) = All-append P xs ys t in ((h, a), b)

abbrev pub AllKeep : ℤ → Status → List (World × Ready) → Type 0
AllKeep p st = All (λ (x : World × Ready). Keeps p st x.0.os)

AllKeep-posix : (p : ℤ) (st : Status) (xs : List (World × Ready)) → AllKeep p st xs → ArePosix xs
AllKeep-posix p st [] h = tt
AllKeep-posix p st (x ∷ xs) (h, t) = (h.posix, AllKeep-posix p st xs t)

module _ (p invoker : ℤ) (fd : Option ℤ) (st : Status) where
  run_loop-Notified :
      (rounds : List (World × Ready)) (d e : Daemon)
      → ArePosix rounds
      → run_loop rounds d ≡ returns e
      → Notified invoker fd st d
      → Notified invoker fd st e
  run_loop-Notified rounds d e posix h =
      Notified-Reach invoker fd st d e (run_loop-Reach rounds d e posix h)

  signal_part-Notified :
      (w : World) (x : Ready) (d e : Daemon)
      → IsPosix w.os
      → signal_part w x.signal d ≡ returns e
      → Notified invoker fd st d
      → Notified invoker fd st e
  signal_part-Notified w x d e posix h = Notified-Reach invoker fd st d e (
      signal_part-Reach (λ z s. Unit {0}) (λ z f. Unit {0}) w x.signal d e (registry d)
        (λ l z s q. tt) posix h here)

  iterate-Served :
      (w : World) (x : Ready) (d e : Daemon)
      → Keeps p st w.os
      → Tracked p invoker fd d × (d.booster_pid ≢ p)
      → iterate w x d ≡ returns e
      → Served p invoker fd st e
  unfolding iterate
  iterate-Served w x d e k t h =
      let (b, message, signal) =
        bind-returns (booster_part w x.booster d) (signal_part w x.signal) e h in
      elim (booster_part-Served p invoker fd st w x.booster d b k t message) [
        | inl still ↦ signal_part-Served p invoker fd st w x.signal b e k still signal
        | inr told ↦ inr (signal_part-Notified w x b e k.posix signal told)
      ]

  -- Through any number of rounds, the invoker of a process is served.
  run_loop-Served :
      (rounds : List (World × Ready)) (d e : Daemon)
      → AllKeep p st rounds
      → Tracked p invoker fd d × (d.booster_pid ≢ p)
      → run_loop rounds d ≡ returns e
      → Served p invoker fd st e
  unfolding run_loop
  run_loop-Served [] d e k t h = unmoved-Served p invoker fd st d e t (cc)
  run_loop-Served ((w, x) ∷ rounds) d e (k, ks) t h =
      let (c, first, later) = bind-returns (iterate w x d) (run_loop rounds) e h in
      elim (iterate-Served w x d c k t first) [
        | inl still ↦ run_loop-Served rounds c e ks still later
        | inr told ↦ inr (run_loop-Notified rounds c e (AllKeep-posix p st rounds ks) later told)
      ]

  -- The round in which the daemon hears that the process is dead.
  last_round-Notified :
      (w : World) (x : Ready) (d e : Daemon)
      → Keeps p st w.os
      → Inv d
      → Tracked p invoker fd d × (d.booster_pid ≢ p)
      → x.signal ≡ some sigchld
      → IsSnapshot w.os
      → w.os.waitpid [] p ≡ died st
      → iterate w x d ≡ returns e
      → Notified invoker fd st e
  unfolding iterate
  last_round-Notified w x d e k v t chld snap dead h =
      let (b, message, signal) =
        bind-returns (booster_part w x.booster d) (signal_part w x.signal) e h in
      let reaped : reap_zombies w.os b ≡ some (returns e) =
        unfold handle_signal in ground (arith, chld) in
      elim (booster_part-Served p invoker fd st w x.booster d b k t message) [
        | inl still ↦
            reap_zombies-Notified w.os p invoker fd st b e snap k.posix
              (booster_part-Inv w x.booster d b v message) still.0.0 still.0.1 dead reaped
        | inr told ↦ signal_part-Notified w x b e k.posix signal told
      ]

  Tracked-Notified :
      (before after : List (World × Ready)) (w : World) (x : Ready) (d e : Daemon)
      → AllKeep p st (before ++ (w, x) ∷ after)
      → Inv d
      → Tracked p invoker fd d
      → d.booster_pid ≢ p
      → x.signal ≡ some sigchld
      → IsSnapshot w.os
      → w.os.waitpid [] p ≡ died st
      → run_loop (before ++ (w, x) ∷ after) d ≡ returns e
      → Notified invoker fd st e
  Tracked-Notified before after w x d e keeps v t ne chld snap dead h =
      let (first, (k, last)) =
        All-append (λ (z : World × Ready). Keeps p st z.0.os) before ((w, x) ∷ after) keeps in
      let (c, ran, rest) = run_loop-append before ((w, x) ∷ after) d e h in
      let (b, round, later) = last_rounds w x after c e rest in
      let posix = AllKeep-posix p st after last in
      elim (run_loop-Served before d c first (t, ne) ran) [
        | inl still ↦ run_loop-Notified after b e posix later (
            last_round-Notified w x c b k
              (run_loop-Inv before d c (AllKeep-posix p st before first) v ran) still chld snap dead
              round)
        | inr told ↦ run_loop-Notified ((w, x) ∷ after) c e (k.posix, posix) rest told
      ]

-- The daemon hands an invoker's process over to its main loop, with the descriptor to the invoker, and in
-- some round a child's signal comes when the process is dead: when the loop comes back from whatever
-- rounds follow, the invoker has been sent its notice, with the process's own status: the exit message and
-- the exit status through its descriptor, or where the process was killed by a signal, that signal, if the
-- invoker's pid is above 0. The invariant must hold at the start, and the process must not be the booster;
-- in the rounds `waitpid` neither fails nor reports a stopped child, says of the process only that it runs
-- or that it died with this status, and no child is forked under its pid; and no process dies while the
-- daemon goes over its children in the round of the signal.
pub run_loop-Notifies :
    (p invoker fd : ℤ) (st : Status) (before after : List (World × Ready)) (w : World) (x : Ready)
    (d e : Daemon)
    → AllKeep p st (before ++ (w, x) ∷ after)
    → Inv d
    → Tracked p invoker (some fd) d
    → d.booster_pid ≢ p
    → x.signal ≡ some sigchld
    → IsSnapshot w.os
    → w.os.waitpid [] p ≡ died st
    → run_loop (before ++ (w, x) ∷ after) d ≡ returns e
    → Notified invoker (some fd) st e
run_loop-Notifies p invoker fd st = Tracked-Notified p invoker (some fd) st
