-- ===== src/Daemon/Spec/Lifelong.antt =====
-- An invoker waits through any number of rounds.
use mathlib.Core.Path.{subst}
use mapplauncherd.Base.{
  ℕ, zero, suc, ◌+◌, ◌≡◌, ◌≢◌, ◌⊎◌, refl, sym, ap, ◌∙◌, inl, inr, false, List, Option, none, some,
  ℤ, int_eq, int_eq_iff, arith, Bool-cases, Option-cases, get_elem?, erase_at, length,
}
use mapplauncherd.Map.{find}
use mapplauncherd.Map.Order.{int_ord}
use mapplauncherd.Map.Laws.{find-insert}
use mapplauncherd.Daemon.State.{
  Effect, waits, Status, Wait, running, failed, died, Os, Daemon, returns, logged, fork_booster,
  kill_boosters, enter_normal_mode, enter_boot_mode, exits,
}
use mapplauncherd.Daemon.Saved.{re_exec}
use mapplauncherd.Daemon.Reap.{
  bury, restart, reap_child, next_index, next, next_round, reap_round, reap_from, reap_zombies,
}
use mapplauncherd.Daemon.Reap.Total.{next_round-next, bury_keeps}
use mapplauncherd.Daemon.Reap.Alive.{reap_from-returns}
use mapplauncherd.Daemon.Invariant.{IsPosix}
use mapplauncherd.Daemon.Loop.{
  Message, read_from_booster_socket, Signal, sigchld, sigterm, sigusr1, sigusr2, sigpipe, sighup,
  unknown, World, handle_signal, booster_part, signal_part,
}
use mapplauncherd.Daemon.Loop.Lifetime.{read_cases, mapped}
use mapplauncherd.Daemon.Spec.Notices.{Tracked, Notified, reap_from-Tracked}

-- A process `p` that was handed over: its pid is not given to another child, and where `waitpid` finds
-- it dead, it is with the status `st`.
pub record Keeps (p : ℤ) (st : Status) (os : Os) : Type 0 where
  pub posix : IsPosix os
  pub no_reuse : (l : List Effect) → os.fork l ≢ p
  pub fate : (l : List Effect) → (os.waitpid l p ≡ running) ⊎ (os.waitpid l p ≡ died st)

abbrev IsOther : ℤ → Daemon → Type 0
IsOther p d = d.booster_pid ≢ p

-- The booster after a fork is the forked child.
pub fork_booster-pid :
    (os : Os) (t : ℤ) (d e : Daemon)
    → fork_booster os t d ≡ returns e
    → (e.booster_pid ≡ os.fork d.log)
      × (e.invoker_pids ≡ d.invoker_pids)
      × (e.invoker_fds ≡ d.invoker_fds)
unfolding fork_booster
fork_booster-pid os t d e h = ground arith

module _ (p : ℤ) (st : Status) (os : Os) (k : Keeps p st os) where
  restart-ne :
      (q : ℤ) (d e : Daemon) → d.booster_pid ≢ p → restart os q d ≡ returns e → e.booster_pid ≢ p
  unfolding restart
  restart-ne q d e ne h = elim (Bool-cases (int_eq q d.booster_pid)) [
    | inl hit ↦
        λ z. k.no_reuse d.log (sym (fork_booster-pid os _ d e (rw (hit, restart) at h)).0 ∙ z)
    | inr miss ↦
        let same : returns d ≡ returns e = rw (miss, restart) at h in
        let same' : d ≡ e = cc in subst (IsOther p) same' ne
  ]

  child-ne :
      (i j : ℕ) (q : ℤ) (w : Wait) (d e : Daemon)
      → w ≢ failed
      → d.booster_pid ≢ p
      → next_round (next_index i w) (reap_child os i q w (logged (waits q) d)) ≡ next j e
      → e.booster_pid ≢ p
  unfolding reap_child
  child-ne i j q running d e nf ne h =
      let (eq, _) = next_round-next _ j (returns (logged (waits q) d)) e h in
      let same : logged (waits q) d ≡ e = cc in subst (IsOther p) same ne
  child-ne i j q failed d e nf ne h = absurd (nf refl)
  child-ne i j q (died s) d e nf ne h =
      let (eq, _) = next_round-next _ j _ e h in
      let c = record (logged (waits q) d) { children = erase_at i d.children } in
      let (_, same, _) = bury_keeps q s (find q c.invoker_pids) c in
      restart-ne q (bury q s (find q c.invoker_pids) c) e (λ z. ne (sym same ∙ z)) eq

  round-ne :
      (i j : ℕ) (d e : Daemon)
      → d.booster_pid ≢ p
      → reap_round os i d ≡ next j e
      → e.booster_pid ≢ p
  unfolding reap_round
  round-ne i j d e ne h = elim (Option-cases (get_elem? d.children i)) [
    | inl none_left ↦ absurd (cc (rw (none_left, reap_round) at h))
    | inr (q, at_i) ↦
        child-ne i j q (os.waitpid d.log q) d e (k.posix d.log q).0 ne (rw (at_i, reap_round) at h)
  ]

  reap_from-ne :
      (n i : ℕ) (d e : Daemon)
      → d.booster_pid ≢ p
      → reap_from os n i d ≡ some (returns e)
      → e.booster_pid ≢ p
  reap_from-ne zero i d e ne h =
      let spent : none ≡ some (returns e) = unfold reap_from in h in absurd (cc)
  reap_from-ne (suc n) i d e ne h = elim (reap_from-returns os n i d e h) [
    | inl (at_end, same) ↦ subst (IsOther p) same ne
    | inr (j, d', q, later) ↦ reap_from-ne n j d' e (round-ne i j d d' ne q) later
  ]

-- The invoker is still the process's, which is not the booster; or it has got its notice.
abbrev pub Served : ℤ → ℤ → Option ℤ → Status → Daemon → Type 0
Served p invoker fd st d = (Tracked p invoker fd d × (d.booster_pid ≢ p)) ⊎ Notified invoker fd st d

module _ (p invoker : ℤ) (fd : Option ℤ) (st : Status) where
  pub unmoved-Served :
      (d e : Daemon)
      → Tracked p invoker fd d × (d.booster_pid ≢ p)
      → d ≡ e
      → Served p invoker fd st e
  unmoved-Served d e t same = subst (Served p invoker fd st) same (inl t)

  pub reap_zombies-Served :
      (os : Os) (d e : Daemon)
      → Keeps p st os
      → Tracked p invoker fd d × (d.booster_pid ≢ p)
      → reap_zombies os d ≡ some (returns e)
      → Served p invoker fd st e
  unfolding reap_zombies
  reap_zombies-Served os d e k (t, ne) h =
      elim (reap_from-Tracked os p invoker fd st (length d.children + 2 + os.spare) 0 d e k.posix
        k.fate h (inl t)) [
          | inl still ↦
              inl (still, reap_from-ne p st os k (length d.children + 2 + os.spare) 0 d e ne h)
          | inr told ↦ inr told
        ]

  forked-Served :
      (os : Os) (t : ℤ) (d e : Daemon)
      → Keeps p st os
      → Tracked p invoker fd d
      → fork_booster os t d ≡ returns e
      → Served p invoker fd st e
  forked-Served os t d e k (i, f) h =
      let (booster, pids, fds) = fork_booster-pid os t d e h in
      inl ((ap (find p) pids ∙ i, ap (find p) fds ∙ f), λ z. k.no_reuse d.log (sym booster ∙ z))

  mapped-Tracked :
      (i f : ℤ) (d : Daemon)
      → Tracked p invoker fd d
      → d.booster_pid ≢ p
      → Tracked p invoker fd (mapped i f d)
  mapped-Tracked i f d (x, y) ne =
      let other : int_eq d.booster_pid p ≡ false = ground (arith, int_eq_iff d.booster_pid p) in
      (
        find-insert d.booster_pid p i d.invoker_pids ∙ rw other x,
        find-insert d.booster_pid p f d.invoker_fds ∙ rw other y,
      )

  pub booster_part-Served :
      (w : World) (m : Option (Option Message)) (d e : Daemon)
      → Keeps p st w.os
      → Tracked p invoker fd d × (d.booster_pid ≢ p)
      → booster_part w m d ≡ returns e
      → Served p invoker fd st e
  booster_part-Served w none d e k t h = unmoved-Served d e t (cc)
  booster_part-Served w (some none) d e k t h =
      let ended : exits 1 d ≡ returns e = unfold read_from_booster_socket in h in absurd (cc)
  booster_part-Served w (some (some m)) d e k (t, ne) h = elim (read_cases w.os m d e h) [
    | inl forked ↦ forked-Served w.os m.delay d e k t forked
    | inr (f, _, _, forked, _) ↦
        forked-Served w.os m.delay (mapped m.invoker_pid f d) e k
          (mapped-Tracked m.invoker_pid f d t ne) forked
  ]

  same-Served :
      (d e : Daemon)
      → Tracked p invoker fd d × (d.booster_pid ≢ p)
      → (e.invoker_pids ≡ d.invoker_pids)
        × (e.invoker_fds ≡ d.invoker_fds)
        × (e.booster_pid ≡ d.booster_pid)
      → Served p invoker fd st e
  same-Served d e ((i, f), ne) (pids, fds, booster) =
      inl ((ap (find p) pids ∙ i, ap (find p) fds ∙ f), λ z. ne (sym booster ∙ z))

  pub signal_part-Served :
      (w : World) (s : Option Signal) (d e : Daemon)
      → Keeps p st w.os
      → Tracked p invoker fd d × (d.booster_pid ≢ p)
      → signal_part w s d ≡ returns e
      → Served p invoker fd st e
  unfolding handle_signal enter_normal_mode enter_boot_mode kill_boosters
  signal_part-Served w none d e k t h = unmoved-Served d e t (cc)
  signal_part-Served w (some sigchld) d e k t h = reap_zombies-Served w.os d e k t (ground arith)
  signal_part-Served w (some sigterm) d e k t h = absurd (cc)
  signal_part-Served w (some sigusr1) d e k t h =
      same-Served d e t (ground arith, ground arith, ground arith)
  signal_part-Served w (some sigusr2) d e k t h =
      same-Served d e t (ground arith, ground arith, ground arith)
  signal_part-Served w (some sigpipe) d e k t h = unmoved-Served d e t (cc)
  signal_part-Served w (some sighup) d e k t h = absurd (
      let ended : re_exec w.streams w.storage w.my_pid d ≡ returns e = h in
      unfold re_exec in ground arith)
  signal_part-Served w (some unknown) d e k t h = unmoved-Served d e t (cc)
