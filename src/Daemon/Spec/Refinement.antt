-- ===== src/Daemon/Spec/Refinement.antt =====
-- The daemon's functions are steps of the registry.
use mathlib.Core.Path.{subst}
use mapplauncherd.Base.{
  ℕ, zero, suc, ◌+◌, ◌≡◌, ◌≢◌, refl, sym, ap, ◌∙◌, inl, inr, List, [], ◌∷◌, ◌++◌, Option, none,
  some, if◌then◌else◌, ℤ, pos, int_eq, int_eq_iff, int_lt, arith, append_assoc, append-nil,
  Bool-cases, Option-cases, get_elem?, erase_at, length,
}
use mapplauncherd.Map.{find}
use mapplauncherd.Map.Order.{int_ord}
use mapplauncherd.Protocol.{msg_exit}
use mapplauncherd.Daemon.State.{
  Effect, forks, waits, kills, writes, closes, dies_with_parent, new_session, sleeps, restores,
  masks_files, removes_state, notifies_ready, Status, exited, signaled, stopped, Wait, running,
  failed, died, Os, Daemon, returns, logged, fork_booster,
}
use mapplauncherd.Daemon.Reap.{
  bury, restart, reap_child, next_index, next, next_round, reap_round, reap_from, reap_zombies,
  booster_sleep_time,
}
use mapplauncherd.Daemon.Reap.Total.{bury_keeps, next_round-next}
use mapplauncherd.Daemon.Reap.Alive.{reap_from-returns}
use mapplauncherd.Daemon.Reap.Settle.{bury_pids, bury_fds}
use mapplauncherd.Daemon.Invariant.{IsPosix}
use mapplauncherd.Daemon.Spec.{
  Registry, notice, SetAt, Step, launch, replace, refresh, Reach, here, visible, registry,
}
use mapplauncherd.Daemon.Spec as Spec

pub visible-append : (es fs : List Effect) → visible (es ++ fs) ≡ visible es ++ visible fs
unfolding visible
visible-append [] fs = refl
visible-append (forks n ∷ es) fs = visible-append es fs
visible-append (waits p ∷ es) fs = visible-append es fs
visible-append (closes fd ∷ es) fs = visible-append es fs
visible-append (dies_with_parent ∷ es) fs = visible-append es fs
visible-append (new_session ∷ es) fs = visible-append es fs
visible-append (masks_files m ∷ es) fs = visible-append es fs
visible-append (removes_state ∷ es) fs = visible-append es fs
visible-append (notifies_ready ∷ es) fs = visible-append es fs
visible-append (sleeps n ∷ es) fs = visible-append es fs
visible-append (restores n h ∷ es) fs = visible-append es fs
visible-append (writes fd w ∷ es) fs = ap (λ x. writes fd w ∷ x) (visible-append es fs)
visible-append (kills p n ∷ es) fs = ap (λ x. kills p n ∷ x) (visible-append es fs)

-- What is added to the log by an effect that is not seen.
pub hidden :
    (es : List Effect) (e : Effect) → visible (e ∷ []) ≡ [] → visible (es ++ e ∷ []) ≡ visible es
hidden es e h = visible-append es (e ∷ []) ∙ rw (h, append-nil)

-- All that is done for a dead process whose invoker is known.
abbrev farewell : ℤ → Option ℤ → Status → List Effect
farewell invoker none (exited n) = []
farewell invoker (some fd) (exited n) =
    writes fd (pos msg_exit) ∷ writes fd (pos n) ∷ closes fd ∷ []
farewell invoker none (signaled n) = if int_lt (pos 0) invoker then kills invoker n ∷ [] else []
farewell invoker (some fd) (signaled n) =
    closes fd ∷ (if int_lt (pos 0) invoker then kills invoker n ∷ [] else [])
farewell invoker fd stopped = []

visible-farewell :
    (invoker : ℤ) (fd : Option ℤ) (s : Status)
    → visible (farewell invoker fd s) ≡ notice invoker fd s
unfolding visible
visible-farewell invoker none (exited n) = refl
visible-farewell invoker (some fd) (exited n) = refl
visible-farewell invoker none (signaled n) = ground arith
visible-farewell invoker (some fd) (signaled n) = ground arith
visible-farewell invoker none stopped = refl
visible-farewell invoker (some fd) stopped = refl

bury-farewell :
    (pid invoker : ℤ) (s : Status) (fd : Option ℤ) (d : Daemon)
    → find pid d.invoker_fds ≡ fd
    → (bury pid s (some invoker) d).log ≡ d.log ++ farewell invoker fd s
unfolding bury
bury-farewell pid invoker (exited n) none d h = ground (arith, append-nil d.log)
bury-farewell pid invoker (exited n) (some fd) d h = ground (
  arith,
  append_assoc d.log (writes fd (pos msg_exit) ∷ []) (writes fd (pos n) ∷ []),
  append_assoc d.log (writes fd (pos msg_exit) ∷ writes fd (pos n) ∷ []) (closes fd ∷ []),
)
bury-farewell pid invoker (signaled n) none d h = ground (arith, append-nil d.log)
bury-farewell pid invoker (signaled n) (some fd) d h =
    ground (arith, append_assoc d.log (closes fd ∷ []) (kills invoker n ∷ []))
bury-farewell pid invoker stopped fd d h = ground (arith, append-nil d.log)

-- The notice is all of it that is seen.
pub bury-notice :
    (pid invoker : ℤ) (s : Status) (d : Daemon)
    → visible (bury pid s (some invoker) d).log
      ≡ visible d.log ++ notice invoker (find pid d.invoker_fds) s
bury-notice pid invoker s d =
    let fd = find pid d.invoker_fds in
    ap visible (bury-farewell pid invoker s fd d refl)
    ∙ visible-append d.log (farewell invoker fd s)
    ∙ ap (λ x. visible d.log ++ x) (visible-farewell invoker fd s)

module _ (Dead : ℤ → Status → Type 0) (Heard : ℤ → ℤ → Type 0) where
  pub fork_booster-Step :
      (os : Os) (t : ℤ) (d e : Daemon)
      → fork_booster os t d ≡ returns e
      → Step Dead Heard (registry d) (registry e)
  unfolding fork_booster visible
  fork_booster-Step os t d e h =
      let grown : e.log ≡ d.log ++ forks t ∷ [] = ground arith in
      replace (ground arith) (ground arith) (ground (arith, int_eq_iff (os.fork d.log) (pos 0)))
        (ap visible grown ∙ hidden d.log (forks t) refl)

  bury-Step :
      (pid invoker : ℤ) (s : Status) (d : Daemon)
      → Dead pid s
      → s ≢ stopped
      → find pid d.invoker_pids ≡ some invoker
      → Step Dead Heard (registry d) (registry (bury pid s (some invoker) d))
  bury-Step pid invoker s d gone real known =
      Spec.bury pid invoker s known gone real (λ q. rw (← known) (bury_pids pid q s d))
        (λ q. rw (← known) (bury_fds pid q s d real (λ z. absurd (cc))))
        (bury_keeps pid s (some invoker) d).1 (bury-notice pid invoker s d)

  pub Reach-same :
      (d e : Daemon) (r : Registry)
      → d ≡ e
      → Reach Dead Heard r (registry d)
      → Reach Dead Heard r (registry e)
  Reach-same d e r h reached = subst (λ x. Reach Dead Heard r (registry x)) h reached

  Reach-restart :
      (os : Os) (pid : ℤ) (b e : Daemon) (r : Registry)
      → restart os pid b ≡ returns e
      → Reach Dead Heard r (registry b)
      → Reach Dead Heard r (registry e)
  unfolding restart
  Reach-restart os pid b e r h reached = elim (Bool-cases (int_eq pid b.booster_pid)) [
    | inl hit ↦
        Spec.next reached (fork_booster-Step os booster_sleep_time b e (rw (hit, restart) at h))
    | inr miss ↦
        let same : returns b ≡ returns e = rw (miss, restart) at h in Reach-same b e r (cc) reached
  ]

  -- Forgetting a dead process, whether or not its invoker is known.
  Reach-bury :
      (pid : ℤ) (s : Status) (m : Option ℤ) (d : Daemon) (r : Registry)
      → Dead pid s
      → s ≢ stopped
      → find pid d.invoker_pids ≡ m
      → Reach Dead Heard r (registry d)
      → Reach Dead Heard r (registry (bury pid s m d))
  Reach-bury pid s none d r gone real known reached = unfold bury in reached
  Reach-bury pid s (some invoker) d r gone real known reached =
      Spec.next reached (bury-Step pid invoker s d gone real known)

  -- The effect of a `waitpid` is not seen.
  Reach-waits :
      (pid : ℤ) (xs : List ℤ) (d : Daemon) (r : Registry)
      → Reach Dead Heard r (registry d)
      → Reach Dead Heard r (registry (record (logged (waits pid) d) { children = xs }))
  unfolding visible
  Reach-waits pid xs d r reached =
      subst
        (λ l. Reach Dead Heard r (record {
          invoker_of = λ p. find p d.invoker_pids;
          fd_of = λ p. find p d.invoker_fds;
          booster = d.booster_pid;
          sent = l;
        }))
        (sym (hidden d.log (waits pid) refl)) reached

  child-Reach :
      (os : Os) (i j : ℕ) (pid : ℤ) (w : Wait) (d e : Daemon) (r : Registry)
      → ((s : Status) → w ≡ died s → Dead pid s)
      → w ≢ failed
      → w ≢ died stopped
      → next_round (next_index i w) (reap_child os i pid w (logged (waits pid) d)) ≡ next j e
      → Reach Dead Heard r (registry d)
      → Reach Dead Heard r (registry e)
  unfolding reap_child
  child-Reach os i j pid running d e r gone nf ns h reached =
      let (eq, k) = next_round-next _ j (returns (logged (waits pid) d)) e h in
      Reach-same (logged (waits pid) d) e r (cc) (Reach-waits pid d.children d r reached)
  child-Reach os i j pid failed d e r gone nf ns h reached = absurd (nf refl)
  child-Reach os i j pid (died s) d e r gone nf ns h reached =
      let (eq, k) = next_round-next _ j _ e h in
      Reach-restart os pid _ e r eq (
        Reach-bury pid s _ (record (logged (waits pid) d) { children = erase_at i d.children }) r
          (gone s refl) (λ z. ns (ap died z)) refl
          (Reach-waits pid (erase_at i d.children) d r reached))

  pub round-Reach :
      (os : Os) (i j : ℕ) (d e : Daemon) (r : Registry)
      → ((l : List Effect) (p : ℤ) (s : Status) → os.waitpid l p ≡ died s → Dead p s)
      → IsPosix os
      → reap_round os i d ≡ next j e
      → Reach Dead Heard r (registry d)
      → Reach Dead Heard r (registry e)
  unfolding reap_round
  round-Reach os i j d e r gone posix h reached = elim (Option-cases (get_elem? d.children i)) [
    | inl none_left ↦ absurd (cc (rw (none_left, reap_round) at h))
    | inr (pid, at_i) ↦
        let p = posix d.log pid in
        child-Reach os i j pid (os.waitpid d.log pid) d e r (gone d.log pid) p.0 p.1
          (rw (at_i, reap_round) at h) reached
  ]

  reap_from-Reach :
      (os : Os) (n i : ℕ) (d e : Daemon) (r : Registry)
      → ((l : List Effect) (p : ℤ) (s : Status) → os.waitpid l p ≡ died s → Dead p s)
      → IsPosix os
      → reap_from os n i d ≡ some (returns e)
      → Reach Dead Heard r (registry d)
      → Reach Dead Heard r (registry e)
  reap_from-Reach os zero i d e r gone posix h reached =
      let spent : none ≡ some (returns e) = unfold reap_from in h in absurd (cc)
  reap_from-Reach os (suc n) i d e r gone posix h reached = elim (reap_from-returns os n i d e h) [
    | inl (at_end, same) ↦ Reach-same d e r same reached
    | inr (j, d', q, later) ↦
        reap_from-Reach os n j d' e r gone posix later
          (round-Reach os i j d d' r gone posix q reached)
  ]

  pub reap_zombies-Reach :
      (os : Os) (d e : Daemon) (r : Registry)
      → ((l : List Effect) (p : ℤ) (s : Status) → os.waitpid l p ≡ died s → Dead p s)
      → IsPosix os
      → reap_zombies os d ≡ some (returns e)
      → Reach Dead Heard r (registry d)
      → Reach Dead Heard r (registry e)
  unfolding reap_zombies
  reap_zombies-Reach os d e r gone posix h reached =
      reap_from-Reach os (length d.children + 2 + os.spare) 0 d e r gone posix h reached
