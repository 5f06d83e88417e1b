-- ===== src/Daemon/Spec/Notices.antt =====
-- An invoker that waits gets its notice.
use mathlib.Core.Path.{subst}
use mapplauncherd.Base.{
  ℕ, zero, suc, ◌+◌, ◌≡◌, ◌≢◌, ◌⊎◌, refl, sym, ap, ◌∙◌, inl, inr, true, List, [], ◌∷◌, ◌++◌, Option,
  none, some, ℤ, int_eq, int_eq_iff, arith, append_assoc, append-nil, Bool-cases, Option-cases,
  get_elem?, erase_at, length, All,
}
use mapplauncherd.Map.{find}
use mapplauncherd.Map.Order.{int_ord}
use mapplauncherd.Daemon.State.{
  Effect, forks, waits, Status, stopped, Wait, running, failed, died, Os, Daemon, returns, logged,
  fork_booster,
}
use mapplauncherd.Daemon.Reap.{
  bury, restart, reap_child, next_index, next, next_round, reap_round, reap_from, reap_zombies,
  booster_sleep_time,
}
use mapplauncherd.Daemon.Reap.Total.{next_round-next}
use mapplauncherd.Daemon.Reap.Alive.{reap_from-returns, IsSnapshot, Runs, reap_zombies_alive}
use mapplauncherd.Daemon.Reap.Settle.{bury_pids, bury_fds_ne}
use mapplauncherd.Daemon.Invariant.{Inv, IsPosix, has, reap_zombies-Inv}
use mapplauncherd.Daemon.Spec.{
  Registry, notice, Step, launch, replace, refresh, Reach, here, visible, registry,
}
use mapplauncherd.Daemon.Spec as Spec
use mapplauncherd.Daemon.Spec.Refinement.{hidden, bury-notice, round-Reach}

-- What was sent stays sent.
Step-grows :
    {Dead : ℤ → Status → Type 0} {Heard : ℤ → ℤ → Type 0} (s t : Registry)
    → Step Dead Heard s t
    → (more : List Effect) × (t.sent ≡ s.sent ++ more)
Step-grows s t (launch invoker fd said ni nb i f b e) = ([], e ∙ sym (append-nil s.sent))
Step-grows s t (Spec.bury p invoker status k gone r i f b e) =
    (notice invoker (s.fd_of p) status, e)
Step-grows s t (replace i f b e) = ([], e ∙ sym (append-nil s.sent))
Step-grows s t (refresh i f b e) = (_, e)

Reach-grows :
    {Dead : ℤ → Status → Type 0} {Heard : ℤ → ℤ → Type 0} (s t : Registry)
    → Reach Dead Heard s t
    → (more : List Effect) × (t.sent ≡ s.sent ++ more)
Reach-grows s t here = ([], sym (append-nil s.sent))
Reach-grows s t (Spec.next {t = u} r step) =
    let (more, e) = Reach-grows s u r in
    let (last, f) = Step-grows u t step in (more ++ last, f ∙ rw e (append_assoc s.sent more last))

-- The notice is among what was sent.
abbrev pub Notified : ℤ → Option ℤ → Status → Daemon → Type 0
Notified invoker fd s d =
    (before : List Effect) × (after : List Effect) × (visible d.log
      ≡ before ++ (notice invoker fd s ++ after))

-- The process has this invoker, and this descriptor to it.
abbrev pub Tracked : ℤ → ℤ → Option ℤ → Daemon → Type 0
Tracked p invoker fd d = (find p d.invoker_pids ≡ some invoker) × (find p d.invoker_fds ≡ fd)

pub Notified-Reach :
    {Dead : ℤ → Status → Type 0} {Heard : ℤ → ℤ → Type 0} (invoker : ℤ) (fd : Option ℤ) (s : Status)
    (d e : Daemon)
    → Reach Dead Heard (registry d) (registry e)
    → Notified invoker fd s d
    → Notified invoker fd s e
Notified-Reach invoker fd s d e r (before, after, h) =
    let (more, g) = Reach-grows (registry d) (registry e) r in
    (before, after ++ more, g ∙ rw h (simp append_assoc))

-- A restart changes neither the maps nor what was sent.
restart-keeps :
    (os : Os) (pid : ℤ) (b e : Daemon)
    → restart os pid b ≡ returns e
    → (e.invoker_pids ≡ b.invoker_pids)
      × (e.invoker_fds ≡ b.invoker_fds)
      × (visible e.log ≡ visible b.log)
unfolding restart fork_booster visible
restart-keeps os pid b e h = elim (Bool-cases (int_eq pid b.booster_pid)) [
  | inr miss ↦
      let same : e ≡ b = ground arith in (ground arith, ground arith, ap (λ x. visible x.log) same)
  | inl hit ↦
      let grown : e.log ≡ b.log ++ forks booster_sleep_time ∷ [] = ground arith in
      (ground arith, ground arith, ap visible grown ∙ hidden b.log (forks booster_sleep_time) refl)
]

module _ (os : Os) (p invoker : ℤ) (fd : Option ℤ) (st : Status) where
  buried-Tracked :
      (q : ℤ) (s : Status) (c e : Daemon)
      → (q ≡ p → s ≡ st)
      → s ≢ stopped
      → Tracked p invoker fd c
      → restart os q (bury q s (find q c.invoker_pids) c) ≡ returns e
      → Tracked p invoker fd e ⊎ Notified invoker fd st e
  buried-Tracked q s c e same real (i, f) h =
      let (pids, fds, seen) = restart-keeps os q (bury q s (find q c.invoker_pids) c) e h in
      elim (Bool-cases (int_eq q p)) [
        | inr other ↦ inl (
          ap (find p) pids ∙ bury_pids q p s c ∙ rw other i,
          ap (find p) fds ∙ bury_fds_ne q p s c other ∙ f,
        )
        | inl hit ↦
            let hq : q ≡ p = (int_eq_iff q p).0 hit in
            let known : find q c.invoker_pids ≡ some invoker =
              ap (λ x. find x c.invoker_pids) hq ∙ i in
            let told : notice invoker (find q c.invoker_fds) s ≡ notice invoker fd st ++ [] =
              ap (λ x. notice invoker (find x c.invoker_fds) s) hq
              ∙ rw (f, same hq) (sym (append-nil _)) in
            inr (
              visible c.log,
              [],
              seen
                  ∙ ap (λ m. visible (bury q s m c).log) known
                  ∙ bury-notice q invoker s c
                  ∙ ap (λ x. visible c.log ++ x) told,
            )
      ]

  died_as :
      {q : ℤ} (s : Status) → (q ≡ p → (died s ≡ running) ⊎ (died s ≡ died st)) → q ≡ p → s ≡ st
  died_as s same z = elim (same z) [ inl alive ↦ absurd (cc) | inr e ↦ cc ]

  child-Tracked :
      (i j : ℕ) (q : ℤ) (w : Wait) (d e : Daemon)
      → (q ≡ p → (w ≡ running) ⊎ (w ≡ died st))
      → w ≢ failed
      → w ≢ died stopped
      → next_round (next_index i w) (reap_child os i q w (logged (waits q) d)) ≡ next j e
      → Tracked p invoker fd d
      → Tracked p invoker fd e ⊎ Notified invoker fd st e
  unfolding reap_child
  child-Tracked i j q running d e same nf ns h tracked =
      let (eq, k) = next_round-next _ j (returns (logged (waits q) d)) e h in
      let keeps : logged (waits q) d ≡ e = cc in inl (subst (Tracked p invoker fd) keeps tracked)
  child-Tracked i j q failed d e same nf ns h tracked = absurd (nf refl)
  child-Tracked i j q (died s) d e same nf ns h tracked =
      let (eq, k) = next_round-next _ j _ e h in
      buried-Tracked q s (record (logged (waits q) d) { children = erase_at i d.children }) e
        (died_as s same) (λ z. ns (ap died z)) tracked eq

  round-Tracked :
      (i j : ℕ) (d e : Daemon)
      → IsPosix os
      → ((l : List Effect) → (os.waitpid l p ≡ running) ⊎ (os.waitpid l p ≡ died st))
      → reap_round os i d ≡ next j e
      → Tracked p invoker fd d
      → Tracked p invoker fd e ⊎ Notified invoker fd st e
  unfolding reap_round
  round-Tracked i j d e posix dead h tracked = elim (Option-cases (get_elem? d.children i)) [
    | inl none_left ↦ absurd (cc (rw (none_left, reap_round) at h))
    | inr (q, at_i) ↦
        let k = posix d.log q in
        child-Tracked i j q (os.waitpid d.log q) d e (λ z. rw z (dead d.log)) k.0 k.1
          (rw (at_i, reap_round) at h) tracked
  ]

  pub reap_from-Tracked :
      (n i : ℕ) (d e : Daemon)
      → IsPosix os
      → ((l : List Effect) → (os.waitpid l p ≡ running) ⊎ (os.waitpid l p ≡ died st))
      → reap_from os n i d ≡ some (returns e)
      → Tracked p invoker fd d ⊎ Notified invoker fd st d
      → Tracked p invoker fd e ⊎ Notified invoker fd st e
  reap_from-Tracked zero i d e posix dead h tracked =
      let spent : none ≡ some (returns e) = unfold reap_from in h in absurd (cc)
  reap_from-Tracked (suc n) i d e posix dead h tracked = elim (reap_from-returns os n i d e h) [
    | inl (at_end, same) ↦
        subst (λ x. Tracked p invoker fd x ⊎ Notified invoker fd st x) same tracked
    | inr (j, d', q, later) ↦
        reap_from-Tracked n j d' e posix dead later (after_round d d' i j q tracked)
  ]
    where
      after_round :
          (x y : Daemon) (k l : ℕ)
          → reap_round os k x ≡ next l y
          → Tracked p invoker fd x ⊎ Notified invoker fd st x
          → Tracked p invoker fd y ⊎ Notified invoker fd st y
      after_round x y k l q (inl t) = round-Tracked k l x y posix dead q t
      after_round x y k l q (inr t) = inr (
          Notified-Reach invoker fd st x y
            (round-Reach (λ z s. Unit {0}) (λ z f. Unit {0}) os k l x y (registry x)
              (λ z p' s e. tt) posix q here)
            t)

-- A child of which `P` holds, as of all children.
All-has : (P : ℤ → Type 0) (x : ℤ) (xs : List ℤ) → All P xs → has x xs ≡ true → P x
All-has P x [] all h = absurd (cc)
All-has P x (y ∷ ys) all h = elim (Bool-cases (int_eq y x)) [
  | inl hit ↦ subst P ((int_eq_iff y x).0 hit) all.0
  | inr miss ↦ All-has P x ys all.1 (ground arith)
]

-- One pass over the children is enough: if a process with an invoker has died when `reapZombies` starts
-- (and no process dies while it runs, and `waitpid` neither fails nor reports a stopped child), then when
-- it returns that invoker has been sent its notice, with that process's own status.
pub reap_zombies-Notified :
    (os : Os) (p invoker : ℤ) (fd : Option ℤ) (st : Status) (d e : Daemon)
    → IsSnapshot os
    → IsPosix os
    → Inv d
    → find p d.invoker_pids ≡ some invoker
    → find p d.invoker_fds ≡ fd
    → os.waitpid [] p ≡ died st
    → reap_zombies os d ≡ some (returns e)
    → Notified invoker fd st e
unfolding reap_zombies
reap_zombies-Notified os p invoker fd st d e snap posix v i f dead h =
    elim (reap_from-Tracked os p invoker fd st (length d.children + 2 + os.spare) 0 d e posix
      (λ l. inr (snap l [] p ∙ dead)) h (inl (i, f))) [
        | inr told ↦ told
        | inl (still, _) ↦ absurd (
            let counted : has p e.children ≡ true =
              (reap_zombies-Inv os d e posix v h).tracked p (λ z. cc) in
            let alive =
              All-has (Runs os) p e.children (reap_zombies_alive os d e snap h) counted [] in
            cc)
      ]
