-- ===== src/Daemon/Reap/Alive.antt =====
-- What `reapZombies` leaves behind.
use mathlib.Core.Path.{subst}
use mapplauncherd.Base.{
  ℕ, zero, suc, ◌+◌, ◌≡◌, ◌≢◌, ◌⊎◌, refl, sym, ap, ◌∙◌, inl, inr, List, [], ◌∷◌, ◌++◌, none, some,
  All, arith, ℤ, negsuc, get_elem?, erase_at, length, Option-cases,
}
use mapplauncherd.Map.{find}
use mapplauncherd.Map.Order.{int_ord}
use mapplauncherd.Daemon.State.{
  Effect, waits, Wait, running, failed, died, Status, stopped, Os, Daemon, returns, logged,
  fork_booster,
}
use mapplauncherd.Daemon.Reap.Total.{bury_keeps, next_round-next}
use mapplauncherd.Daemon.Reap.{
  bury, restart, reap_child, next_index, Round, finished, next, stop, next_round, reap_round,
  reap_from, reap_zombies,
}

-- The first `i` entries of the list are there, and `P` holds of them.
abbrev AllBefore : (ℤ → Type 0) → ℕ → List ℤ → Type 0
AllBefore P zero xs = Unit
AllBefore P (suc i) [] = ⊥
AllBefore P (suc i) (x ∷ xs) = P x × AllBefore P i xs

module _ (P : ℤ → Type 0) where
  AllBefore-erase_at : (i : ℕ) (xs : List ℤ) → AllBefore P i xs → AllBefore P i (erase_at i xs)
  AllBefore-erase_at zero xs h = tt
  AllBefore-erase_at (suc i) [] h = h
  AllBefore-erase_at (suc i) (x ∷ xs) h = (h.0, AllBefore-erase_at i xs h.1)

  AllBefore-append : (i : ℕ) (xs ys : List ℤ) → AllBefore P i xs → AllBefore P i (xs ++ ys)
  AllBefore-append zero xs ys h = tt
  AllBefore-append (suc i) [] ys h = absurd h
  AllBefore-append (suc i) (x ∷ xs) ys h = (h.0, AllBefore-append i xs ys h.1)

  AllBefore-suc :
      (i : ℕ) (xs : List ℤ) {p : ℤ}
      → get_elem? xs i ≡ some p
      → P p
      → AllBefore P i xs
      → AllBefore P (suc i) xs
  AllBefore-suc i [] e h a = absurd (cc)
  AllBefore-suc zero (x ∷ xs) e h a = (subst P (cc) h, tt)
  AllBefore-suc (suc i) (x ∷ xs) e h a = (a.0, AllBefore-suc i xs e h a.1)

  AllBefore-All : (i : ℕ) (xs : List ℤ) → get_elem? xs i ≡ none → AllBefore P i xs → All P xs
  AllBefore-All i [] e a = tt
  AllBefore-All zero (x ∷ xs) e a = absurd (cc)
  AllBefore-All (suc i) (x ∷ xs) e a = (a.0, AllBefore-All i xs e a.1)

-- Within one pass no process dies: `waitpid` answers the same whenever it is asked.
abbrev pub IsSnapshot : Os → Type 0
IsSnapshot os = (l l' : List Effect) (p : ℤ) → os.waitpid l p ≡ os.waitpid l' p

-- No call finds the process dead.
abbrev pub Runs : Os → ℤ → Type 0
Runs os p = (l : List Effect) → os.waitpid l p ≡ running

restart_children :
    (os : Os) (pid : ℤ) (d e : Daemon)
    → restart os pid d ≡ returns e
    → (e.children ≡ d.children) ⊎ (e.children ≡ d.children ++ os.fork d.log ∷ [])
unfolding restart fork_booster
restart_children os pid d e h = ground arith

-- Dropping the child at `i` keeps what is known of those before it.
gone_AllBefore :
    (P : ℤ → Type 0) (os : Os) (i : ℕ) (q : ℤ) (s : Status) (d c e : Daemon)
    → AllBefore P i d.children
    → c.children ≡ erase_at i d.children
    → restart os q (bury q s (find q c.invoker_pids) c) ≡ returns e
    → AllBefore P i e.children
gone_AllBefore P os i q s d c e a erased h =
    let b = bury q s (find q c.invoker_pids) c in
    let kept = (bury_keeps q s (find q c.invoker_pids) c).0 ∙ erased in
    let before = AllBefore-erase_at P i d.children a in
    elim (restart_children os q b e h) [
      | inl same ↦ subst (AllBefore P i) (sym (same ∙ kept)) before
      | inr more ↦
          subst (AllBefore P i) (sym (more ∙ ap (λ xs. xs ++ os.fork b.log ∷ []) kept))
            (AllBefore-append P i _ _ before)
    ]

child_AllBefore :
    (os : Os) (i j : ℕ) (pid : ℤ) (w : Wait) (d e : Daemon)
    → IsSnapshot os
    → AllBefore (Runs os) i d.children
    → get_elem? d.children i ≡ some pid
    → os.waitpid d.log pid ≡ w
    → next_round (next_index i w) (reap_child os i pid w (logged (waits pid) d)) ≡ next j e
    → AllBefore (Runs os) j e.children
unfolding next_index reap_child
child_AllBefore os i j pid running d e snap a at_i ew h =
    let (eq, k) = next_round-next (suc i) j (returns (logged (waits pid) d)) e h in
    let same : d.children ≡ e.children = ground arith in
    subst (λ n. AllBefore (Runs os) n e.children) k
      (subst (AllBefore (Runs os) (suc i)) same
        (AllBefore-suc (Runs os) i d.children at_i (λ l. snap l d.log pid ∙ ew) a))
child_AllBefore os i j pid failed d e snap a at_i ew h =
    let (eq, k) = next_round-next i j _ e h in
    subst (λ n. AllBefore (Runs os) n e.children) k
      (gone_AllBefore (Runs os) os i (negsuc 0) stopped d _ e a refl eq)
child_AllBefore os i j pid (died s) d e snap a at_i ew h =
    let (eq, k) = next_round-next i j _ e h in
    subst (λ n. AllBefore (Runs os) n e.children) k
      (gone_AllBefore (Runs os) os i pid s d _ e a refl eq)

round_AllBefore :
    (os : Os) (i j : ℕ) (d e : Daemon)
    → IsSnapshot os
    → AllBefore (Runs os) i d.children
    → reap_round os i d ≡ next j e
    → AllBefore (Runs os) j e.children
unfolding reap_round
round_AllBefore os i j d e snap a h = elim (Option-cases (get_elem? d.children i)) [
  | inl none_left ↦ absurd (cc (rw (none_left, reap_round) at h))
  | inr (pid, at_i) ↦
      child_AllBefore os i j pid (os.waitpid d.log pid) d e snap a at_i refl
        (rw (at_i, reap_round) at h)
]

round_finished :
    (os : Os) (i : ℕ) (d : Daemon) → reap_round os i d ≡ finished → get_elem? d.children i ≡ none
unfolding reap_round next_round
round_finished os i d h = ground arith

round-ne-stop_returns : (os : Os) (i : ℕ) (d e : Daemon) → reap_round os i d ≢ stop (returns e)
unfolding reap_round next_round
round-ne-stop_returns os i d e h = ground arith

-- A loop that returns has finished, or has gone on with its next round.
pub reap_from-returns :
    (os : Os) (n i : ℕ) (d e : Daemon)
    → reap_from os (suc n) i d ≡ some (returns e)
    → ((get_elem? d.children i ≡ none) × (d ≡ e))
      ⊎ ((j : ℕ) × (d' : Daemon) × (reap_round os i d ≡ next j d')
          × (reap_from os n j d' ≡ some (returns e)))
unfolding reap_from
reap_from-returns os n i d e h = go (reap_round os i d) refl
  where
    go :
        (r : Round)
        → reap_round os i d ≡ r
        → ((get_elem? d.children i ≡ none) × (d ≡ e))
          ⊎ ((j : ℕ) × (d' : Daemon) × (reap_round os i d ≡ next j d')
              × (reap_from os n j d' ≡ some (returns e)))
    go finished q = inl (round_finished os i d q, cc (rw (q, reap_from) at h))
    go (next j d') q = inr (j, d', q, rw (q, reap_from) at h)
    go (stop o) q =
        let same : some o ≡ some (returns e) = rw (q, reap_from) at h in
        absurd (round-ne-stop_returns os i d e (q ∙ cc))

reap_from_alive :
    (os : Os) (n i : ℕ) (d e : Daemon)
    → IsSnapshot os
    → AllBefore (Runs os) i d.children
    → reap_from os n i d ≡ some (returns e)
    → All (Runs os) e.children
reap_from_alive os zero i d e snap a h =
    let spent : none ≡ some (returns e) = unfold reap_from in h in absurd (cc)
reap_from_alive os (suc n) i d e snap a h = elim (reap_from-returns os n i d e h) [
  | inl (at_end, same) ↦
      subst (λ (x : Daemon). All (Runs os) x.children) same
        (AllBefore-All (Runs os) i d.children at_end a)
  | inr (j, d', q, later) ↦
      reap_from_alive os n j d' e snap (round_AllBefore os i j d d' snap a q) later
]

-- When `reapZombies` returns, and no process died while it ran, every process that the daemon still
-- counts among its children runs: no zombie is left, wherever in the list it stood.
pub reap_zombies_alive :
    (os : Os) (d e : Daemon)
    → IsSnapshot os
    → reap_zombies os d ≡ some (returns e)
    → All (Runs os) e.children
unfolding reap_zombies
reap_zombies_alive os d e snap h =
    reap_from_alive os (length d.children + 2 + os.spare) 0 d e snap tt h
