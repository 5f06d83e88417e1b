-- ===== src/Daemon/Reap/Total.antt =====
-- The loop of `reapZombies` ends.
use mathlib.Core.Path.{subst}
use mapplauncherd.Base.{
  ℕ, zero, suc, ◌+◌, ◌-◌, ◌≤◌, ◌<◌, ◌≡◌, ◌≢◌, ◌⊎◌, refl, sym, ◌∙◌, inl, inr, List, [], ◌∷◌, Option,
  some, arith, ℤ, negsuc, int_eq_iff, get_elem?, erase_at, length, length-append, Option-cases,
}
use mapplauncherd.Map.{find}
use mapplauncherd.Map.Order.{int_ord}
use mapplauncherd.Daemon.State.{
  Effect, waits, Wait, running, failed, died, Status, stopped, Os, Daemon, Outcome, returns, logged,
  fork_booster,
}
use mapplauncherd.Daemon.Reap.{
  bury, restart, reap_child, next_index, next_round, Round, finished, next, stop, reap_round,
  reap_from, reap_zombies,
}

length-erase_at :
    {p : ℤ} (xs : List ℤ) (i : ℕ)
    → get_elem? xs i ≡ some p
    → (i < length xs) × (suc (length (erase_at i xs)) ≡ length xs)
length-erase_at [] i h = cc
length-erase_at (x ∷ xs) zero h = omega arith
length-erase_at (x ∷ xs) (suc i) h = let e = length-erase_at xs i h in omega arith

-- `bury` touches neither the children nor the booster.
pub bury_keeps :
    (pid : ℤ) (s : Status) (m : Option ℤ) (d : Daemon)
    → ((bury pid s m d).children ≡ d.children)
      × ((bury pid s m d).booster_pid ≡ d.booster_pid)
      × ((bury pid s m d).has_booster ≡ d.has_booster)
unfolding bury
bury_keeps pid s m d = ground arith

-- A process that `fork` has made is not dead when it is asked after in the same pass.
abbrev pub IsLively : Os → Type 0
IsLively os = (l l' : List Effect) → os.waitpid l' (os.fork l) ≡ running

-- What made the loop drop a child: it has died, or it is the -1 of a failed call.
abbrev IsDead : Os → Daemon → ℤ → Type 0
IsDead os d p = (p ≡ negsuc 0) ⊎ (os.waitpid d.log p ≢ running)

-- How a round that goes on changes what is left to visit.
abbrev Progress : Os → ℕ → Daemon → ℕ → Daemon → Type 0
Progress os i d j e =
    ((e.booster_pid ≡ d.booster_pid) × (length e.children - j < length d.children - i))
    ⊎ ((l : List Effect) × (e.booster_pid ≡ os.fork l)
        × (e.booster_pid ≢ negsuc 0)
        × IsDead os d d.booster_pid
        × (length e.children - j ≤ length d.children - i))

restart_progress :
    (os : Os) (pid : ℤ) (d e : Daemon)
    → restart os pid d ≡ returns e
    → ((pid ≢ d.booster_pid) × (e ≡ d))
      ⊎ ((pid ≡ d.booster_pid)
          × (e.booster_pid ≡ os.fork d.log)
          × (e.booster_pid ≢ negsuc 0)
          × (length e.children ≡ suc (length d.children)))
unfolding restart fork_booster
restart_progress os pid d e h = ground (
  arith,
  int_eq_iff pid d.booster_pid,
  int_eq_iff (os.fork d.log) (negsuc 0),
  length-append d.children (os.fork d.log ∷ []),
)

-- The child at `i` has died, or cannot be waited for.
gone-Progress :
    (os : Os) (i : ℕ) (pid q : ℤ) (s : Status) (d c e : Daemon)
    → get_elem? d.children i ≡ some pid
    → IsDead os d q
    → c.children ≡ erase_at i d.children
    → c.booster_pid ≡ d.booster_pid
    → restart os q (bury q s (find q c.invoker_pids) c) ≡ returns e
    → Progress os i d i e
gone-Progress os i pid q s d c e at_i dead erased same h =
    let shorter = length-erase_at d.children i at_i in
    let kept = bury_keeps q s (find q c.invoker_pids) c in
    elim (restart_progress os q (bury q s (find q c.invoker_pids) c) e h) [
      | inl (_, eq) ↦ inl (ground arith, ground (arith, shorter))
      | inr (hit, eq, ne, len) ↦ inr (
        (bury q s (find q c.invoker_pids) c).log,
        eq,
        ne,
        subst (IsDead os d) (hit ∙ kept.1 ∙ same) dead,
        ground (arith, shorter),
      )
    ]

pub next_round-next :
    (k j : ℕ) (o : Outcome) (e : Daemon) → next_round k o ≡ next j e → (o ≡ returns e) × (k ≡ j)
unfolding next_round
next_round-next k j o e h = ground arith

child-Progress :
    (os : Os) (i j : ℕ) (pid : ℤ) (w : Wait) (d e : Daemon)
    → get_elem? d.children i ≡ some pid
    → os.waitpid d.log pid ≡ w
    → next_round (next_index i w) (reap_child os i pid w (logged (waits pid) d)) ≡ next j e
    → Progress os i d j e
unfolding next_index reap_child
child-Progress os i j pid running d e at_i ew h =
    let (eq, k) = next_round-next (suc i) j (returns (logged (waits pid) d)) e h in
    inl (ground arith, ground (arith, length-erase_at d.children i at_i))
child-Progress os i j pid failed d e at_i ew h =
    let (eq, k) = next_round-next i j _ e h in
    subst (λ n. Progress os i d n e) k
      (gone-Progress os i pid (negsuc 0) stopped d _ e at_i (inl refl) refl refl eq)
child-Progress os i j pid (died s) d e at_i ew h =
    let (eq, k) = next_round-next i j _ e h in
    subst (λ n. Progress os i d n e) k
      (gone-Progress os i pid pid s d _ e at_i (inr (λ r. cc)) refl refl eq)

pub round-Progress :
    (os : Os) (i j : ℕ) (d e : Daemon) → reap_round os i d ≡ next j e → Progress os i d j e
unfolding reap_round
round-Progress os i j d e h = elim (Option-cases (get_elem? d.children i)) [
  | inl none_left ↦ absurd (cc (rw (none_left, reap_round) at h))
  | inr (pid, at_i) ↦
      child-Progress os i j pid (os.waitpid d.log pid) d e at_i refl (rw (at_i, reap_round) at h)
]

-- The booster is not found dead.
abbrev BoosterRuns : Os → Daemon → Type 0
BoosterRuns os d =
    (d.booster_pid ≢ negsuc 0) × ((l : List Effect) → os.waitpid l d.booster_pid ≡ running)

reap_from-suc :
    (os : Os) (n i : ℕ) (d : Daemon)
    → ((j : ℕ) (e : Daemon)
        → reap_round os i d ≡ next j e
        → (o : Outcome) × (reap_from os n j e ≡ some o))
    → (o : Outcome) × (reap_from os (suc n) i d ≡ some o)
unfolding reap_from
reap_from-suc os n i d rest = go (reap_round os i d) refl
  where
    go : (r : Round) → reap_round os i d ≡ r → (o : Outcome) × (reap_from os (suc n) i d ≡ some o)
    go finished e = (returns d, rw (e, reap_from))
    go (next j e') e = let (o, h) = rest j e' e in (o, rw (e, reap_from) h)
    go (stop o) e = (o, rw (e, reap_from))

reap_from_running :
    (os : Os) (n i : ℕ) (d : Daemon)
    → BoosterRuns os d
    → length d.children - i < n
    → (o : Outcome) × (reap_from os n i d ≡ some o)
reap_from_running os zero i d runs h = elim h [ ]
reap_from_running os (suc n) i d runs h = reap_from-suc os n i d λ j e r.
    elim (round-Progress os i j d e r) [
      | inl (same, less) ↦
          reap_from_running os n j e
            (subst (λ (p : ℤ). (p ≢ negsuc 0) × ((l : List Effect) → os.waitpid l p ≡ running))
              (sym same) runs)
            (omega arith)
      | inr (l, eq, ne, inl minus_one, le) ↦ absurd (runs.0 minus_one)
      | inr (l, eq, ne, inr dead, le) ↦ absurd (dead (runs.1 d.log))
    ]

reap_from_total :
    (os : Os) (n i : ℕ) (d : Daemon)
    → IsLively os
    → length d.children - i + 1 < n
    → (o : Outcome) × (reap_from os n i d ≡ some o)
reap_from_total os zero i d lively h = elim h [ ]
reap_from_total os (suc n) i d lively h = reap_from-suc os n i d λ j e r.
    elim (round-Progress os i j d e r) [
      | inl (same, less) ↦ reap_from_total os n j e lively (omega arith)
      | inr (l, eq, ne, dead, le) ↦
          reap_from_running os n j e (ne, λ l'. rw eq (lively l l')) (omega arith)
    ]

-- The loop over the children ends, whatever has died and whether or not `waitpid` fails, if a booster
-- that is forked on the way is not found dead in the same pass.
pub reap_zombies_total :
    (os : Os) (d : Daemon) → IsLively os → (o : Outcome) × (reap_zombies os d ≡ some o)
unfolding reap_zombies
reap_zombies_total os d lively =
    reap_from_total os (length d.children + 2 + os.spare) 0 d lively (omega arith)
