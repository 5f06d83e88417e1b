-- ===== src/Daemon/Invariant.antt =====
-- What holds of the daemon between two events.
use mathlib.Core.Path.{subst}
use mapplauncherd.Base.{
  ℕ, zero, suc, ◌≡◌, ◌≢◌, ◌⊎◌, refl, sym, ap, ◌∙◌, inl, inr, Bool, true, false, ◌||◌, List, [], ◌∷◌,
  ◌++◌, none, some, arith, ℤ, pos, int_eq, int_eq_iff, get_elem?, erase_at, Option-cases,
  Bool-cases, length, ◌+◌,
}
use mapplauncherd.Map.{find}
use mapplauncherd.Map.Order.{int_ord}
use mapplauncherd.Daemon.State.{
  Effect, waits, Wait, running, failed, died, Status, stopped, Os, Daemon, returns, logged,
  fork_booster,
}
use mapplauncherd.Daemon.Reap.{
  bury, restart, reap_child, next_index, next, next_round, reap_round, reap_from, reap_zombies,
}
use mapplauncherd.Daemon.Reap.Total.{bury_keeps, next_round-next}
use mapplauncherd.Daemon.Reap.Alive.{reap_from-returns}
use mapplauncherd.Daemon.Reap.Settle.{bury_pids, bury_fds}

abbrev pub has : ℤ → List ℤ → Bool
has p [] = false
has p (x ∷ xs) = int_eq x p || has p xs

-- The booster is one of the children, if there is a booster; every process with an invoker is one;
-- and only a process with an invoker has a descriptor to it.
pub record Inv (d : Daemon) : Type 0 where
  pub booster : (d.booster_pid ≡ pos 0) ⊎ (has d.booster_pid d.children ≡ true)
  pub tracked : (p : ℤ) → find p d.invoker_pids ≢ none → has p d.children ≡ true
  pub paired : (p : ℤ) → find p d.invoker_pids ≡ none → find p d.invoker_fds ≡ none

-- `waitpid` succeeds on the daemon's own children, and reports exits and deaths by signal only.
abbrev pub IsPosix : Os → Type 0
IsPosix os = (l : List Effect) (p : ℤ) → (os.waitpid l p ≢ failed) × (os.waitpid l p ≢ died stopped)

has-append : (p : ℤ) (xs ys : List ℤ) → has p xs ≡ true → has p (xs ++ ys) ≡ true
has-append p [] ys h = absurd (cc)
has-append p (x ∷ xs) ys h = ground (arith, has-append p xs ys)

has-concat : (p : ℤ) (xs : List ℤ) → has p (xs ++ p ∷ []) ≡ true
has-concat p [] = ground (arith, int_eq_iff p p)
has-concat p (x ∷ xs) = ground (arith, has-concat p xs)

has-erase_at :
    (p : ℤ) (i : ℕ) (xs : List ℤ) {q : ℤ}
    → get_elem? xs i ≡ some q
    → int_eq q p ≡ false
    → has p xs ≡ true
    → has p (erase_at i xs) ≡ true
has-erase_at p i [] e ne h = absurd (cc)
has-erase_at p zero (x ∷ xs) e ne h = ground arith
has-erase_at p (suc i) (x ∷ xs) e ne h = ground (arith, has-erase_at p i xs e ne)

-- A process is forked, and is the booster from then on.
pub fork_booster-Inv :
    (os : Os) (t : ℤ) (d e : Daemon)
    → ((p : ℤ) → find p d.invoker_pids ≢ none → has p d.children ≡ true)
    → ((p : ℤ) → find p d.invoker_pids ≡ none → find p d.invoker_fds ≡ none)
    → fork_booster os t d ≡ returns e
    → Inv e
unfolding fork_booster
fork_booster-Inv os t d e tracked paired h =
    let n = os.fork d.log in
    let kids : d.children ++ n ∷ [] ≡ e.children = ground arith in
    let boos : n ≡ e.booster_pid = ground arith in
    let pids : d.invoker_pids ≡ e.invoker_pids = ground arith in
    let fds : d.invoker_fds ≡ e.invoker_fds = ground arith in
    record {
      booster = inr (ground (arith, has-concat n d.children));
      tracked = λ p m.
          subst (λ xs. has p xs ≡ true) kids
            (has-append p d.children (n ∷ [])
              (tracked p (subst (λ m'. find p m' ≢ none) (sym pids) m)));
      paired = λ p m.
          subst (λ m'. find p m' ≡ none) fds
            (paired p (subst (λ m'. find p m' ≡ none) (sym pids) m));
    }

module _ (os : Os) (i : ℕ) (pid : ℤ) (s : Status) (d c : Daemon) (v : Inv d)
    (at_i : get_elem? d.children i ≡ some pid) (real : s ≢ stopped)
    (kids : c.children ≡ erase_at i d.children) (boos : c.booster_pid ≡ d.booster_pid)
    (pids : c.invoker_pids ≡ d.invoker_pids) (fds : c.invoker_fds ≡ d.invoker_fds) where
  abbrev buried : Daemon
  buried = bury pid s (find pid c.invoker_pids) c

  buried_child :
      (p : ℤ) → int_eq pid p ≡ false → has p d.children ≡ true → has p buried.children ≡ true
  buried_child p ne h =
      subst (λ xs. has p xs ≡ true) (sym ((bury_keeps pid s (find pid c.invoker_pids) c).0 ∙ kids))
        (has-erase_at p i d.children at_i ne h)

  buried_tracked : (p : ℤ) → find p buried.invoker_pids ≢ none → has p buried.children ≡ true
  buried_tracked p m = elim (Bool-cases (int_eq pid p)) [
    | inl hit ↦ absurd (m (bury_pids pid p s c ∙ rw hit))
    | inr miss ↦
        buried_child p miss
          (v.tracked p λ n. m (bury_pids pid p s c ∙ rw miss (ap (find p) pids ∙ n)))
  ]

  paired_c : (p : ℤ) → find p c.invoker_pids ≡ none → find p c.invoker_fds ≡ none
  paired_c p m = ap (find p) fds ∙ v.paired p (sym (ap (find p) pids) ∙ m)

  buried_paired : (p : ℤ) → find p buried.invoker_pids ≡ none → find p buried.invoker_fds ≡ none
  buried_paired p m =
      bury_fds pid p s c real (paired_c pid) ∙ ground (arith, bury_pids pid p s c, paired_c p)

  same_booster : buried.booster_pid ≡ d.booster_pid
  same_booster = (bury_keeps pid s (find pid c.invoker_pids) c).1 ∙ boos

  buried-Inv : int_eq pid buried.booster_pid ≡ false → Inv buried
  buried-Inv miss = record {
    booster = elim v.booster [
      | inl gone ↦ inl (same_booster ∙ gone)
      | inr there ↦ inr (
          buried_child buried.booster_pid miss
            (subst (λ p. has p d.children ≡ true) (sym same_booster) there))
    ];
    tracked = buried_tracked;
    paired = buried_paired;
  }

  restart-Inv : (e : Daemon) → restart os pid buried ≡ returns e → Inv e
  unfolding restart
  restart-Inv e h = elim (Bool-cases (int_eq pid buried.booster_pid)) [
    | inl hit ↦ fork_booster-Inv os _ buried e buried_tracked buried_paired (rw (hit, restart) at h)
    | inr miss ↦
        let same : returns buried ≡ returns e = rw (miss, restart) at h in
        subst Inv (cc) (buried-Inv miss)
  ]

pub Inv-of_same :
    (d e : Daemon)
    → Inv d
    → e.children ≡ d.children
    → e.booster_pid ≡ d.booster_pid
    → e.invoker_pids ≡ d.invoker_pids
    → e.invoker_fds ≡ d.invoker_fds
    → Inv e
Inv-of_same d e v k b p f = record {
  booster = ground (arith, v.booster);
  tracked =
      λ q m. subst (λ xs. has q xs ≡ true) (sym k) (v.tracked q (subst (λ x. find q x ≢ none) p m));
  paired =
      λ q m. subst (λ x. find q x ≡ none) (sym f) (v.paired q (subst (λ x. find q x ≡ none) p m));
}

child-Inv :
    (os : Os) (i j : ℕ) (pid : ℤ) (w : Wait) (d e : Daemon)
    → Inv d
    → w ≢ failed
    → w ≢ died stopped
    → get_elem? d.children i ≡ some pid
    → next_round (next_index i w) (reap_child os i pid w (logged (waits pid) d)) ≡ next j e
    → Inv e
unfolding reap_child
child-Inv os i j pid running d e v nf ns at_i h =
    let (eq, k) = next_round-next _ j (returns (logged (waits pid) d)) e h in
    let same : logged (waits pid) d ≡ e = cc in
    subst Inv same (Inv-of_same d (logged (waits pid) d) v refl refl refl refl)
child-Inv os i j pid failed d e v nf ns at_i h = absurd (nf refl)
child-Inv os i j pid (died s) d e v nf ns at_i h =
    let (eq, k) = next_round-next _ j _ e h in
    restart-Inv os i pid s d _ v at_i (λ st. ns (ap died st)) refl refl refl refl e eq

round-Inv :
    (os : Os) (i j : ℕ) (d e : Daemon) → IsPosix os → Inv d → reap_round os i d ≡ next j e → Inv e
unfolding reap_round
round-Inv os i j d e posix v h = elim (Option-cases (get_elem? d.children i)) [
  | inl none_left ↦ absurd (cc (rw (none_left, reap_round) at h))
  | inr (pid, at_i) ↦
      let p = posix d.log pid in
      child-Inv os i j pid (os.waitpid d.log pid) d e v p.0 p.1 at_i (rw (at_i, reap_round) at h)
]

reap_from-Inv :
    (os : Os) (n i : ℕ) (d e : Daemon)
    → IsPosix os
    → Inv d
    → reap_from os n i d ≡ some (returns e)
    → Inv e
reap_from-Inv os zero i d e posix v h =
    let spent : none ≡ some (returns e) = unfold reap_from in h in absurd (cc)
reap_from-Inv os (suc n) i d e posix v h = elim (reap_from-returns os n i d e h) [
  | inl (at_end, same) ↦ subst Inv same v
  | inr (j, d', q, later) ↦ reap_from-Inv os n j d' e posix (round-Inv os i j d d' posix v q) later
]

-- `reapZombies` keeps the invariant, however many children have died, and in whatever order, if
-- `waitpid` neither fails nor reports a stopped child.
pub reap_zombies-Inv :
    (os : Os) (d e : Daemon) → IsPosix os → Inv d → reap_zombies os d ≡ some (returns e) → Inv e
unfolding reap_zombies
reap_zombies-Inv os d e posix v h =
    reap_from-Inv os (length d.children + 2 + os.spare) 0 d e posix v h
