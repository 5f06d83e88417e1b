-- ===== src/Daemon/Construct/Onward.antt =====
-- A daemon that lives on in a new image.
use mathlib.Core.Path.{subst}
use mapplauncherd.Base.{
  ℕ, ◌≡◌, ◌≢◌, refl, sym, ◌∙◌, true, false, List, [], ◌∷◌, Option, none, some, codes, arith, ℤ,
  Bool, if◌then◌else◌,
}
use mapplauncherd.Map.Order.{int_ord, bytes_ord}
use mapplauncherd.Map.Laws.{IsSorted}
use mapplauncherd.Daemon.State.{sig_err, Daemon, Outcome, returns, execs, logged, removes_state}
use mapplauncherd.Daemon.Reap.{reap_zombies}
use mapplauncherd.Daemon.Invariant.{Inv, IsPosix, Inv-of_same, reap_zombies-Inv}
use mapplauncherd.Daemon.Saved.{Storage, re_exec}
use mapplauncherd.Daemon.Saved.Entries.{IsFaithful, AreWords}
use mapplauncherd.Daemon.Saved.RoundTrip.{with_state_of}
use mapplauncherd.Daemon.Loop.{World, Ready, or_stuck, start, run_loop}
use mapplauncherd.Daemon.Loop.Options.{spaces}
use mapplauncherd.Daemon.Loop.Lifetime.{bind-returns, ArePosix, run_loop-Inv}
use mapplauncherd.Daemon.Construct.{
  Host, fresh, signals, construct, Launcher, drop_state, notify, run, live,
}
use mapplauncherd.Daemon.Construct.Fresh.{if-Inv, notify-Inv}
use mapplauncherd.Daemon.Construct.Again.{installed, construct-re_exec}

stuck_cases : (o : Option Outcome) (d e : Daemon) → or_stuck o d ≡ returns e → o ≡ some (returns e)
stuck_cases none d e h = absurd (cc)
stuck_cases (some o) d e h = cc

-- The first pass over the children, before the main loop.
run-Inv :
    (l : Launcher) (d e : Daemon)
    → IsPosix l.os
    → d.re_exec ≡ true
    → Inv d
    → run l d ≡ returns e
    → Inv e
unfolding run start
run-Inv l d e posix again v h =
    let b = record d { has_booster = true } in
    let (x, ran, told) = bind-returns _ notify e h in
    let (c, same, first) = bind-returns _ (start l.os) x ran in
    let pass : or_stuck (reap_zombies l.os b) b ≡ returns x = ground (arith, again) in
    let kept = Inv-of_same d b v refl refl refl refl in
    notify-Inv x e (reap_zombies-Inv l.os b x posix kept (stuck_cases _ b x pass)) told

if-again :
    (b : Bool) (d e : Daemon) → e.re_exec ≡ d.re_exec → (if b then d else e).re_exec ≡ d.re_exec
if-again true d e h = refl
if-again false d e h = h

drop_state-Inv : (d : Daemon) → Inv d → Inv (drop_state d) × ((drop_state d).re_exec ≡ d.re_exec)
unfolding drop_state
drop_state-Inv d v =
    let dropped = Inv-of_same d (logged removes_state d) v refl refl refl refl in
    (
      if-Inv d.debug_mode d (logged removes_state d) v dropped,
      if-again d.debug_mode d (logged removes_state d) refl,
    )

-- A daemon for which the invariant holds when it replaces its own image, and whose new image finds what
-- was written, keeps the invariant in that image, through its first pass over the children and through any
-- number of rounds of the main loop that it comes back from, if `waitpid` neither fails nor reports a
-- stopped child. The process must stay the same, and `signal` must not fail; numbers must read back as
-- they were written, the names of the sockets as single words, and the maps must be in the order of their
-- keys.
pub live_again-Inv :
    (h : Host) (fs : Storage) (d d' e : Daemon) (n : ℕ) (l : Launcher)
    (rounds : List (World × Ready))
    → IsFaithful h.streams
    → IsSorted d.invoker_pids
    → IsSorted d.invoker_fds
    → IsSorted d.sockets
    → AreWords h.streams d.sockets
    → h.created ≡ false
    → ((s : ℤ) → h.old s ≢ sig_err)
    → IsPosix l.os
    → ArePosix rounds
    → Inv d
    → re_exec h.streams fs h.my_pid d ≡ execs h.state_file d'
    → live h (codes "--re-exec" ∷ spaces n ∷ []) l rounds ≡ returns e
    → Inv e
unfolding live
live_again-Inv h fs d d' e n l rounds ok sp sf ss words alone fine posix all v saved lives =
    let (c, ran, looped) = bind-returns _ (run_loop rounds) e lives in
    let (b, made, started) =
      bind-returns (construct h (codes "--re-exec" ∷ spaces n ∷ [])) (run l) c ran in
    let f = record (fresh h) { re_exec = true; sig_handlers = installed h.old signals [] } in
    let same : returns (drop_state (with_state_of d f)) ≡ returns b =
      sym (construct-re_exec h fs d d' n ok sp sf ss words alone fine saved) ∙ made in
    let same' : drop_state (with_state_of d f) ≡ b = cc in
    let old : Inv (with_state_of d f) = Inv-of_same d (with_state_of d f) v refl refl refl refl in
    let (kept', again') = drop_state-Inv (with_state_of d f) old in
    let kept : Inv b = subst Inv same' kept' in
    let again : b.re_exec ≡ true = subst (λ x. x.re_exec ≡ true) same' (again' ∙ refl) in
    run_loop-Inv rounds c e all (run-Inv l b c posix again kept started) looped
