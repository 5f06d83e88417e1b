-- ===== src/Daemon/Construct/Fresh.antt =====
-- A daemon from its constructor on.
use mathlib.Core.Path.{subst}
use mapplauncherd.Base.{
  ◌≡◌, refl, ap, if◌then◌else◌, Bool, true, false, List, [], ◌∷◌, Option, none, some, Bytes, codes,
  bytes_eq, arith, ℤ, pos, All,
}
use mapplauncherd.Map.{find}
use mapplauncherd.Map.Order.{int_ord}
use mapplauncherd.SocketManager.{Inited, inited, throws}
use mapplauncherd.Daemon.State.{
  Handler, sig_dfl, sig_ign, sig_err, handler, Os, Daemon, Outcome, returns, ◌>>=◌,
  set_unix_signal_handler, fork_booster, logged, notifies_ready,
}
use mapplauncherd.Daemon.Invariant.{Inv, Inv-of_same, fork_booster-Inv}
use mapplauncherd.Daemon.Loop.{World, Ready, start, run_loop}
use mapplauncherd.Daemon.Loop.Options.{parse_args}
use mapplauncherd.Daemon.Loop.Lifetime.{bind-returns, ArePosix, run_loop-Inv}
use mapplauncherd.Daemon.Construct.{
  Host, fresh, signals, install, claim, recover, set_launcher, set_pipe, open_pipes, daemonize,
  detach, construct, keep_socket, Launcher, open_socket, notify, run, live,
}

-- The daemon knows no process yet, and was not re-executed.
record IsNew (d : Daemon) : Type 0 where
  first : d.re_exec ≡ false
  alone : d.children ≡ []
  no_booster : d.booster_pid ≡ pos 0
  no_pids : d.invoker_pids ≡ []
  no_fds : d.invoker_fds ≡ []

-- A member leaves a new daemon new.
abbrev KeepsNew : (Daemon → Outcome) → Type 0
KeepsNew f = (d e : Daemon) → IsNew d → f d ≡ returns e → IsNew e

KeepsNew-bind : (f g : Daemon → Outcome) → KeepsNew f → KeepsNew g → KeepsNew (λ d. f d >>= g)
KeepsNew-bind f g h h' d e v eq =
    let (c, fc, gc) = bind-returns (f d) g e eq in h' c e (h d c v fc) gc

-- The daemon that results is new.
IsNew-returns : (d e : Daemon) → returns d ≡ returns e → IsNew d → IsNew e
IsNew-returns d e h v = subst IsNew (cc) v

set_unix_signal_handler-KeepsNew : (s : ℤ) (o : Handler) → KeepsNew (set_unix_signal_handler s o)
unfolding set_unix_signal_handler
set_unix_signal_handler-KeepsNew s sig_dfl d e v h = ground arith
set_unix_signal_handler-KeepsNew s sig_ign d e v h = ground arith
set_unix_signal_handler-KeepsNew s sig_err d e v h = absurd (cc)
set_unix_signal_handler-KeepsNew s (handler n) d e v h = ground arith

install-KeepsNew : (old : ℤ → Handler) (ss : List ℤ) → KeepsNew (install old ss)
unfolding install
install-KeepsNew old [] d e v h = IsNew-returns d e h v
install-KeepsNew old (s ∷ ss) d e v h =
    KeepsNew-bind _ (install old ss) (set_unix_signal_handler-KeepsNew s (old s))
      (install-KeepsNew old ss) d e v h

parse_args-KeepsNew :
    (args : List Bytes)
    → All (λ a. bytes_eq a (codes "--re-exec") ≡ false) args
    → KeepsNew (parse_args args)
unfolding parse_args
parse_args-KeepsNew [] h d e v eq = IsNew-returns d e eq v
parse_args-KeepsNew (a ∷ args) (h, hs) d e v eq = ground (
  arith,
  parse_args-KeepsNew args hs (record d { boot_mode = true }) e
      (record {
        first = v.first;
        alone = v.alone;
        no_booster = v.no_booster;
        no_pids = v.no_pids;
        no_fds = v.no_fds;
      }),
  parse_args-KeepsNew args hs (record d { daemon = true }) e
      (record {
        first = v.first;
        alone = v.alone;
        no_booster = v.no_booster;
        no_pids = v.no_pids;
        no_fds = v.no_fds;
      }),
  parse_args-KeepsNew args hs (record d { debug_mode = true }) e
      (record {
        first = v.first;
        alone = v.alone;
        no_booster = v.no_booster;
        no_pids = v.no_pids;
        no_fds = v.no_fds;
      }),
  parse_args-KeepsNew args hs (record d { notify_systemd = true }) e
      (record {
        first = v.first;
        alone = v.alone;
        no_booster = v.no_booster;
        no_pids = v.no_pids;
        no_fds = v.no_fds;
      }),
  parse_args-KeepsNew args hs d e v,
)

claim-KeepsNew : (h : Host) → KeepsNew (claim h)
unfolding claim
claim-KeepsNew h d e v eq = ground arith

recover-KeepsNew : (h : Host) → KeepsNew (recover h)
unfolding recover
recover-KeepsNew h d e v eq = ground (arith, v.first)

set_launcher-KeepsNew : (p : Option (ℤ × ℤ)) → KeepsNew (set_launcher p)
unfolding set_launcher
set_launcher-KeepsNew none d e v eq = absurd (cc)
set_launcher-KeepsNew (some (a, b)) d e v eq = ground arith

set_pipe-KeepsNew : (p : Option (ℤ × ℤ)) → KeepsNew (set_pipe p)
unfolding set_pipe
set_pipe-KeepsNew none d e v eq = absurd (cc)
set_pipe-KeepsNew (some (a, b)) d e v eq = ground arith

open_pipes-KeepsNew : (h : Host) → KeepsNew (open_pipes h)
unfolding open_pipes
open_pipes-KeepsNew h d e v eq =
    let made : (set_launcher h.socketpair d >>= set_pipe h.pipe) ≡ returns e =
      ground (arith, v.first) in
    KeepsNew-bind (set_launcher h.socketpair) (set_pipe h.pipe) (set_launcher-KeepsNew h.socketpair)
      (set_pipe-KeepsNew h.pipe) d e v made

detach-KeepsNew : (h : Host) → KeepsNew (detach h)
unfolding detach daemonize
detach-KeepsNew h d e v eq = ground arith

construct-IsNew :
    (h : Host) (args : List Bytes) (d : Daemon)
    → All (λ a. bytes_eq a (codes "--re-exec") ≡ false) args
    → construct h args ≡ returns d
    → IsNew d
unfolding construct fresh
construct-IsNew h args d plain eq =
    let installs = install h.old signals in
    KeepsNew-bind (λ x. installs x >>= claim h >>= parse_args args >>= recover h >>= open_pipes h)
      (detach h)
      (KeepsNew-bind (λ x. installs x >>= claim h >>= parse_args args >>= recover h) (open_pipes h)
        (KeepsNew-bind (λ x. installs x >>= claim h >>= parse_args args) (recover h)
          (KeepsNew-bind (λ x. installs x >>= claim h) (parse_args args)
            (KeepsNew-bind installs (claim h) (install-KeepsNew h.old signals) (claim-KeepsNew h))
            (parse_args-KeepsNew args plain))
          (recover-KeepsNew h))
        (open_pipes-KeepsNew h))
      (detach-KeepsNew h) (fresh h) d
      (record { first = refl; alone = refl; no_booster = refl; no_pids = refl; no_fds = refl }) eq

keep_socket-KeepsNew : (r : Inited) → KeepsNew (keep_socket r)
unfolding keep_socket
keep_socket-KeepsNew (inited m) d e v eq = ground arith
keep_socket-KeepsNew throws d e v eq = absurd (cc)

open_socket-KeepsNew : (l : Launcher) → KeepsNew (open_socket l)
unfolding open_socket
open_socket-KeepsNew l d e v h = keep_socket-KeepsNew _ d e v h

-- The invariant holds of a new daemon that has forked its booster.
start-Inv : (os : Os) (d e : Daemon) → IsNew d → start os d ≡ returns e → Inv e
unfolding start find
start-Inv os d e v h =
    let forks : fork_booster os (pos 0) d ≡ returns e = ground (arith, v.first) in
    fork_booster-Inv os (pos 0) d e (λ p m. absurd (m (ap (find p) v.no_pids)))
      (λ p m. ap (find p) v.no_fds) forks

pub if-Inv : (b : Bool) (d e : Daemon) → Inv d → Inv e → Inv (if b then d else e)
if-Inv true d e v w = v
if-Inv false d e v w = w

pub notify-Inv : (d e : Daemon) → Inv d → notify d ≡ returns e → Inv e
unfolding notify
notify-Inv d e v h =
    let same : (if d.notify_systemd then logged notifies_ready d else d) ≡ e = cc in
    let told = Inv-of_same d (logged notifies_ready d) v refl refl refl refl in
    subst Inv same (if-Inv d.notify_systemd (logged notifies_ready d) d told v)

run-Inv : (l : Launcher) (d e : Daemon) → IsNew d → run l d ≡ returns e → Inv e
unfolding run
run-Inv l d e v h =
    let b = record d { has_booster = true } in
    let (x, ran, told) = bind-returns _ notify e h in
    let (c, opened, started) = bind-returns _ (start l.os) x ran in
    let w : IsNew b = record {
      first = v.first;
      alone = v.alone;
      no_booster = v.no_booster;
      no_pids = v.no_pids;
      no_fds = v.no_fds;
    } in
    let socket : open_socket l b ≡ returns c = ground (arith, v.first) in
    notify-Inv x e (start-Inv l.os c x (open_socket-KeepsNew l b c w socket) started) told

-- From its first fork on, and through any number of rounds of the main loop that it comes back from, a
-- daemon that was not re-executed keeps the invariant, whatever its arguments and the events are, if
-- `waitpid` neither fails nor reports a stopped child.
pub live-Inv :
    (h : Host) (args : List Bytes) (l : Launcher) (rounds : List (World × Ready)) (e : Daemon)
    → All (λ a. bytes_eq a (codes "--re-exec") ≡ false) args
    → ArePosix rounds
    → live h args l rounds ≡ returns e
    → Inv e
unfolding live
live-Inv h args l rounds e plain posix eq =
    let (c, ran, looped) = bind-returns _ (run_loop rounds) e eq in
    let (d, made, started) = bind-returns (construct h args) (run l) c ran in
    run_loop-Inv rounds c e posix (run-Inv l d c (construct-IsNew h args d plain made) started)
      looped
