-- ===== src/Daemon/Construct/Again.antt =====
-- A daemon that starts again from the state that it saved.
use mapplauncherd.Base.{
  ℕ, ◌≡◌, ◌≢◌, refl, ap, ◌∙◌, true, false, List, [], ◌∷◌, some, Bytes, codes, if◌then◌else◌, arith,
  ℤ, int_eq,
}
use mapplauncherd.Map.{Map, find, insert}
use mapplauncherd.Map.Order.{int_ord, bytes_ord}
use mapplauncherd.Map.Laws.{IsSorted}
use mapplauncherd.Daemon.State.{
  Handler, sig_dfl, sig_ign, sig_err, handler, Daemon, Outcome, returns, execs, ◌>>=◌, sighup,
  set_unix_signal_handler,
}
use mapplauncherd.Daemon.Saved.{Storage, saved_state, re_exec, restored, restore_state}
use mapplauncherd.Daemon.Saved.Entries.{IsFaithful, AreWords}
use mapplauncherd.Daemon.Saved.RoundTrip.{with_state_of, restore_state-saved_state}
use mapplauncherd.Daemon.Loop.Options.{parse_args, spaces, parse_args-re_exec}
use mapplauncherd.Daemon.Construct.{
  Host, fresh, signals, install, claim, settled, drop_state, recover, open_pipes, detach, construct,
}

-- The handler that is kept for the boosters, where the old one is `o`.
abbrev pub kept : ℤ → Handler → Handler
kept s sig_ign = if int_eq s sighup then sig_dfl else sig_ign
kept s o = o

abbrev pub installed : (ℤ → Handler) → List ℤ → Map ℤ Handler → Map ℤ Handler
installed old [] m = m
installed old (s ∷ ss) m = installed old ss (insert s (kept s (old s)) m)

set_unix_signal_handler_lem :
    (s : ℤ) (o : Handler) (d : Daemon)
    → o ≢ sig_err
    → set_unix_signal_handler s o d
      ≡ returns (record d { sig_handlers = insert s (kept s o) d.sig_handlers })
unfolding set_unix_signal_handler
set_unix_signal_handler_lem s sig_dfl d h = refl
set_unix_signal_handler_lem s sig_ign d h = ground arith
set_unix_signal_handler_lem s sig_err d h = absurd (h refl)
set_unix_signal_handler_lem s (handler n) d h = refl

install_lem :
    (old : ℤ → Handler) (ss : List ℤ) (d : Daemon)
    → ((s : ℤ) → old s ≢ sig_err)
    → install old ss d ≡ returns (record d { sig_handlers = installed old ss d.sig_handlers })
unfolding install
install_lem old [] d h = refl
install_lem old (s ∷ ss) d h =
    ap (λ o. o >>= install old ss) (set_unix_signal_handler_lem s (old s) d (h s))
    ∙ install_lem old ss (record d { sig_handlers = insert s (kept s (old s)) d.sig_handlers }) h

-- The new daemon, with its option read.
abbrev renewed : Host → Daemon
renewed h = record (fresh h) { re_exec = true; sig_handlers = installed h.old signals [] }

recover_lem :
    (h : Host) (d : Daemon)
    → restore_state h.streams h.my_pid h.state_file (renewed h)
      ≡ some (restored (with_state_of d (renewed h)))
    → recover h (renewed h) ≡ returns (drop_state (with_state_of d (renewed h)))
unfolding recover settled
recover_lem h d e = rw e

-- A daemon that has its state back opens nothing, and is no daemon that detaches.
recovered_lem :
    (h : Host) (x : Daemon)
    → x.re_exec ≡ true
    → x.daemon ≡ false
    → (returns (drop_state x) >>= open_pipes h >>= detach h) ≡ returns (drop_state x)
unfolding drop_state open_pipes detach
recovered_lem h x again plain = ground arith

re_exec_lem :
    (h : Host) (fs : Storage) (d d' : Daemon) (ws : List Bytes)
    → re_exec h.streams fs h.my_pid d ≡ execs ws d'
    → ws ≡ saved_state h.streams h.my_pid d
unfolding re_exec
re_exec_lem h fs d d' ws e = ground arith

-- The image by which a daemon replaces itself constructs a daemon with the state of the old one, all of
-- it, if the process stays the same, the state file holds what was written, no daemon exists in the new
-- image and `signal` does not fail; it makes no sockets and pipes of its own, stays in the foreground, and removes the
-- state file unless the old daemon was in debug mode.
-- Numbers must read back as they were written, the names of the sockets as single words, and the maps must
-- be in the order of their keys.
pub construct-re_exec :
    (h : Host) (fs : Storage) (d d' : Daemon) (n : ℕ)
    → IsFaithful h.streams
    → IsSorted d.invoker_pids
    → IsSorted d.invoker_fds
    → IsSorted d.sockets
    → AreWords h.streams d.sockets
    → h.created ≡ false
    → ((s : ℤ) → h.old s ≢ sig_err)
    → re_exec h.streams fs h.my_pid d ≡ execs h.state_file d'
    → construct h (codes "--re-exec" ∷ spaces n ∷ [])
      ≡ returns (
          drop_state (
            with_state_of d
              (record (fresh h) { re_exec = true; sig_handlers = installed h.old signals [] })))
unfolding construct claim open_pipes detach fresh drop_state
construct-re_exec h fs d d' n ok sp sf ss words alone fine saved =
    let f = record (fresh h) { sig_handlers = installed h.old signals [] } in
    let all = λ (o : Outcome).
      o
      >>= claim h
      >>= parse_args (codes "--re-exec" ∷ spaces n ∷ [])
      >>= recover h
      >>= open_pipes h
      >>= detach h in
    let rest = λ (o : Outcome). o >>= recover h >>= open_pipes h >>= detach h in
    ap all (install_lem h.old signals (fresh h) fine)
    ∙ ap
        (λ b. rest (
          (if b then Outcome.throws f else returns f)
          >>= parse_args (codes "--re-exec" ∷ spaces n ∷ [])))
        alone
    ∙ ap rest (parse_args-re_exec n f)
    ∙ ap (λ o. o >>= open_pipes h >>= detach h)
        (recover_lem h d (
          ap (λ w. restore_state h.streams h.my_pid w (renewed h))
            (re_exec_lem h fs d d' h.state_file saved)
          ∙ restore_state-saved_state h.streams ok h.my_pid d (renewed h) sp sf ss words))
    ∙ recovered_lem h (with_state_of d (renewed h)) refl refl

-- The handler of SIGHUP that a daemon started again keeps for its boosters is the default one.
installed-sighup :
    (old : ℤ → Handler)
    → old sighup ≡ sig_ign
    → find sighup (installed old signals []) ≡ some sig_dfl
unfolding find insert
installed-sighup old h = rw h refl
