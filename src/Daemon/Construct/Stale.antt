-- ===== src/Daemon/Construct/Stale.antt =====
-- A daemon that starts again and finds a state file that is not its own.
use mapplauncherd.Base.{
  ◌≡◌, ◌≢◌, ◌⊎◌, inl, inr, ap, ◌∙◌, true, List, ◌∷◌, some, Bytes, codes, bytes_eq, bytes_eq_iff,
  arith, ℤ, int_eq_iff,
}
use mapplauncherd.Daemon.State.{Daemon, returns, throws, ◌>>=◌}
use mapplauncherd.Daemon.Saved.{Streams, uncaught, restore_state}
use mapplauncherd.Daemon.Loop.Options.{parse_args}
use mapplauncherd.Daemon.Construct.{
  Host, fresh, signals, install, claim, settled, recover, open_pipes, detach, construct,
}

-- The first word is not `my-pid`, or the second is the number of another process.
abbrev pub IsStale : Streams → ℤ → List Bytes → Type 0
IsStale st my_pid ws =
    ((w : Bytes) × (rest : List Bytes) × (ws ≡ w ∷ rest) × (w ≢ codes "my-pid"))
    ⊎ ((p : Bytes) × (rest : List Bytes) × (z : ℤ) × (ws ≡ codes "my-pid" ∷ p ∷ rest)
        × (st.parse p ≡ some z)
        × (z ≢ my_pid))

foreign_lem :
    (st : Streams) (my_pid : ℤ) (w : Bytes) (rest : List Bytes) (d : Daemon)
    → w ≢ codes "my-pid"
    → restore_state st my_pid (w ∷ rest) d ≡ some uncaught
unfolding restore_state
foreign_lem st my_pid w rest d h = ground (arith, bytes_eq_iff w (codes "my-pid"))

other_pid_lem :
    (st : Streams) (my_pid z : ℤ) (p : Bytes) (rest : List Bytes) (d : Daemon)
    → st.parse p ≡ some z
    → z ≢ my_pid
    → restore_state st my_pid (codes "my-pid" ∷ p ∷ rest) d ≡ some uncaught
unfolding restore_state bytes_eq
other_pid_lem st my_pid z p rest d e other = ground (arith, int_eq_iff z my_pid)

restore_state-uncaught :
    (st : Streams) (my_pid : ℤ) (ws : List Bytes) (d : Daemon)
    → IsStale st my_pid ws
    → restore_state st my_pid ws d ≡ some uncaught
restore_state-uncaught st my_pid ws d (inl (w, rest, e, bad)) =
    ap (λ x. restore_state st my_pid x d) e ∙ foreign_lem st my_pid w rest d bad
restore_state-uncaught st my_pid ws d (inr (p, rest, z, e, number, other)) =
    ap (λ x. restore_state st my_pid x d) e ∙ other_pid_lem st my_pid z p rest d number other

recover_lem :
    (h : Host) (d : Daemon)
    → d.re_exec ≡ true
    → recover h d ≡ settled (restore_state h.streams h.my_pid h.state_file d) d
unfolding recover
recover_lem h d again = ground arith

recover_stale :
    (h : Host) (d : Daemon)
    → d.re_exec ≡ true
    → IsStale h.streams h.my_pid h.state_file
    → recover h d ≡ throws d
unfolding settled
recover_stale h d again stale =
    recover_lem h d again
    ∙ ap (λ o. settled o d) (restore_state-uncaught h.streams h.my_pid h.state_file d stale)

-- A daemon that is told to start again, and finds a state file whose first word is not `my-pid`, or whose
-- second word is the number of another process, ends in its constructor by an exception, and not with the
-- status 1 with which it ends on other bad files: it is as the parsing of its arguments left it, so it has
-- neither restored anything nor removed the file, and makes no sockets and pipes and does not fork.
pub construct_stale :
    (h : Host) (args : List Bytes) (d : Daemon)
    → (install h.old signals (fresh h) >>= claim h >>= parse_args args) ≡ returns d
    → d.re_exec ≡ true
    → IsStale h.streams h.my_pid h.state_file
    → construct h args ≡ throws d
unfolding construct
construct_stale h args d started again stale =
    ap (λ o. o >>= recover h >>= open_pipes h >>= detach h) started
    ∙ ap (λ o. o >>= open_pipes h >>= detach h) (recover_stale h d again stale)
