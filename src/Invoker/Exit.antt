-- ===== src/Invoker/Exit.antt =====
-- The invoker's view of an application's life.
use mapplauncherd.Base.{
  ℕ, ◌<◌, ◌≡◌, ◌≢◌, refl, Bool, true, List, [], ◌∷◌, ◌++◌, none, some, Bytes, arith, word_mod,
  encode_word, decode_word-encode_word, length-encode_word, append_assoc, append-nil, map-append,
  ap, ◌∙◌, if◌then◌else◌, ℤ, pos, int_eq, int_eq_iff, All, false,
}
use mapplauncherd.Wire.{Kernel, IsReliable, Item, bytes}
use mapplauncherd.Protocol.{msg_ack, msg_pid, msg_exit}
use mapplauncherd.Connection.State.{Connection}
use mapplauncherd.Connection.Rounds.{acknowledgement}
use mapplauncherd.Daemon.State.{Effect, writes, exited}
use mapplauncherd.Daemon.Reap.Settle.{told}
use mapplauncherd.Invoker.Signals.{sigs_init, sigs_set, ends_process, ends_on-spared}
use mapplauncherd.Invoker.Wait.{
  goes, msg_read, Event, socket_ready, signal_comes, forwarding, status, kills_both, recv_msg,
  recv_ack, recv_pid, recv_exit, wait_loop, wait_for_exit, finish_invocation,
}

-- The bytes that the daemon's effects write to a descriptor.
abbrev pub written : ℤ → List Effect → Bytes
written fd [] = []
written fd (writes g (pos w) ∷ es) =
    if int_eq g fd then encode_word w ++ written fd es else written fd es
written fd (_ ∷ es) = written fd es

-- Signals that arrive, and then the application's exit.
abbrev pub after_signals : List ℕ → List Event
after_signals [] = socket_ready ∷ []
after_signals (sig ∷ sigs) = signal_comes sig ∷ after_signals sigs

-- Signals by which a process does not end by default.
abbrev pub AreSpared : List ℕ → Type 0
AreSpared = All (λ (sig : ℕ). ends_process sig ≡ false)

module _ (k : Kernel) {stream : List Item → Bytes → k.Sock} {dup : ℕ → ℕ}
    (r : IsReliable k stream dup) where
  recv_msg-word :
      (w : ℕ) (rest : List Item) (out : Bytes)
      → w < word_mod
      → recv_msg k (stream (bytes (encode_word w) ++ rest) out) ≡ ((true, w), stream rest out)
  unfolding recv_msg msg_read
  recv_msg-word w rest out h =
      rw (r.read_lem 4 (encode_word w) rest out (length-encode_word w))
        (rw (decode_word-encode_word w h, length-encode_word w) refl)

  recv_exit-words :
      (n : ℕ) (rest : List Item) (out : Bytes)
      → n < word_mod
      → recv_exit k (stream (bytes (encode_word msg_exit) ++ (bytes (encode_word n) ++ rest)) out)
        ≡ (some n, stream rest out)
  unfolding recv_exit
  recv_exit-words n rest out h =
      rw (recv_msg-word msg_exit (bytes (encode_word n) ++ rest) out (omega arith))
        (rw (recv_msg-word n rest out h))

  wait_loop-after_signals :
      (runs : Bool) (pid : ℕ) (sigs : List ℕ) (value : ℕ) (s t : k.Sock)
      → AreSpared sigs
      → recv_exit k s ≡ (some value, t)
      → wait_loop k runs pid (after_signals sigs) s ≡ status value
  unfolding wait_loop
  wait_loop-after_signals runs pid [] value s t spared h = ground arith
  wait_loop-after_signals runs pid (sig ∷ sigs) value s t spared h =
      rw (ends_on-spared sig (forwarding pid) spared.0 (unfold sigs_init sigs_set in refl))
        (wait_loop-after_signals runs pid sigs value s t spared.1 h)

  lost_loop :
      (runs : Bool) (pid : ℕ) (sigs : List ℕ) (s : k.Sock)
      → AreSpared sigs
      → (recv_exit k s).0 ≡ none
      → wait_loop k runs pid (after_signals sigs) s ≡ (if runs then kills_both pid else status 1)
  unfolding wait_loop
  lost_loop runs pid [] s spared h = ground arith
  lost_loop runs pid (sig ∷ sigs) s spared h =
      rw (ends_on-spared sig (forwarding pid) spared.0 (unfold sigs_init sigs_set in refl))
        (lost_loop runs pid sigs s spared.1 h)

  finish_lem :
      (runs : Bool) (es : List Event) (pid : ℕ) (rest : List Item) (out : Bytes)
      → pid < word_mod
      → pid ≢ 0
      → finish_invocation k true runs es (
          stream
            (bytes (encode_word msg_ack)
              ++ (bytes (encode_word msg_pid) ++ (bytes (encode_word pid) ++ rest)))
            out)
        ≡ goes (wait_loop k runs pid es (stream rest out))
  unfolding finish_invocation wait_for_exit recv_ack recv_pid
  finish_lem runs es pid rest out h ne =
      rw
        (recv_msg-word msg_ack (bytes (encode_word msg_pid) ++ (bytes (encode_word pid) ++ rest))
          out (omega arith))
        (rw (recv_msg-word msg_pid (bytes (encode_word pid) ++ rest) out (omega arith))
          (rw (recv_msg-word pid rest out h) (ground arith)))

  -- An invoker that waits, and whose connection delivers the booster's acknowledgement with a pid
  -- other than 0 and then what the daemon reports about an application that exited, ends with the
  -- application's exit status, whatever signals come before that do not end a process by default.
  pub finish_invocation_exit :
      (c : Connection k) (invoker fd : ℤ) (runs : Bool) (sigs : List ℕ) (value : ℕ)
      (rest : List Item) (out : Bytes)
      → AreSpared sigs
      → c.send_pid ≡ true
      → k.getpid < word_mod
      → k.getpid ≢ 0
      → value < word_mod
      → finish_invocation k true runs (after_signals sigs) (
          stream
            (bytes (acknowledgement c ++ written fd (told invoker fd (exited value))) ++ rest)
            out)
        ≡ goes (status value)
  finish_invocation_exit c invoker fd runs sigs value rest out spared asked pid_lt pid_ne value_lt =
      rw (asked, (int_eq_iff fd fd).1 refl)
        (simp (append_assoc, map-append, append-nil)
          (finish_lem runs (after_signals sigs) k.getpid
              (bytes (encode_word msg_exit) ++ (bytes (encode_word value) ++ rest)) out pid_lt
              pid_ne
            ∙ ap goes (
                wait_loop-after_signals runs k.getpid sigs value _ _ spared
                  (recv_exit-words value rest out value_lt))))

  -- An invoker that waits, and whose connection ends behind the acknowledgement, fails with status 1
  -- if the application is gone, and otherwise kills the application and itself: it never waits on,
  -- whatever signals come before that do not end a process by default.
  pub finish_invocation_lost :
      (c : Connection k) (runs : Bool) (sigs : List ℕ) (rest : List Item) (out : Bytes)
      → AreSpared sigs
      → c.send_pid ≡ true
      → k.getpid < word_mod
      → k.getpid ≢ 0
      → (recv_exit k (stream rest out)).0 ≡ none
      → finish_invocation k true runs
          (after_signals sigs)
          (stream (bytes (acknowledgement c) ++ rest) out)
        ≡ goes (if runs then kills_both k.getpid else status 1)
  finish_invocation_lost c runs sigs rest out spared asked pid_lt pid_ne lost = rw asked (
      simp (append_assoc, map-append)
        (finish_lem runs (after_signals sigs) k.getpid rest out pid_lt pid_ne
          ∙ ap goes (lost_loop runs k.getpid sigs _ spared lost)))
