-- ===== src/ExitStatus.antt =====
-- How an application's exit status comes to its invoker, through the booster and the daemon.
use mapplauncherd.Base.{
  ℕ, ◌<◌, ◌≡◌, ◌≢◌, inl, inr, refl, sym, ap, ◌∙◌, Bool, true, List, [], ◌∷◌, ◌++◌, some, Bytes,
  word_mod, ℤ, pos, int_eq, int_eq_iff,
}
use mapplauncherd.Map.{find}
use mapplauncherd.Map.Order.{int_ord}
use mapplauncherd.Wire.{Kernel, IsReliable, Item, bytes}
use mapplauncherd.AppData.{AppData}
use mapplauncherd.Connection.State.{Connection, is_report_app_exit_status_needed}
use mapplauncherd.Connection.Rounds.{acknowledgement}
use mapplauncherd.Daemon.State.{Effect, exited, died, Os, Daemon, returns}
use mapplauncherd.Daemon.Reap.Alive.{IsSnapshot}
use mapplauncherd.Daemon.Invariant.{Inv}
use mapplauncherd.Daemon.Loop.{
  Message, arrived, sigchld, World, Ready, run_loop, read_from_booster_socket,
}
use mapplauncherd.Daemon.Loop.Lifetime.{
  read_cases, mapped, read_from_booster_socket-Inv, read_from_booster_socket_hands_over,
}
use mapplauncherd.Daemon.Spec.{notice, visible}
use mapplauncherd.Daemon.Spec.Lifelong.{fork_booster-pid}
use mapplauncherd.Daemon.Spec.Waiting.{AllKeep, run_loop-Notifies}
use mapplauncherd.Booster.Launch.{invokers_pid, send_data_to_parent}
use mapplauncherd.Invoker.Wait.{goes, status, finish_invocation}
use mapplauncherd.Invoker.Exit.{AreSpared, written, after_signals, finish_invocation_exit}

-- The invoker `invoker` of the process `p`, and the descriptor to it.
handed_over :
    (os : Os) (m : Message) (invoker fd : ℤ) (d e : Daemon)
    → m.invoker_pid ≡ invoker
    → m.fd ≡ some fd
    → invoker ≢ pos 0
    → d.booster_pid ≢ pos 0
    → read_from_booster_socket os (some m) d ≡ returns e
    → (find d.booster_pid e.invoker_pids ≡ some invoker)
      × (find d.booster_pid e.invoker_fds ≡ some fd)
handed_over os m invoker fd d e i f ne ne' h =
    let (maps, _, _) = read_from_booster_socket_hands_over os m fd d e f (λ z. ne (cc)) ne' h in
    let (pids, fds) = maps d.booster_pid in
    let same : int_eq d.booster_pid d.booster_pid ≡ true =
      (int_eq_iff d.booster_pid d.booster_pid).1 refl in
    (pids ∙ rw same (ap some i), fds ∙ rw same refl)

-- The booster of the next application is another process.
next_booster :
    (os : Os) (m : Message) (d e : Daemon)
    → ((l : List Effect) → os.fork l ≢ d.booster_pid)
    → read_from_booster_socket os (some m) d ≡ returns e
    → e.booster_pid ≢ d.booster_pid
next_booster os m d e fresh h = elim (read_cases os m d e h) [
  | inl forks ↦ λ z. fresh d.log (sym (fork_booster-pid os m.delay d e forks).0 ∙ z)
  | inr (fd, _, _, forks, _) ↦
      λ z. fresh d.log (sym (fork_booster-pid os m.delay (mapped m.invoker_pid fd d) e forks).0 ∙ z)
]

module _ {k : Kernel} {stream : List Item → Bytes → k.Sock} {dup : ℕ → ℕ}
    (r : IsReliable k stream dup) where
  -- A booster that becomes the application of a waiting invoker hands it over to the daemon, which receives
  -- the descriptor to the invoker under a number of its own. The main loop goes on through any rounds, in
  -- which other applications start and end, and in one of them a child's signal comes when the application
  -- has exited. When the loop is back from the rounds that follow, the daemon has sent a notice, through the
  -- descriptor that it received; and what the notice writes to that descriptor makes the invoker end with
  -- the application's own status, behind the booster's acknowledgement and any signals by which a process
  -- does not end by default. The booster has a pid, and the invoker's is not 0; the invariant holds at the
  -- start. The message must be handled and the rounds must return; in them `waitpid` neither fails nor
  -- reports a stopped child, and says of the application only that it runs or that it exited with this
  -- status; its pid is given to no other child; and no process dies while the daemon goes over its children
  -- in the round of the signal. The pids and the status must fit their words.
  pub exit_status_delivered :
      (c : Connection k) (a : AppData) (os : Os) (d d1 d2 : Daemon)
      (earlier later : List (World × Ready)) (w : World) (x : Ready) (new_fd : ℤ → ℤ) (fd : ℕ)
      (sigs : List ℕ) (value : ℕ) (runs : Bool) (rest : List Item) (out : Bytes)
      → AreSpared sigs
      → c.send_pid ≡ true
      → c.fd ≡ some fd
      → invokers_pid c ≢ pos 0
      → k.getpid < word_mod
      → k.getpid ≢ 0
      → value < word_mod
      → Inv d
      → d.booster_pid ≢ pos 0
      → ((l : List Effect) → os.fork l ≢ d.booster_pid)
      → read_from_booster_socket os (some (arrived new_fd (send_data_to_parent a c))) d ≡ returns d1
      → AllKeep d.booster_pid (exited value) (earlier ++ (w, x) ∷ later)
      → x.signal ≡ some sigchld
      → IsSnapshot w.os
      → w.os.waitpid [] d.booster_pid ≡ died (exited value)
      → run_loop (earlier ++ (w, x) ∷ later) d1 ≡ returns d2
      → (sent : List Effect) × (before : List Effect) × (after : List Effect) × (sent
          ≡ notice (invokers_pid c) (some (new_fd (pos fd))) (exited value))
        × (visible d2.log ≡ before ++ (sent ++ after))
        × (finish_invocation k true runs
              (after_signals sigs)
              (stream (bytes (acknowledgement c ++ written (new_fd (pos fd)) sent) ++ rest) out)
            ≡ goes (status value))
  exit_status_delivered c a os d d1 d2 earlier later w x new_fd fd sigs value runs rest out spared
        asked at_fd ne pid_lt pid_ne value_lt v ne' fresh handled keeps chld snap dead ran =
      let m = arrived new_fd (send_data_to_parent a c) in
      let to = new_fd (pos fd) in
      let at_m : m.fd ≡ some to =
        unfold send_data_to_parent is_report_app_exit_status_needed in rw (asked, at_fd) in
      let invoker_m : m.invoker_pid ≡ invokers_pid c = unfold send_data_to_parent in refl in
      let told = handed_over os m (invokers_pid c) to d d1 invoker_m at_m ne ne' handled in
      let (before, after, h) =
        run_loop-Notifies d.booster_pid (invokers_pid c) to (exited value) earlier later w x d1 d2
          keeps (read_from_booster_socket-Inv os (some m) d d1 v handled) told
          (next_booster os m d d1 fresh handled) chld snap dead ran in
      (
        _,
        before,
        after,
        refl,
        h,
        finish_invocation_exit k r c (invokers_pid c) to runs sigs value rest out spared asked
            pid_lt pid_ne value_lt,
      )
