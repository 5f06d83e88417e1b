-- ===== src/Daemon/Saved/RoundTrip.antt =====
-- What `reExec` saves, `restoreState` restores.
use mapplauncherd.Base.{
  ℕ, zero, suc, ◌<◌, ◌≡◌, refl, ◌∙◌, List, [], ◌∷◌, ◌++◌, some, Bytes, codes, bytes_eq, arith, ℤ,
  int_eq_iff, length,
}
use mapplauncherd.Map.Order.{int_ord, bytes_ord}
use mapplauncherd.Map.Laws.{IsSorted, insert_all, insert_all-nil}
use mapplauncherd.Daemon.State.{Daemon}
use mapplauncherd.Daemon.Saved.{
  Streams, show_bool, child_lines, pair_lines, socket_lines, saved_state, complete, read_entry,
  read_entries, restored, restore_state,
}
use mapplauncherd.Daemon.Saved.Entries.{
  IsFaithful, Reads, AreWords, Reads-booster_pid, Reads-boot_mode, Reads-child_lines,
  Reads-debug_mode, Reads-invoker_fds, Reads-invoker_pids, Reads-launcher_socket, Reads-sigpipe_fd,
  Reads-socket_lines, Reads-trans,
}

-- A daemon as its constructor leaves it before `restoreState`: nothing in its containers.
abbrev pub blank : Daemon → Daemon
blank f = record f { children = []; invoker_pids = []; invoker_fds = []; sockets = [] }

-- `f` with the state of `d`.
abbrev pub with_state_of : Daemon → Daemon → Daemon
with_state_of d f = record f {
  debug_mode = d.debug_mode;
  boot_mode = d.boot_mode;
  children = d.children;
  invoker_pids = d.invoker_pids;
  invoker_fds = d.invoker_fds;
  booster_pid = d.booster_pid;
  launcher_socket0 = d.launcher_socket0;
  launcher_socket1 = d.launcher_socket1;
  sig_pipe0 = d.sig_pipe0;
  sig_pipe1 = d.sig_pipe1;
  sockets = d.sockets;
}

module _ (st : Streams) (ok : IsFaithful st) where
  Reads_end :
      (n : ℕ) (d : Daemon) → 1 < n → read_entries st n (codes "end" ∷ []) d ≡ some (complete d)
  unfolding read_entries read_entry bytes_eq
  Reads_end zero d h = elim h [ ]
  Reads_end (suc n) d h = refl

  -- The words after the process id.
  abbrev saved_entries : Daemon → List Bytes
  saved_entries d =
      codes "debug-mode"
      ∷ show_bool st d.debug_mode
      ∷ (child_lines st d.children
          ++ (pair_lines st (codes "booster-invoker-pid") d.invoker_pids
              ++ (pair_lines st (codes "booster-invoker-fd") d.invoker_fds
                  ++ (codes "booster-pid"
                      ∷ st.show d.booster_pid
                      ∷ codes "launcher-socket"
                      ∷ st.show d.launcher_socket0
                      ∷ st.show d.launcher_socket1
                      ∷ codes "sigpipe-fd"
                      ∷ st.show d.sig_pipe0
                      ∷ st.show d.sig_pipe1
                      ∷ codes "boot-mode"
                      ∷ show_bool st d.boot_mode
                      ∷ (socket_lines st d.sockets ++ (codes "end" ∷ []))))))

  Reads-saved_entries :
      (d f : Daemon)
      → AreWords st d.sockets
      → Reads st (saved_entries d) f (codes "end" ∷ []) (record f {
        debug_mode = d.debug_mode;
        boot_mode = d.boot_mode;
        children = f.children ++ d.children;
        invoker_pids = insert_all d.invoker_pids f.invoker_pids;
        invoker_fds = insert_all d.invoker_fds f.invoker_fds;
        booster_pid = d.booster_pid;
        launcher_socket0 = d.launcher_socket0;
        launcher_socket1 = d.launcher_socket1;
        sig_pipe0 = d.sig_pipe0;
        sig_pipe1 = d.sig_pipe1;
        sockets = insert_all d.sockets f.sockets;
      })
  Reads-saved_entries d f words =
      Reads-trans st ok _ _ end f f1 f9 (Reads-debug_mode st ok d.debug_mode _ f) (
        Reads-trans st ok _ _ end f1 f2 f9 (Reads-child_lines st ok d.children _ f1) (
          Reads-trans st ok _ _ end f2 f3 f9 (Reads-invoker_pids st ok d.invoker_pids _ f2) (
            Reads-trans st ok _ _ end f3 f4 f9 (Reads-invoker_fds st ok d.invoker_fds _ f3) (
              Reads-trans st ok _ _ end f4 f5 f9 (Reads-booster_pid st ok d.booster_pid _ f4) (
                Reads-trans st ok _ _ end f5 f6 f9
                  (Reads-launcher_socket st ok d.launcher_socket0 d.launcher_socket1 _ f5)
                  (Reads-trans st ok _ _ end f6 f7 f9
                    (Reads-sigpipe_fd st ok d.sig_pipe0 d.sig_pipe1 _ f6)
                    (Reads-trans st ok _ _ end f7 f8 f9 (Reads-boot_mode st ok d.boot_mode _ f7)
                      (Reads-socket_lines st ok d.sockets end f8 words))))))))
    where
      end : List Bytes
      end = codes "end" ∷ []

      f1 : Daemon
      f1 = record f { debug_mode = d.debug_mode }

      f2 : Daemon
      f2 = record f1 { children = f.children ++ d.children }

      f3 : Daemon
      f3 = record f2 { invoker_pids = insert_all d.invoker_pids f.invoker_pids }

      f4 : Daemon
      f4 = record f3 { invoker_fds = insert_all d.invoker_fds f.invoker_fds }

      f5 : Daemon
      f5 = record f4 { booster_pid = d.booster_pid }

      f6 : Daemon
      f6 = record f5 {
        launcher_socket0 = d.launcher_socket0;
        launcher_socket1 = d.launcher_socket1;
      }

      f7 : Daemon
      f7 = record f6 { sig_pipe0 = d.sig_pipe0; sig_pipe1 = d.sig_pipe1 }

      f8 : Daemon
      f8 = record f7 { boot_mode = d.boot_mode }

      f9 : Daemon
      f9 = record f8 { sockets = insert_all d.sockets f.sockets }

  restore_state_lem :
      (my_pid : ℤ) (ws : List Bytes) (f e : Daemon)
      → read_entries st (suc (length ws)) ws f ≡ some (complete e)
      → restore_state st my_pid (codes "my-pid" ∷ st.show my_pid ∷ ws) f ≡ some (restored e)
  unfolding restore_state bytes_eq
  restore_state_lem my_pid ws f e h = ground (arith, ok my_pid, int_eq_iff my_pid my_pid)

  -- The process that `reExec` turns into restores what was saved, all of it: the children, the
  -- invokers and descriptors of launched applications, the booster, the sockets, the pipes and the
  -- modes. Numbers must read back as they were written, the names of the sockets as single words,
  -- and the maps must be in the order of their keys, as a `std::map` is.
  pub restore_state-saved_state :
      (my_pid : ℤ) (d f : Daemon)
      → IsSorted d.invoker_pids
      → IsSorted d.invoker_fds
      → IsSorted d.sockets
      → AreWords st d.sockets
      → restore_state st my_pid (saved_state st my_pid d) (blank f)
        ≡ some (restored (with_state_of d f))
  unfolding saved_state
  restore_state-saved_state my_pid d f sp sf ss words =
      let ws = saved_entries d in
      let (m, lt, read) = Reads-saved_entries d (blank f) words (suc (length ws)) (omega arith) in
      restore_state_lem my_pid ws (blank f) _ (read ∙ Reads_end m _ lt)
      ∙ rw (
        insert_all-nil d.invoker_pids sp,
        insert_all-nil d.invoker_fds sf,
        insert_all-nil d.sockets ss,
      )
