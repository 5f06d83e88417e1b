-- ===== src/Daemon/Saved/Entries.antt =====
-- How `restoreState` reads each entry that `reExec` writes.
use mapplauncherd.Base.{
  ℕ, zero, suc, ◌≤◌, ◌<◌, ◌≡◌, refl, ◌∙◌, Bool, true, false, List, [], ◌∷◌, ◌++◌, some, Bytes,
  codes, bytes_eq, arith, ℤ, pos, length, All, append_assoc, append-nil,
}
use mapplauncherd.Map.{Map, insert}
use mapplauncherd.Map.Order.{int_ord, bytes_ord}
use mapplauncherd.Map.Laws.{insert_all}
use mapplauncherd.Daemon.State.{Daemon}
use mapplauncherd.Daemon.Saved.{
  Streams, show_bool, child_lines, pair_lines, socket_lines, more, read_entry, read_entries,
}

-- A number that was written reads back.
abbrev pub IsFaithful : Streams → Type 0
IsFaithful st = (z : ℤ) → st.parse (st.show z) ≡ some z

module _ (st : Streams) where
  -- The loop gets from the words `ws` to the words `rest`, and turns the daemon `d` into `e`.
  abbrev pub Reads : List Bytes → Daemon → List Bytes → Daemon → Type 0
  Reads ws d rest e =
      (n : ℕ)
      → length ws < n
      → (m : ℕ) × (length rest < m) × (read_entries st n ws d ≡ read_entries st m rest e)

  -- The name of every socket reads back as one word.
  abbrev pub AreWords : Map Bytes ℤ → Type 0
  AreWords = All (λ (e : Bytes × ℤ). st.split e.0 ≡ e.0 ∷ [])

module _ (st : Streams) (ok : IsFaithful st) where
  pub Reads-refl : (ws : List Bytes) (d : Daemon) → Reads st ws d ws d
  Reads-refl ws d n h = (n, h, refl)

  pub Reads-trans :
      (ws us vs : List Bytes) (d e f : Daemon)
      → Reads st ws d us e
      → Reads st us e vs f
      → Reads st ws d vs f
  Reads-trans ws us vs d e f r q n h =
      let (m, h', p) = r n h in let (l, h'', p') = q m h' in (l, h'', p ∙ p')

  pub Reads-entry :
      (w : Bytes) (ws ws' : List Bytes) (d e : Daemon)
      → read_entry st w ws d ≡ more e ws'
      → length ws' ≤ length ws
      → Reads st (w ∷ ws) d ws' e
  unfolding read_entries
  Reads-entry w ws ws' d e h le zero lt = elim lt [ ]
  Reads-entry w ws ws' d e h le (suc n) lt = (n, omega arith, rw (h, read_entries))

  pub Reads-child :
      (a : ℤ) (ws : List Bytes) (d : Daemon)
      → Reads st
          (codes "child" ∷ st.show a ∷ ws)
          d
          ws
          (record d { children = d.children ++ a ∷ [] })
  unfolding read_entry bytes_eq
  Reads-child a ws d =
      Reads-entry (codes "child") (st.show a ∷ ws) ws d
        (record d { children = d.children ++ a ∷ [] }) (ground (arith, ok a)) (omega arith)

  pub Reads-booster_invoker_pid :
      (a b : ℤ) (ws : List Bytes) (d : Daemon)
      → Reads st
          (codes "booster-invoker-pid" ∷ st.show a ∷ st.show b ∷ ws)
          d
          ws
          (record d { invoker_pids = insert a b d.invoker_pids })
  unfolding read_entry bytes_eq
  Reads-booster_invoker_pid a b ws d =
      Reads-entry (codes "booster-invoker-pid") (st.show a ∷ st.show b ∷ ws) ws d
        (record d { invoker_pids = insert a b d.invoker_pids }) (ground (arith, ok a, ok b))
        (omega arith)

  pub Reads-booster_invoker_fd :
      (a b : ℤ) (ws : List Bytes) (d : Daemon)
      → Reads st
          (codes "booster-invoker-fd" ∷ st.show a ∷ st.show b ∷ ws)
          d
          ws
          (record d { invoker_fds = insert a b d.invoker_fds })
  unfolding read_entry bytes_eq
  Reads-booster_invoker_fd a b ws d =
      Reads-entry (codes "booster-invoker-fd") (st.show a ∷ st.show b ∷ ws) ws d
        (record d { invoker_fds = insert a b d.invoker_fds }) (ground (arith, ok a, ok b))
        (omega arith)

  pub Reads-booster_pid :
      (a : ℤ) (ws : List Bytes) (d : Daemon)
      → Reads st (codes "booster-pid" ∷ st.show a ∷ ws) d ws (record d { booster_pid = a })
  unfolding read_entry bytes_eq
  Reads-booster_pid a ws d =
      Reads-entry (codes "booster-pid") (st.show a ∷ ws) ws d (record d { booster_pid = a })
        (ground (arith, ok a)) (omega arith)

  pub Reads-launcher_socket :
      (a b : ℤ) (ws : List Bytes) (d : Daemon)
      → Reads st
          (codes "launcher-socket" ∷ st.show a ∷ st.show b ∷ ws)
          d
          ws
          (record d { launcher_socket0 = a; launcher_socket1 = b })
  unfolding read_entry bytes_eq
  Reads-launcher_socket a b ws d =
      Reads-entry (codes "launcher-socket") (st.show a ∷ st.show b ∷ ws) ws d
        (record d { launcher_socket0 = a; launcher_socket1 = b }) (ground (arith, ok a, ok b))
        (omega arith)

  pub Reads-sigpipe_fd :
      (a b : ℤ) (ws : List Bytes) (d : Daemon)
      → Reads st
          (codes "sigpipe-fd" ∷ st.show a ∷ st.show b ∷ ws)
          d
          ws
          (record d { sig_pipe0 = a; sig_pipe1 = b })
  unfolding read_entry bytes_eq
  Reads-sigpipe_fd a b ws d =
      Reads-entry (codes "sigpipe-fd") (st.show a ∷ st.show b ∷ ws) ws d
        (record d { sig_pipe0 = a; sig_pipe1 = b }) (ground (arith, ok a, ok b)) (omega arith)

  pub Reads-debug_mode :
      (b : Bool) (ws : List Bytes) (d : Daemon)
      → Reads st (codes "debug-mode" ∷ show_bool st b ∷ ws) d ws (record d { debug_mode = b })
  unfolding read_entry bytes_eq
  Reads-debug_mode true ws d =
      Reads-entry (codes "debug-mode") (st.show (pos 1) ∷ ws) ws d (record d { debug_mode = true })
        (ground (arith, ok (pos 1))) (omega arith)
  Reads-debug_mode false ws d =
      Reads-entry (codes "debug-mode") (st.show (pos 0) ∷ ws) ws d (record d { debug_mode = false })
        (ground (arith, ok (pos 0))) (omega arith)

  pub Reads-boot_mode :
      (b : Bool) (ws : List Bytes) (d : Daemon)
      → Reads st (codes "boot-mode" ∷ show_bool st b ∷ ws) d ws (record d { boot_mode = b })
  unfolding read_entry bytes_eq
  Reads-boot_mode true ws d =
      Reads-entry (codes "boot-mode") (st.show (pos 1) ∷ ws) ws d (record d { boot_mode = true })
        (ground (arith, ok (pos 1))) (omega arith)
  Reads-boot_mode false ws d =
      Reads-entry (codes "boot-mode") (st.show (pos 0) ∷ ws) ws d (record d { boot_mode = false })
        (ground (arith, ok (pos 0))) (omega arith)

  pub Reads-socket_hash :
      (id : Bytes) (a : ℤ) (ws : List Bytes) (d : Daemon)
      → Reads st
          (codes "socket-hash" ∷ id ∷ st.show a ∷ ws)
          d
          ws
          (record d { sockets = insert id a d.sockets })
  unfolding read_entry bytes_eq
  Reads-socket_hash id a ws d =
      Reads-entry (codes "socket-hash") (id ∷ st.show a ∷ ws) ws d
        (record d { sockets = insert id a d.sockets }) (ground (arith, ok a)) (omega arith)

  pub Reads-child_lines :
      (ps : List ℤ) (rest : List Bytes) (d : Daemon)
      → Reads st (child_lines st ps ++ rest) d rest (record d { children = d.children ++ ps })
  unfolding child_lines
  Reads-child_lines [] rest d = rw append-nil (Reads-refl rest d)
  Reads-child_lines (p ∷ ps) rest d =
      let d' = record d { children = d.children ++ p ∷ [] } in
      Reads-trans _ _ rest d d' _ (Reads-child p (child_lines st ps ++ rest) d)
        (rw append_assoc at (Reads-child_lines ps rest d'))

  pub Reads-invoker_pids :
      (m : Map ℤ ℤ) (rest : List Bytes) (d : Daemon)
      → Reads st
          (pair_lines st (codes "booster-invoker-pid") m ++ rest)
          d
          rest
          (record d { invoker_pids = insert_all m d.invoker_pids })
  unfolding pair_lines insert_all
  Reads-invoker_pids [] rest d = Reads-refl rest d
  Reads-invoker_pids ((a, b) ∷ m) rest d =
      let d' = record d { invoker_pids = insert a b d.invoker_pids } in
      Reads-trans _ _ rest d d' _
        (Reads-booster_invoker_pid a b (pair_lines st (codes "booster-invoker-pid") m ++ rest) d)
        (Reads-invoker_pids m rest d')

  pub Reads-invoker_fds :
      (m : Map ℤ ℤ) (rest : List Bytes) (d : Daemon)
      → Reads st
          (pair_lines st (codes "booster-invoker-fd") m ++ rest)
          d
          rest
          (record d { invoker_fds = insert_all m d.invoker_fds })
  unfolding pair_lines insert_all
  Reads-invoker_fds [] rest d = Reads-refl rest d
  Reads-invoker_fds ((a, b) ∷ m) rest d =
      let d' = record d { invoker_fds = insert a b d.invoker_fds } in
      Reads-trans _ _ rest d d' _
        (Reads-booster_invoker_fd a b (pair_lines st (codes "booster-invoker-fd") m ++ rest) d)
        (Reads-invoker_fds m rest d')

  pub Reads-socket_lines :
      (m : Map Bytes ℤ) (rest : List Bytes) (d : Daemon)
      → AreWords st m
      → Reads st (socket_lines st m ++ rest) d rest (record d { sockets = insert_all m d.sockets })
  unfolding socket_lines insert_all
  Reads-socket_lines [] rest d h = Reads-refl rest d
  Reads-socket_lines ((id, a) ∷ m) rest d h =
      let d' = record d { sockets = insert id a d.sockets } in
      rw h.0 (
        Reads-trans _ _ rest d d' _ (Reads-socket_hash id a (socket_lines st m ++ rest) d)
          (Reads-socket_lines m rest d' h.1))
