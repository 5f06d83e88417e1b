-- ===== src/Daemon/Saved.antt =====
-- `Daemon::reExec` and `Daemon::restoreState`: the state file by which a daemon passes its state to
-- the process image that replaces it.
pub mod Entries
pub mod RoundTrip
pub mod Endings
use mapplauncherd.Base.{
  ℕ, zero, suc, Bool, true, false, not, ◌&&◌, List, [], ◌∷◌, ◌++◌, Option, none, some, Bytes, codes,
  bytes_eq, if◌then◌else◌, ℤ, pos, int_eq, length,
}
use mapplauncherd.Map.{Map, insert}
use mapplauncherd.Map.Order.{int_ord, bytes_ord}
use mapplauncherd.Daemon.State.{
  Effect, Daemon, Outcome, returns, exits, execs, logged, kill_boosters,
}

-- The text streams of the C++ library: `<<` and `>>` of an `int`, and the words that `>>` finds in a
-- text. A number is written as one word.
pub record Streams : Type 0 where
  pub show : ℤ → Bytes
  pub parse : Bytes → Option ℤ
  pub split : Bytes → List Bytes

-- The tests that `reExec` makes on the state directory, and whether writing and `execve` succeed.
pub record Storage : Type 0 where
  pub dir_exists : Bool
  pub mkdir_succeeds : Bool
  pub dir_still_exists : Bool
  pub is_dir : Bool
  pub save_succeeds : Bool
  pub exec_succeeds : Bool

-- How reading the file goes on: the end was read, the stream failed, or more is left.
pub data Reading : Type 0 where
  complete : Daemon → Reading
  failure : Daemon → Reading
  more : Daemon → List Bytes → Reading

-- How `restoreState` ends, the state file aside. The texts that it throws are `const char *`, which no handler of its own
-- catches: `catch (char *err)` does not match them.
pub data Restored : Type 0 where
  restored : Daemon → Restored
  exits_1 : Daemon → Restored
  uncaught : Restored

module _ (st : Streams) where
  abbrev pub show_bool : Bool → Bytes
  show_bool true = st.show (pos 1)
  show_bool false = st.show (pos 0)

  unfoldable pub child_lines : List ℤ → List Bytes
  child_lines [] = []
  child_lines (p ∷ ps) = codes "child" ∷ st.show p ∷ child_lines ps

  unfoldable pub pair_lines : Bytes → Map ℤ ℤ → List Bytes
  pair_lines name [] = []
  pair_lines name ((a, b) ∷ m) = name ∷ st.show a ∷ st.show b ∷ pair_lines name m

  unfoldable pub socket_lines : Map Bytes ℤ → List Bytes
  socket_lines [] = []
  socket_lines ((id, fd) ∷ m) = codes "socket-hash" ∷ (st.split id ++ (st.show fd ∷ socket_lines m))

  -- The words of the state file that `reExec` writes.
  unfoldable pub saved_state : ℤ → Daemon → List Bytes
  saved_state my_pid d =
      codes "my-pid"
      ∷ st.show my_pid
      ∷ codes "debug-mode"
      ∷ show_bool d.debug_mode
      ∷ (child_lines d.children
          ++ (pair_lines (codes "booster-invoker-pid") d.invoker_pids
              ++ (pair_lines (codes "booster-invoker-fd") d.invoker_fds
                  ++ (codes "booster-pid"
                      ∷ st.show d.booster_pid
                      ∷ codes "launcher-socket"
                      ∷ st.show d.launcher_socket0
                      ∷ st.show d.launcher_socket1
                      ∷ codes "sigpipe-fd"
                      ∷ st.show d.sig_pipe0
                      ∷ st.show d.sig_pipe1
                      ∷ codes "boot-mode"
                      ∷ show_bool d.boot_mode
                      ∷ (socket_lines d.sockets ++ (codes "end" ∷ []))))))

  -- `reExec` for the process `my_pid`. Where it does not end in the new image, it exits.
  unfoldable pub re_exec : Storage → ℤ → Daemon → Outcome
  re_exec fs my_pid d =
      if not fs.dir_exists && not fs.mkdir_succeeds
      then exits 1 d
      else if not fs.dir_still_exists
      then exits 1 d
      else if not fs.is_dir
      then exits 1 d
      else if not fs.save_succeeds
      then exits 1 d
      else if fs.exec_succeeds
      then execs (saved_state my_pid d) (kill_boosters d)
      else exits 1 (kill_boosters d)

  abbrev pub read_int : Daemon → List Bytes → (ℤ → List Bytes → Reading) → Reading
  read_int d [] f = failure d
  read_int d (w ∷ ws) f = elim (st.parse w) [ none ↦ failure d | some z ↦ f z ws ]

  abbrev pub read_ints : Daemon → List Bytes → (ℤ → ℤ → List Bytes → Reading) → Reading
  read_ints d ws f = read_int d ws λ a ws'. read_int d ws' (f a)

  -- `>>` of a `bool`: 0 or 1.
  abbrev pub to_bool : ℤ → Option Bool
  to_bool z = if int_eq z (pos 0) then some false else if int_eq z (pos 1) then some true else none

  abbrev pub read_bool : Daemon → List Bytes → (Bool → List Bytes → Reading) → Reading
  read_bool d ws f = read_int d ws λ z ws'. elim (to_bool z) [ none ↦ failure d | some b ↦ f b ws' ]

  abbrev pub read_word_int : Daemon → List Bytes → (Bytes → ℤ → List Bytes → Reading) → Reading
  read_word_int d [] f = failure d
  read_word_int d (w ∷ ws) f = read_int d ws (f w)

  -- The branches of the loop on the word that it read; an unknown word is passed over.
  unfoldable pub read_entry : Bytes → List Bytes → Daemon → Reading
  read_entry token ws d =
      if bytes_eq token (codes "end")
      then complete d
      else if bytes_eq token (codes "child")
      then read_int d ws (λ a. more (record d { children = d.children ++ a ∷ [] }))
      else if bytes_eq token (codes "booster-invoker-pid")
      then read_ints d ws (λ a b. more (record d { invoker_pids = insert a b d.invoker_pids }))
      else if bytes_eq token (codes "booster-invoker-fd")
      then read_ints d ws (λ a b. more (record d { invoker_fds = insert a b d.invoker_fds }))
      else if bytes_eq token (codes "booster-pid")
      then read_int d ws (λ a. more (record d { booster_pid = a }))
      else if bytes_eq token (codes "launcher-socket")
      then read_ints d ws (λ a b. more (record d { launcher_socket0 = a; launcher_socket1 = b }))
      else if bytes_eq token (codes "sigpipe-fd")
      then read_ints d ws (λ a b. more (record d { sig_pipe0 = a; sig_pipe1 = b }))
      else if bytes_eq token (codes "socket-hash")
      then read_word_int d ws (λ a b. more (record d { sockets = insert a b d.sockets }))
      else if bytes_eq token (codes "debug-mode")
      then read_bool d ws (λ b. more (record d { debug_mode = b }))
      else if bytes_eq token (codes "boot-mode")
      then read_bool d ws (λ b. more (record d { boot_mode = b }))
      else more d ws

  -- `while (true)` on fuel. Reading past the end of the file fails.
  unfoldable pub read_entries : ℕ → List Bytes → Daemon → Option Reading
  read_entries zero ws d = none
  read_entries (suc fuel) [] d = some (failure d)
  read_entries (suc fuel) (w ∷ ws) d = elim (read_entry w ws d) [
    | complete e ↦ some (complete e)
    | failure e ↦ some (failure e)
    | more e ws' ↦ read_entries fuel ws' e
  ]

  abbrev pub finish_reading : Option Reading → Option Restored
  finish_reading none = none
  finish_reading (some (complete e)) = some (restored e)
  finish_reading (some (failure e)) = some (exits_1 e)
  finish_reading (some (more e ws)) = none

  -- The result, `none` if the fuel ran out; each round reads a word, so their number is enough.
  unfoldable pub restore_state : ℤ → List Bytes → Daemon → Option Restored
  restore_state my_pid [] d = some (exits_1 d)
  restore_state my_pid (w ∷ ws) d =
      if not (bytes_eq w (codes "my-pid")) then some uncaught else elim ws [
        | [] ↦ some (exits_1 d)
        | p ∷ ws' ↦ elim (st.parse p) [
          | none ↦ some (exits_1 d)
          | some z ↦
              if int_eq z my_pid
              then finish_reading (read_entries (suc (length ws')) ws' d)
              else some uncaught
        ]
      ]
