-- ===== src/Booster/Process/Started.antt =====
-- What a booster starts.
use mapplauncherd.Base.{
  ℕ, ◌≤◌, ◌≡◌, ◌≢◌, negsuc, inl, inr, refl, ap, ◌∙◌, Bool, true, false, not, List, [], ◌∷◌, ◌++◌,
  none, some, Bytes, codes, map, All, if◌then◌else◌, ◌==◌, length, arith, ℤ, pos, int_eq, int_lt,
  Bool-cases,
}
use mapplauncherd.Environ.{setenv}
use mapplauncherd.Wire.{Kernel, IsReliable, Item}
use mapplauncherd.AppData.{AppData}
use mapplauncherd.Connection.State.{Connection, close, peer_pid}
use mapplauncherd.Connection.Delivery.{assignments}
use mapplauncherd.Connection.Invocation.{IsSendable, delivered, waits}
use mapplauncherd.SocketManager.{SocketManager, closable, close_all_sockets}
use mapplauncherd.Invoker.Send.{Invocation, argv}
use mapplauncherd.Booster.Launch.{
  to_int, launches, is_refused, keeps_plugin, serve, send_data_to_parent,
}
use mapplauncherd.Booster.Handover.{
  arrival, served, kept, message, send_data_lem, wait_for_launch-launches,
}
use mapplauncherd.Booster.Rename.{Names, words, rename_process, rename_process-environ}
use mapplauncherd.Booster.Environment.{
  Call, Process, Table, apply_all, set_environment_before_launch,
  set_environment_before_launch-delivered,
}
use mapplauncherd.Booster.Process.{
  Loader, Launched, runs, dlopen_flags, load_main, entry, call_main, launch_library, boosted, run,
  go_on, boost,
}

length-ne_nil : (xs : Bytes) → xs ≢ [] → (length xs == 0) ≡ false
length-ne_nil [] h = absurd (h refl)
length-ne_nil (x ∷ xs) h = ground arith

run_lem :
    (launch : AppData → List Call × Launched) (m : SocketManager) (a : AppData)
    → a.file_name ≢ []
    → run launch (some m) a ≡ (some (close_all_sockets m), launch a)
unfolding run
run_lem launch m a h = rw (length-ne_nil a.file_name h, run)

load_main_lem :
    (l : Loader) (a : AppData) (lib e : ℕ)
    → l.dlopen a.file_name (dlopen_flags a) ≡ some lib
    → l.main_of lib ≡ some e
    → load_main l a ≡ entry e
unfolding load_main
load_main_lem l a lib e found at_e = rw (found, load_main, at_e)

launch_library_lem :
    (p : Process) (l : Loader) (boot_mode : Bool) (a : AppData) (lib e : ℕ)
    → l.dlopen a.file_name (dlopen_flags a) ≡ some lib
    → l.main_of lib ≡ some e
    → launch_library p l boot_mode a
      ≡ (set_environment_before_launch p a, runs e a.argc a.argv (not boot_mode))
unfolding launch_library call_main
launch_library_lem p l boot_mode a lib e found at_e =
    ap (λ x. (set_environment_before_launch p a, call_main boot_mode a x))
      (load_main_lem l a lib e found at_e)

-- The manager of the daemon with every socket closed.
abbrev pub all_closed : SocketManager → SocketManager
all_closed m = record m {
  sockets = [];
  closed = m.closed ++ map (λ (s : Bytes × ℤ). s.1) m.sockets;
}

-- Every socket has a descriptor above 0.
abbrev pub AreOpen : SocketManager → Type 0
AreOpen m = All (λ (s : Bytes × ℤ). int_lt (pos 0) s.1 ≡ true) m.sockets

closable_lem :
    (xs : List (Bytes × ℤ))
    → All (λ (s : Bytes × ℤ). int_lt (pos 0) s.1 ≡ true) xs
    → closable xs ≡ map (λ (s : Bytes × ℤ). s.1) xs
unfolding closable
closable_lem [] h = refl
closable_lem ((id, fd) ∷ xs) (h, hs) = rw h (ap (λ x. fd ∷ x) (closable_lem xs hs))

close_all_sockets_lem : (m : SocketManager) → AreOpen m → close_all_sockets m ≡ all_closed m
unfolding close_all_sockets
close_all_sockets_lem m h =
    ap (λ l. record m { sockets = []; closed = m.closed ++ l }) (closable_lem m.sockets h)

module _ {k : Kernel} {stream : List Item → Bytes → k.Sock} {dup : ℕ → ℕ}
    (r : IsReliable k stream dup) where
  go_on_lem :
      (launch : AppData → List Call × Launched) (m : SocketManager) (parent : List Bytes)
      (names : Names) (plugin : Bool) (a : AppData) (c : Connection k) (name : Bytes)
      (args env : List Bytes)
      → a.file_name ≢ []
      → a.argv ≡ some (name ∷ args)
      → c.env ≡ env
      → length parent ≢ 0
      → go_on launch (some m) parent names (launches plugin a c)
        ≡ boosted
            (send_data_to_parent a c)
            (some (close_all_sockets m))
            (setenv (codes "_") name env)
            (launch a)
  unfolding go_on
  go_on_lem launch m parent names plugin a c name args env h words_a env_c some_name =
      let named = rename_process parent (words a.argv) (record names { environ = c.env }) in
      let renamed : named.environ ≡ setenv (codes "_") name env =
        ap (λ w. (rename_process parent (words w) (record names { environ = c.env })).environ)
          words_a
        ∙ (rename_process-environ parent args name (record names { environ = c.env }) some_name).0
        ∙ ap (setenv (codes "_") name) env_c in
      rw (run_lem launch m a h) (
        ap (λ e. boosted (send_data_to_parent a c) (some (close_all_sockets m)) e (launch a))
          renamed)

  pub kept_env :
      (v : Invocation) (rest : List Item) (out : Bytes) (env : List Bytes) (fd : ℕ)
      → (kept r v rest out env fd).env ≡ assignments v.environ
  unfolding close
  kept_env v rest out env fd = elim (Bool-cases (waits v)) [ inl w ↦ rw w refl | inr w ↦ rw w refl ]

  pub serve_lem :
      (v : Invocation) (listening : ℤ) (n fd : ℕ) (plugin : Bool) (a : AppData) (env : List Bytes)
      (rest : List Item) (out : Bytes) (lock activate : Bytes → Bool)
      → IsSendable v
      → 8 ≤ n
      → k.accept ≡ some fd
      → int_eq listening (negsuc 0) ≡ false
      → is_refused plugin (delivered dup v a) (arrival r v rest out lock activate) ≡ false
      → serve listening n plugin a env (arrival r v rest out lock activate ∷ [])
        ≡ launches
            (keeps_plugin plugin (delivered dup v a))
            (delivered dup v a)
            (kept r v rest out env fd)
  unfolding serve
  serve_lem v listening n fd plugin a env rest out lock activate s h acc there free = rw there (
      ap (λ w. w.0)
        (wait_for_launch-launches r v n fd plugin a env rest out lock activate [] s h acc free))

  boost_lem :
      (launch : AppData → List Call × Launched) (m : SocketManager) (parent : List Bytes)
      (names : Names) (listening : ℤ) (v : Invocation) (n fd : ℕ) (plugin : Bool) (a : AppData)
      (rest : List Item) (out : Bytes) (lock activate : Bytes → Bool)
      → IsSendable v
      → 8 ≤ n
      → k.accept ≡ some fd
      → int_eq listening (negsuc 0) ≡ false
      → v.prog_name ≢ []
      → length parent ≢ 0
      → AreOpen m
      → is_refused plugin (delivered dup v a) (arrival r v rest out lock activate) ≡ false
      → boost launch
          (some m)
          parent
          names
          listening
          n
          plugin
          a
          (arrival r v rest out lock activate ∷ [])
        ≡ boosted
            (message r v rest out names.environ fd)
            (some (all_closed m))
            (setenv (codes "_") v.argv0 (assignments v.environ))
            (launch (delivered dup v a))
  unfolding boost
  boost_lem launch m parent names listening v n fd plugin a rest out lock activate s h acc there
        named some_name opened free =
      let b = delivered dup v a in
      let c = kept r v rest out names.environ fd in
      let env = setenv (codes "_") v.argv0 (assignments v.environ) in
      ap (go_on launch (some m) parent names) (
        serve_lem v listening n fd plugin a names.environ rest out lock activate s h acc there free)
      ∙ go_on_lem launch m parent names (keeps_plugin plugin b) b c v.argv0 v.args
          (assignments v.environ) named refl (kept_env v rest out names.environ fd) some_name
      ∙ ap (λ x. boosted x (some (close_all_sockets m)) env (launch b))
          (send_data_lem r v a rest out names.environ fd)
      ∙ ap (λ x. boosted (message r v rest out names.environ fd) (some x) env (launch b))
          (close_all_sockets_lem m opened)

  -- A booster that reads an invocation which the protocol carries, from an invoker that it accepts and
  -- does not refuse, of a program that can be loaded as a library and has a `main`, tells the daemon the
  -- respawn delay and, only where the invoker waits, the invoker's pid and the descriptor to it; closes all
  -- the sockets on which it waited; makes system calls that leave as its standard input, output and error
  -- the files that the invoker sent as these; and calls that `main` with exactly the arguments that the
  -- invoker sent, in the environment that the invoker's strings make, with `_` set to the first argument.
  -- The listening socket is not -1, the booster was started with some arguments, its sockets have
  -- descriptors above 0, and the three files come through different open descriptors above 2.
  pub boost-invoke_remote :
      (p : Process) (l : Loader) (boot_mode : Bool) (m : SocketManager) (parent : List Bytes)
      (names : Names) (listening : ℤ) (v : Invocation) (n fd lib e : ℕ) (plugin : Bool)
      (a : AppData) (rest : List Item) (out : Bytes) (lock activate : Bytes → Bool) (t : Table)
      → IsSendable v
      → 8 ≤ n
      → k.accept ≡ some fd
      → int_eq listening (negsuc 0) ≡ false
      → v.prog_name ≢ []
      → length parent ≢ 0
      → AreOpen m
      → is_refused plugin (delivered dup v a) (arrival r v rest out lock activate) ≡ false
      → l.dlopen v.prog_name (dlopen_flags (delivered dup v a)) ≡ some lib
      → l.main_of lib ≡ some e
      → 3 ≤ dup 0
      → 3 ≤ dup 1
      → 3 ≤ dup 2
      → dup 0 ≢ dup 1
      → dup 0 ≢ dup 2
      → dup 1 ≢ dup 2
      → t (dup 0) ≢ none
      → t (dup 1) ≢ none
      → t (dup 2) ≢ none
      → (calls : List Call) × (boost
            (launch_library p l boot_mode)
            (some m)
            parent
            names
            listening
            n
            plugin
            a
            (arrival r v rest out lock activate ∷ [])
          ≡ boosted
              (record {
                invoker_pid =
                    if waits v
                    then to_int (peer_pid (served r v rest out names.environ fd))
                    else pos 0;
                delay = to_int v.respawn_delay;
                fd = if waits v then some (pos fd) else none;
              })
              (some (all_closed m))
              (setenv (codes "_") v.argv0 (assignments v.environ))
              (calls, runs e (length (argv v)) (some (argv v)) (not boot_mode)))
        × (apply_all calls t 0 ≡ t (dup 0))
        × (apply_all calls t 1 ≡ t (dup 1))
        × (apply_all calls t 2 ≡ t (dup 2))
  boost-invoke_remote p l boot_mode m parent names listening v n fd lib e plugin a rest out lock
        activate t s h acc there named some_name opened free found at_e l0 l1 l2 n1 n2 n3 o0 o1 o2 =
      let (d0, d1, d2) =
        set_environment_before_launch-delivered p v a dup t l0 l1 l2 n1 n2 n3 o0 o1 o2 in
      (
        set_environment_before_launch p (delivered dup v a),
        boost_lem (launch_library p l boot_mode) m parent names listening v n fd plugin a rest out
              lock activate s h acc there named some_name opened free
            ∙ ap
                (boosted (message r v rest out names.environ fd) (some (all_closed m))
                  (setenv (codes "_") v.argv0 (assignments v.environ)))
                (launch_library_lem p l boot_mode (delivered dup v a) lib e found at_e),
        d0,
        d1,
        d2,
      )
