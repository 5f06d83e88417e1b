-- ===== src/Invoker/Program/Status.antt =====
-- The status with which a run of the invoker ends.
use mapplauncherd.Base.{
  ℕ, ◌<◌, ◌≡◌, ◌≢◌, ap, ◌∙◌, Bool, true, List, ◌∷◌, ◌++◌, some, Bytes, codes, word_mod, ℤ,
}
use mapplauncherd.Wire.{Kernel, IsReliable, Item, bytes}
use mapplauncherd.Connection.State.{Connection}
use mapplauncherd.Connection.Rounds.{acknowledgement}
use mapplauncherd.Daemon.State.{exited}
use mapplauncherd.Daemon.Reap.Settle.{told}
use mapplauncherd.Invoker.Send.{invoke_remote}
use mapplauncherd.Invoker.Wait.{Event, finish_invocation}
use mapplauncherd.Invoker.Exit.{AreSpared, written, after_signals, finish_invocation_exit}
use mapplauncherd.Invoker.Options.{Opt, Settings, defaults, parsed, parse_options, translate_type}
use mapplauncherd.Invoker.Search.{search_program}
use mapplauncherd.Invoker.Program.{
  contains, Machine, ends, opened, invoker_init, settle, invocation, check_file, invoke, launch,
  with_program, with_settings, main,
}
use mapplauncherd.Invoker.Program.Sent.{main_lem, launch_lem}

module _ (k : Kernel) (w : Machine) (sock : k.Sock) (events : List Event) (runs : Bool) where
  invoke-opened :
      (s : Settings) (prog argv0 : Bytes) (args : List Bytes) (t path : Bytes)
      → invoker_init w t ≡ opened path
      → invoke k w sock events runs s prog argv0 args t ≡ record {
        ending = settle s.delay (finish_invocation k s.wait_term runs events sock);
        sent = invoke_remote (invocation w s prog argv0 args);
      }
  unfolding invoke
  invoke-opened s prog argv0 args t path e = rw (e, invoke)

  with_program_lem :
      (s : Settings) (argv0 : Bytes) (args : List Bytes) (prog : Bytes)
      → w.is_file prog ≡ some true
      → with_program k w sock events runs s argv0 args (some prog)
        ≡ launch k w sock events runs s prog argv0 args s.app_type
  unfolding with_program check_file
  with_program_lem s argv0 args prog e = rw (e, with_program, check_file)

  with_settings_lem :
      (s : Settings) (argv0 : Bytes) (args : List Bytes) (prog : Bytes)
      → search_program w.search argv0 ≡ some prog
      → with_settings k w sock events runs s (argv0 ∷ args)
        ≡ with_program k w sock events runs s argv0 args (some prog)
  unfolding with_settings
  with_settings_lem s argv0 args prog e = rw e

  -- A run whose checks pass and that is connected sends its invocation, and ends as the answers say.
  pub main-opened :
      (name : Bytes) (opts : List Opt) (argv0 : Bytes) (args : List Bytes) (s : Settings)
      (prog t path : Bytes)
      → contains name (codes "invoker") ≡ true
      → parse_options w.numbers opts defaults ≡ parsed s
      → search_program w.search argv0 ≡ some prog
      → w.is_file prog ≡ some true
      → s.app_type ≡ some t
      → w.pipe ≡ true
      → invoker_init w (translate_type t) ≡ opened path
      → main k w sock events runs name opts (argv0 ∷ args) ≡ record {
        ending = settle s.delay (finish_invocation k s.wait_term runs events sock);
        sent = invoke_remote (invocation w s prog argv0 args);
      }
  main-opened name opts argv0 args s prog t path right e found file typed up connected =
      main_lem k w sock events runs name opts (argv0 ∷ args) s right e
      ∙ with_settings_lem s argv0 args prog found
      ∙ with_program_lem s argv0 args prog file
      ∙ ap (λ a. launch k w sock events runs s prog argv0 args a) typed
      ∙ launch_lem k w sock events runs s prog argv0 args t up
      ∙ invoke-opened s prog argv0 args (translate_type t) path connected

module _ (k : Kernel) {stream : List Item → Bytes → k.Sock} {dup : ℕ → ℕ}
    (r : IsReliable k stream dup) where
  -- A run of the invoker under its own name, whose options are good, name a type and do not tell it not to
  -- wait, whose program is found and is a file, and that reaches a booster, ends with the status with which
  -- the application exits, behind the exit delay, if the connection delivers the booster's acknowledgement
  -- with the application's pid and then what the daemon writes to its descriptor about the exit. Before that,
  -- any signals may arrive by which a process does not end by default, such as SIGCHLD and SIGWINCH; and the
  -- run has sent one whole invocation. The pipe for signals can be made, the pid is not 0, and the pid and the
  -- status fit their words.
  pub main_exit :
      (c : Connection k) (w : Machine) (runs : Bool) (invoker fd : ℤ) (sigs : List ℕ) (value : ℕ)
      (rest : List Item) (out : Bytes) (name : Bytes) (opts : List Opt) (argv0 : Bytes)
      (args : List Bytes) (s : Settings) (prog t path : Bytes)
      → AreSpared sigs
      → contains name (codes "invoker") ≡ true
      → parse_options w.numbers opts defaults ≡ parsed s
      → s.wait_term ≡ true
      → search_program w.search argv0 ≡ some prog
      → w.is_file prog ≡ some true
      → s.app_type ≡ some t
      → w.pipe ≡ true
      → invoker_init w (translate_type t) ≡ opened path
      → c.send_pid ≡ true
      → k.getpid < word_mod
      → k.getpid ≢ 0
      → value < word_mod
      → main k w
          (stream
            (bytes (acknowledgement c ++ written fd (told invoker fd (exited value))) ++ rest)
            out)
          (after_signals sigs)
          runs
          name
          opts
          (argv0 ∷ args)
        ≡ record {
          ending = ends value s.delay;
          sent = invoke_remote (invocation w s prog argv0 args);
        }
  unfolding settle
  main_exit c w runs invoker fd sigs value rest out name opts argv0 args s prog t path spared right
        e waits found file typed up connected asked pid_lt pid_ne value_lt =
      let answer =
        stream (bytes (acknowledgement c ++ written fd (told invoker fd (exited value))) ++ rest)
          out in
      main-opened k w answer (after_signals sigs) runs name opts argv0 args s prog t path right e
        found file typed up connected
      ∙ ap
          (λ b. record {
            ending = settle s.delay (finish_invocation k b runs (after_signals sigs) answer);
            sent = invoke_remote (invocation w s prog argv0 args);
          })
          waits
      ∙ ap
          (λ a. record {
            ending = settle s.delay a;
            sent = invoke_remote (invocation w s prog argv0 args);
          })
          (finish_invocation_exit k r c invoker fd runs sigs value rest out spared asked pid_lt
            pid_ne value_lt)
