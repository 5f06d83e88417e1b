-- ===== src/Booster/Ready.antt =====
-- A booster through the whole of `initialize`, up to its application.
use mapplauncherd.Base.{
  ℕ, ◌≤◌, ◌≡◌, ◌≢◌, ◌⊎◌, negsuc, int_eq, codes, refl, ap, ◌∙◌, inl, inr, Bool, true, false, List,
  [], ◌∷◌, ◌++◌, none, some, Bytes, map, if◌then◌else◌, length, ℤ, pos, Bool-cases,
}
use mapplauncherd.Wire.{Kernel, IsReliable, Item}
use mapplauncherd.Environ.{basename, setenv}
use mapplauncherd.AppData.{AppData}
use mapplauncherd.Connection.State.{Connection, close, peer_pid}
use mapplauncherd.Connection.Descriptors.{closed_by_close, close_fd, close_io, destroy}
use mapplauncherd.Connection.Delivery.{assignments}
use mapplauncherd.Connection.Invocation.{IsSendable, delivered, waits}
use mapplauncherd.Invoker.Send.{Invocation}
use mapplauncherd.Daemon.Loop.{Message}
use mapplauncherd.Booster.Launch.{launches, is_refused, keeps_plugin, send_data_to_parent}
use mapplauncherd.Booster.Handover.{arrival, kept, message, send_data_lem}
use mapplauncherd.Booster.Rename.{Names, space_of, words, rename_process, rename_process-environ}
use mapplauncherd.Booster.Process.{Scheduler}
use mapplauncherd.Booster.Process.Restored.{pop_priority-push_priority}
use mapplauncherd.Booster.Process.Started.{kept_env, serve_lem}
use mapplauncherd.Booster.Initialize.{
  prepare, take_name, temporary_name, first-Known, take_name-Known,
}
use mapplauncherd.Booster.Object.{
  Booster, Did, preloads, sends, closes, forgets_parent, ready, delete_connection,
  set_booster_launcher_socket, finish, initialize,
}

-- What `initialize` does for an invocation, in order.
abbrev pub deeds : Bool → ℤ → Message → Bool → ℕ → List Did
deeds boot_mode socket m waiting fd =
    (if boot_mode then [] else preloads ∷ [])
    ++ sends socket m
      ∷ closes socket
      ∷ ((if waiting then closes (pos fd) ∷ [] else []) ++ forgets_parent ∷ [])

-- The message does not depend on the environment in which the connection was made.
message_lem :
    {k : Kernel} {stream : List Item → Bytes → k.Sock} {dup : ℕ → ℕ} (r : IsReliable k stream dup)
    (v : Invocation) (rest : List Item) (out : Bytes) (env : List Bytes) (fd : ℕ)
    → message r v rest out env fd ≡ message r v rest out [] fd
unfolding peer_pid
message_lem r v rest out env fd = refl

finish_lem :
    {k : Kernel} (parent : List Bytes) (did : List Did) (named : Names) (plugin : Bool)
    (a : AppData) (c : Connection k) (b : Booster k) (m : Message) (closed : List Did)
    → send_data_to_parent a c ≡ m
    → map (λ n. closes (pos n)) (closed_by_close c) ≡ closed
    → finish parent did named (launches plugin a c) b
      ≡ ready
          (record b {
            app_data = a;
            connection = some (close c);
            space_available = (take_name parent (launches plugin a c) named).available;
          })
          (take_name parent (launches plugin a c) named)
          (did
            ++ sends b.launcher_socket m
              ∷ closes b.launcher_socket
              ∷ (closed ++ forgets_parent ∷ []))
unfolding finish
finish_lem parent did named plugin a c b m closed h h' = cc

-- Behind the loop the process is called by the first argument, which `_` holds.
take_name_lem :
    {k : Kernel} (parent : List Bytes) (named : Names) (plugin : Bool) (a : AppData)
    (c : Connection k) (name : Bytes) (args env : List Bytes)
    → a.argv ≡ some (name ∷ args)
    → c.env ≡ env
    → length parent ≢ 0
    → ((take_name parent (launches plugin a c) named).environ ≡ setenv (codes "_") name env)
      × ((take_name parent (launches plugin a c) named).title ≡ some (basename name))
unfolding take_name
take_name_lem parent named plugin a c name args env words_a env_c some_name =
    let n : Names = record named { environ = c.env } in
    let (e, t) = rename_process-environ parent args name n some_name in
    (
      ap (λ w. (rename_process parent (words w) n).environ) words_a
          ∙ e
          ∙ ap (setenv (codes "_") name) env_c,
      ap (λ w. (rename_process parent (words w) n).title) words_a ∙ t,
    )

module _ {k : Kernel} {stream : List Item → Bytes → k.Sock} {dup : ℕ → ℕ}
    (r : IsReliable k stream dup) where
  closed_lem :
      (v : Invocation) (rest : List Item) (out : Bytes) (env : List Bytes) (fd : ℕ)
      → map (λ n. closes (pos n)) (closed_by_close (kept r v rest out env fd))
        ≡ (if waits v then closes (pos fd) ∷ [] else [])
  unfolding closed_by_close close_fd close
  closed_lem v rest out env fd = elim (Bool-cases (waits v)) [
    | inl on ↦ rw on refl
    | inr off ↦ rw off refl
  ]

  rest_lem :
      (v : Invocation) (rest : List Item) (out : Bytes) (env : List Bytes) (fd : ℕ)
      → delete_connection (some (close (kept r v rest out env fd))) ≡ dup 0 ∷ dup 1 ∷ dup 2 ∷ []
  unfolding delete_connection destroy closed_by_close close_fd close_io close
  rest_lem v rest out env fd = elim (Bool-cases (waits v)) [
    | inl on ↦ rw on refl
    | inr off ↦ rw off refl
  ]

  -- A new booster that reads an invocation which the protocol carries, from an invoker that it accepts and
  -- does not refuse, comes back from `initialize` with exactly what the invoker sent; its environment is
  -- the one that the invoker's strings make, with `_` set to the first argument, whose last part is its
  -- name. Until then it has preloaded, unless in boot mode, has sent the daemon one message, which has a
  -- descriptor only where the invoker waits, and has only then closed that descriptor and its socket to the
  -- daemon. It has the priority that it had at the start, if that could not be read or was read as it is,
  -- and may be set again; the area of its arguments is as long as it was; and all that its connection still
  -- keeps open are the three descriptors that it received. The listening socket is not -1, and the booster
  -- was started with some arguments, which fill their area.
  pub initialize-invoke_remote :
      (s : Scheduler) (booster_type : Bytes) (parent : List Bytes) (socket listening : ℤ)
      (boot_mode : Bool) (n fd : ℕ) (plugin : Bool) (env : List Bytes) (v : Invocation)
      (rest : List Item) (out : Bytes) (lock activate : Bytes → Bool) (b : Booster k) (area : Bytes)
      → IsSendable v
      → 8 ≤ n
      → k.accept ≡ some fd
      → int_eq listening (negsuc 0) ≡ false
      → is_refused plugin (delivered dup v b.app_data) (arrival r v rest out lock activate) ≡ false
      → b.space_available ≡ 0
      → length parent ≢ 0
      → length area ≡ space_of parent
      → (s.getpriority ≡ none) ⊎ (s.getpriority ≡ some b.priority.nice)
      → s.setpriority b.priority.nice ≡ true
      → (e : Booster k) × (after : Names) × (initialize s booster_type parent socket listening
            boot_mode n plugin
            (arrival r v rest out lock activate ∷ [])
            b
            area
            env
          ≡ ready e after (deeds boot_mode socket (message r v rest out [] fd) (waits v) fd))
        × (e.app_data ≡ delivered dup v b.app_data)
        × (after.environ ≡ setenv (codes "_") v.argv0 (assignments v.environ))
        × (after.title ≡ some (basename v.argv0))
        × (e.priority.nice ≡ b.priority.nice)
        × (length after.area ≡ length area)
        × (delete_connection e.connection ≡ dup 0 ∷ dup 1 ∷ dup 2 ∷ [])
  unfolding initialize prepare set_booster_launcher_socket
  initialize-invoke_remote s booster_type parent socket listening boot_mode n fd plugin env v rest
        out lock activate b area ok enough acc there free new some_name space read again =
      let names : Names = record {
        area = area;
        available = b.space_available;
        title = none;
        environ = env;
      } in
      let (priority, named) = prepare s booster_type parent b.priority names in
      let a = delivered dup v b.app_data in
      let c = kept r v rest out named.environ fd in
      let w = launches (keeps_plugin plugin a) a c in
      let did = if boot_mode then [] else preloads ∷ [] in
      let start = record b {
        boot_mode = boot_mode;
        launcher_socket = socket;
        priority = priority;
        space_available = named.available;
      } in
      let (called, titled) =
        take_name_lem parent named (keeps_plugin plugin a) a c v.argv0 v.args
          (assignments v.environ) refl (kept_env r v rest out named.environ fd) some_name in
      (
        _,
        take_name parent w named,
        ap (λ x. finish parent did named x start)
              (serve_lem r v listening n fd plugin b.app_data named.environ rest out lock activate
                ok enough acc there free)
            ∙ finish_lem parent did named (keeps_plugin plugin a) a c start _ _
                (send_data_lem r v b.app_data rest out named.environ fd
                  ∙ message_lem r v rest out named.environ fd)
                (closed_lem v rest out named.environ fd),
        refl,
        called,
        titled,
        pop_priority-push_priority s (pos 10) b.priority read again,
        take_name-Known parent w area named
            (first-Known parent (temporary_name booster_type) names new space),
        rest_lem v rest out named.environ fd,
      )
