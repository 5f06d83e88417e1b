-- ===== src/Booster/Object.antt =====
-- The object `Booster` with all its members, and the whole of `initialize`.
use mapplauncherd.Base.{
  ℕ, Bool, false, List, [], ◌∷◌, ◌++◌, Option, none, some, Bytes, codes, map, if◌then◌else◌, ℤ, pos,
}
use mapplauncherd.Wire.{Kernel}
use mapplauncherd.AppData.{AppData, empty}
use mapplauncherd.Connection.State.{Connection, close}
use mapplauncherd.Connection.Descriptors.{closed_by_close, destroy}
use mapplauncherd.Daemon.Loop.{Message}
use mapplauncherd.Booster.Launch.{
  Waited, launches, throws, waiting, out_of_fuel, Arrival, serve, send_data_to_parent,
}
use mapplauncherd.Booster.Process.{Scheduler, Priority}
use mapplauncherd.Booster.Rename.{Names}
use mapplauncherd.Booster.Initialize.{prepare, take_name}

abbrev fallback_gid : ℕ
fallback_gid = 126

-- `getGroupId`; `group` is what `getgrnam_r` finds, none for an error and for a name that is not there.
unfoldable pub get_group_id : (Bytes → Option ℕ) → Bytes → ℕ → ℕ
get_group_id group name fallback = elim (group name) [ none ↦ fallback | some gid ↦ gid ]

-- The members; `priority` also has the one that the process runs at.
pub record Booster (k : Kernel) : Type 0 where
  pub app_data : AppData
  pub connection : Option (Connection k)
  pub priority : Priority
  pub launcher_socket : ℤ
  pub space_available : ℕ
  pub boot_mode : Bool
  pub boosted_gid : ℕ

-- The constructor, which leaves `m_boosterLauncherSocket` as the memory was.
unfoldable pub new_booster : (k : Kernel) → (Bytes → Option ℕ) → ℤ → ℤ → Booster k
unfolding get_group_id
new_booster k group nice memory = record {
  app_data = empty;
  connection = none;
  priority = record { old = pos 0; old_ok = false; nice = nice };
  launcher_socket = memory;
  space_available = 0;
  boot_mode = false;
  boosted_gid = get_group_id group (codes "boosted") fallback_gid;
}

-- What `resetOomAdj` does with the file: `file` is what `open` gives, and `written` whether `write` does.
pub data OomCall : Type 0 where
  writes : Bytes → OomCall
  closes_file : ℕ → OomCall
  logs_error : OomCall

unfoldable pub reset_oom_adj : Option ℕ → Bool → List OomCall
reset_oom_adj none written = logs_error ∷ []
reset_oom_adj (some fd) written =
    writes (codes "0") ∷ ((if written then [] else logs_error ∷ []) ++ closes_file fd ∷ [])

-- What `initialize` does besides: it preloads, sends its message through the socket to the daemon, closes a
-- descriptor, and no longer asks for a signal when its parent ends.
pub data Did : Type 0 where
  preloads : Did
  sends : ℤ → Message → Did
  closes : ℤ → Did
  forgets_parent : Did

-- How `initialize` ends: the booster, what the process is called by, and what it did; it throws; it still waits; or the fuel of the loop over an invoker's messages ran out.
pub data Initialized (k : Kernel) : Type 0 where
  ready : Booster k → Names → List Did → Initialized k
  cannot_read : Initialized k
  still_waiting : Initialized k
  spent : Initialized k

module _ {k : Kernel} where
  -- `delete m_connection`, with the descriptors that it closes.
  unfoldable pub delete_connection : Option (Connection k) → List ℕ
  delete_connection none = []
  delete_connection (some c) = (destroy c).0

  -- `setConnection`
  unfoldable pub set_connection : Option (Connection k) → Booster k → List ℕ × Booster k
  unfolding delete_connection
  set_connection new b = (delete_connection b.connection, record b { connection = new })

  unfoldable pub set_booster_launcher_socket : ℤ → Booster k → Booster k
  set_booster_launcher_socket socket b = record b { launcher_socket = socket }

  -- Behind the loop, with the names `named` that the process has so far.
  unfoldable pub finish : List Bytes → List Did → Names → Waited k → Booster k → Initialized k
  finish parent did named (launches plugin a c) b =
      let after = take_name parent (launches plugin a c) named in
      ready
        (record b { app_data = a; connection = some (close c); space_available = after.available })
        after
        (did
          ++ sends b.launcher_socket (send_data_to_parent a c)
            ∷ closes b.launcher_socket
            ∷ (map (λ fd. closes (pos fd)) (closed_by_close c) ++ forgets_parent ∷ []))
  finish parent did named throws b = cannot_read
  finish parent did named waiting b = still_waiting
  finish parent did named out_of_fuel b = spent

  -- `initialize`, with the words of `initialArgv`, the socket to the daemon and the listening one, the
  -- invokers that come, the bytes of the words' area, and the environment.
  unfoldable pub initialize :
      Scheduler
      → Bytes
      → List Bytes
      → ℤ
      → ℤ
      → Bool
      → ℕ
      → Bool
      → List (Arrival k)
      → Booster k
      → Bytes
      → List Bytes
      → Initialized k
  unfolding set_booster_launcher_socket
  initialize s booster_type parent socket listening boot_mode n plugin xs b area env =
      let b = set_booster_launcher_socket socket (record b { boot_mode = boot_mode }) in
      let names : Names = record {
        area = area;
        available = b.space_available;
        title = none;
        environ = env;
      } in
      let (priority, named) = prepare s booster_type parent b.priority names in
      let did = if boot_mode then [] else preloads ∷ [] in
      let b = record b { priority = priority; space_available = named.available } in
      finish parent did named (serve listening n plugin b.app_data named.environ xs) b
