-- ===== src/SocketManager.antt =====
-- The class `SocketManager`, src/launcherlib/socketmanager.cpp: the listening sockets by their names.
pub mod Laws
use mapplauncherd.Base.{
  ℕ, zero, suc, ◌-◌, Bool, true, false, not, ◌||◌, List, [], ◌∷◌, ◌++◌, Option, none, some, Bytes,
  codes, length, ltb, if◌then◌else◌, ℤ, pos, negsuc, int_lt, ◌==◌,
}
use mapplauncherd.Map.{Map, find, insert, erase}
use mapplauncherd.Map.Order.{bytes_ord}

-- `calls` is no field of the source: the descriptors that were closed, in order.
pub record SocketManager : Type 0 where
  pub root_path : Bytes
  pub sockets : Map Bytes ℤ
  pub closed : List ℤ

-- The path that the constructor builds from XDG_RUNTIME_DIR; whether `mkdir` succeeds is only logged.
unfoldable pub socket_root_path : Option Bytes → Bytes
socket_root_path none = codes "/tmp//mapplauncherd/"
socket_root_path (some []) = codes "/tmp//mapplauncherd/"
socket_root_path (some (b ∷ dir)) = (b ∷ dir) ++ codes "/mapplauncherd/"

unfoldable pub initial : Option Bytes → SocketManager
unfolding socket_root_path
initial runtime_dir = record { root_path = socket_root_path runtime_dir; sockets = []; closed = [] }

-- `strncpy(buf, s, n)` with a zero stored behind it, for a text without zeros.
unfoldable pub strncpy : ℕ → Bytes → Bytes
strncpy zero s = []
strncpy (suc n) [] = []
strncpy (suc n) (b ∷ s) = b ∷ strncpy n s

-- sizeof(sun_path) - 1
abbrev pub max_len : ℕ
max_len = 107

-- The results of `socket`, of `bind` to a path, and of `listen`.
pub record Sockets : Type 0 where
  pub socket : ℤ
  pub bind : ℤ → Bytes → Bool
  pub listen : ℤ → Bool

pub data Inited : Type 0 where
  inited : SocketManager → Inited
  throws : Inited

-- `initSocket`. What it does to a file that stands at the path has no effect on the state.
unfoldable pub init_socket : Sockets → Bytes → SocketManager → Inited
init_socket s socket_id m = elim (find socket_id m.sockets) [
  | some fd ↦ inited m
  | none ↦
      let socket_path = m.root_path ++ socket_id in
      if int_lt s.socket (pos 0)
      then throws
      else if not (s.bind s.socket (strncpy max_len socket_path))
      then throws
      else if not (s.listen s.socket)
      then throws
      else inited (record m { sockets = insert socket_id s.socket m.sockets })
]

unfoldable pub close_socket : Bytes → SocketManager → SocketManager
close_socket socket_id m = elim (find socket_id m.sockets) [
  | none ↦ m
  | some fd ↦ record m { sockets = erase socket_id m.sockets; closed = m.closed ++ fd ∷ [] }
]

-- The descriptors that the loop of `closeAllSockets` closes.
unfoldable pub closable : Map Bytes ℤ → List ℤ
closable [] = []
closable ((id, fd) ∷ m) = if int_lt (pos 0) fd then fd ∷ closable m else closable m

unfoldable pub close_all_sockets : SocketManager → SocketManager
unfolding closable
close_all_sockets m = record m { sockets = []; closed = m.closed ++ closable m.sockets }

unfoldable pub find_socket : Bytes → SocketManager → ℤ
find_socket socket_id m = elim (find socket_id m.sockets) [ none ↦ negsuc 0 | some fd ↦ fd ]

unfoldable pub socket_count : SocketManager → ℕ
socket_count m = length m.sockets

unfoldable pub add_mapping : Bytes → ℤ → SocketManager → SocketManager
add_mapping socket_id fd m = record m { sockets = insert socket_id fd m.sockets }
