-- ===== src/Tests/Sockets.antt =====
-- The sockets, and the search for programs, at concrete names.
use mapplauncherd.Base.{
  ◌≡◌, refl, true, false, List, [], ◌∷◌, ◌++◌, none, some, Bytes, codes, arith, All, bytes_eq, pos,
}
use mapplauncherd.Map.{find, insert}
use mapplauncherd.Map.Order.{bytes_ord}
use mapplauncherd.SocketManager.{
  SocketManager, Sockets, inited, init_socket, find_socket, socket_root_path, strncpy, max_len,
}
use mapplauncherd.SocketManager.Laws.{find_socket-init_socket}
use mapplauncherd.Invoker.Search.{
  System, merge_paths, ends_with_slash, search_dirs, has_char, search_dirs_first,
}
use mapplauncherd.Invoker.Connect.{connect_path, runtime_path, connect_path-socket_root_path}

abbrev runtime_dir : Bytes
runtime_dir = codes "run/user/1000"

abbrev qt5_path : Bytes
qt5_path = codes "/run/user/1000/mapplauncherd/qt5"

connects : connect_path (some (codes "/run/user/1000")) (codes "qt5") ≡ some qt5_path
unfolding connect_path runtime_path strncpy has_char
connects = refl

connect_path-socket_root_path_example :
    strncpy max_len (socket_root_path (some (codes "/run/user/1000")) ++ codes "qt5") ≡ qt5_path
connect_path-socket_root_path_example =
    connect_path-socket_root_path b'/' runtime_dir (codes "qt5") qt5_path (omega arith) connects

abbrev sockets : Sockets
sockets = record { socket = pos 7; bind = λ fd p. true; listen = λ fd. true }

abbrev manager : SocketManager
manager = record { root_path = codes "/run/"; sockets = []; closed = [] }

abbrev manager' : SocketManager
manager' = record { root_path = codes "/run/"; sockets = (codes "qt5", pos 7) ∷ []; closed = [] }

inits : init_socket sockets (codes "qt5") manager ≡ inited manager'
unfolding init_socket find insert
inits = refl

find_socket-init_socket_example :
    (find (codes "qt5") manager.sockets ≡ none → find_socket (codes "qt5") manager' ≡ pos 7)
    × (init_socket sockets (codes "qt5") manager' ≡ inited manager')
    × (bytes_eq (codes "qt5") (codes "e") ≡ false
        → find_socket (codes "e") manager' ≡ find_socket (codes "e") manager)
find_socket-init_socket_example =
    find_socket-init_socket sockets sockets (codes "qt5") (codes "e") manager manager' inits

-- Only `/usr/bin/app` is there.
abbrev pub system : System
system = record {
  is_executable = λ p. bytes_eq p (codes "/usr/bin/app");
  path = some (codes "/bin:/usr/bin");
  cwd = codes "/home";
}

abbrev app : Bytes
app = codes "/usr/bin/app"

finds_in : search_dirs system (codes "app") (codes "/bin" ∷ codes "/usr/bin/" ∷ []) ≡ some app
unfolding search_dirs merge_paths ends_with_slash bytes_eq
finds_in = refl

search_dirs_first_example :
    (before : List Bytes) × (dir : Bytes) × (after : List Bytes) × (codes "/bin"
        ∷ codes "/usr/bin/"
        ∷ []
      ≡ before ++ dir ∷ after)
    × (app ≡ merge_paths dir (codes "app"))
    × (system.is_executable app ≡ true)
    × All (λ d. system.is_executable (merge_paths d (codes "app")) ≡ false) before
search_dirs_first_example =
    search_dirs_first system (codes "app") app (codes "/bin" ∷ codes "/usr/bin/" ∷ []) finds_in
