-- ===== src/SocketManager/Laws.antt =====
-- What a socket's name stands for.
use mapplauncherd.Base.{
  false, none, some, Bytes, if◌then◌else◌, arith, ◌≡◌, refl, ◌⊎◌, inl, inr, Option-cases, bytes_eq,
  bytes_eq_iff, ℤ, negsuc,
}
use mapplauncherd.Map.{find, insert}
use mapplauncherd.Map.Order.{bytes_ord}
use mapplauncherd.Map.Laws.{find-insert, find-erase}
use mapplauncherd.SocketManager.{
  SocketManager, Sockets, inited, init_socket, close_socket, find_socket,
}

init_cases :
    (s : Sockets) (id : Bytes) (m m' : SocketManager)
    → init_socket s id m ≡ inited m'
    → ((fd : ℤ) × (find id m.sockets ≡ some fd) × (m ≡ m'))
      ⊎ ((find id m.sockets ≡ none) × (m'.sockets ≡ insert id s.socket m.sockets))
unfolding init_socket
init_cases s id m m' h = elim (Option-cases (find id m.sockets)) [
  | inl new ↦ inr (new, ground arith)
  | inr (fd, old) ↦ inl (fd, old, ground arith)
]

init_socket_again :
    (s : Sockets) (id : Bytes) (m : SocketManager) (fd : ℤ)
    → find id m.sockets ≡ some fd
    → init_socket s id m ≡ inited m
unfolding init_socket
init_socket_again s id m fd h = rw (h, init_socket)

-- What was made is there, and no other name is touched.
init_finds :
    (s : Sockets) (id other : Bytes) (m m' : SocketManager)
    → init_socket s id m ≡ inited m'
    → ((fd : ℤ) × (find id m'.sockets ≡ some fd) × ((find id m.sockets ≡ none) → fd ≡ s.socket))
      × (bytes_eq id other ≡ false → find other m'.sockets ≡ find other m.sockets)
init_finds s id other m m' h = elim (init_cases s id m m' h) [
  | inl (fd, old, same) ↦ ((fd, ground arith, λ z. absurd (cc)), λ z. cc)
  | inr (new, stored) ↦ (
    (s.socket, ground (arith, find-insert id id s.socket m.sockets, bytes_eq_iff id id), λ z. refl),
    λ z. ground (arith, find-insert id other s.socket m.sockets),
  )
]

-- A socket that was made is found under its name, also when it is asked for again, which makes no other;
-- every other name stands for what it stood for.
pub find_socket-init_socket :
    (s s' : Sockets) (id other : Bytes) (m m' : SocketManager)
    → init_socket s id m ≡ inited m'
    → (find id m.sockets ≡ none → find_socket id m' ≡ s.socket)
      × (init_socket s' id m' ≡ inited m')
      × (bytes_eq id other ≡ false → find_socket other m' ≡ find_socket other m)
unfolding find_socket
find_socket-init_socket s s' id other m m' h =
    let ((fd, here, made), others) = init_finds s id other m m' h in
    (
      λ z. rw (here, find_socket) (made z),
      init_socket_again s' id m' fd here,
      λ z. rw (others z, find_socket),
    )

-- A socket that is closed is found no more, and every other name stands for what it stood for.
find_socket-close_socket :
    (id other : Bytes) (m : SocketManager)
    → find_socket other (close_socket id m)
      ≡ (if bytes_eq id other then negsuc 0 else find_socket other m)
unfolding close_socket find_socket
find_socket-close_socket id other m =
    ground (arith, find-erase id other m.sockets, bytes_eq_iff id other)
