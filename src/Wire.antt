-- ===== src/Wire.antt =====
-- The kernel's side of a connection between an invoker and a booster: a parameter of the model.
-- `Kernel` has the system calls that src/launcherlib/connection.cpp and src/invoker/invokelib.c
-- make on the socket, and `IsReliable` what POSIX promises of a stream socket whose data is there.
use mapplauncherd.Base.{
  ℕ, ◌≡◌, Bool, true, List, [], ◌∷◌, ◌++◌, Option, some, map, Bytes, length, encode_word,
}

-- What one peer puts into the socket: bytes, and one-byte messages that carry three descriptors.
pub data Item : Type 0 where
  byte : ℕ → Item
  rights : ℕ → ℕ → ℕ → Item

abbrev pub bytes : Bytes → List Item
bytes = map byte

-- The first control message that `recvmsg` hands out.
pub record Control : Type 0 where
  pub len : ℕ
  pub level : ℕ
  pub kind : ℕ
  pub fds : List (Option ℕ)

pub data Reply : Type 0 where
  failed : Reply
  received : ℕ → Option Control → Reply

pub record Kernel : Type 1 where
  pub Sock : Type 0
  -- `read(fd, buf, n)`: none is -1, and otherwise the bytes that arrived
  pub read : ℕ → Sock → Option Bytes × Sock
  -- `write(fd, buf, n) != -1`
  pub write : Bytes → Sock → Bool × Sock
  -- `recvmsg` of one byte with room for three descriptors: the flags and the control message
  pub recvmsg : Sock → Reply × Sock
  -- `accept` on the listening socket: none is -1, and otherwise the new descriptor's number
  pub accept : Option ℕ
  -- `getsockopt(fd, SOL_SOCKET, SO_PEERCRED, ...)`: none is -1, and otherwise the peer's pid
  pub peer_pid : Sock → Option ℕ
  pub getpid : ℕ
  -- what `new char[n]` holds before anything is written to it
  pub fresh : ℕ → Bytes
  -- CMSG_LEN(sizeof(m_io)), SOL_SOCKET and SCM_RIGHTS of the platform
  pub cmsg_len_io : ℕ
  pub sol_socket : ℕ
  pub scm_rights : ℕ

-- `stream inp out` is a socket with `inp` waiting to be read and `out` written so far, and `dup`
-- numbers a descriptor that came through it.
pub record IsReliable (k : Kernel) (stream : List Item → Bytes → k.Sock) (dup : ℕ → ℕ)
    : Type 0 where
  pub read_lem :
      (n : ℕ) (bs : Bytes) (rest : List Item) (out : Bytes)
      → length bs ≡ n
      → k.read n (stream (bytes bs ++ rest) out) ≡ (some bs, stream rest out)
  pub write_lem :
      (bs : Bytes) (inp : List Item) (out : Bytes)
      → k.write bs (stream inp out) ≡ (true, stream inp (out ++ bs))
  pub recvmsg_lem :
      (a b c : ℕ) (rest : List Item) (out : Bytes)
      → k.recvmsg (stream (rights a b c ∷ rest) out) ≡ (
        received 0 (
            some (record {
              len = k.cmsg_len_io;
              level = k.sol_socket;
              kind = k.scm_rights;
              fds = some (dup a) ∷ some (dup b) ∷ some (dup c) ∷ [];
            })),
        stream rest out,
      )

-- The items of one word.
abbrev pub word : ℕ → List Item
word w = bytes (encode_word w)
