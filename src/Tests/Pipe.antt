-- ===== src/Tests/Pipe.antt =====
-- A kernel whose sockets hold what is waiting and what was written.
use mapplauncherd.Base.{
  ℕ, zero, suc, ◌+◌, ◌≤◌, ◌≡◌, refl, ap, true, List, [], ◌∷◌, ◌++◌, none, some, Bytes, length,
  arith, if◌then◌else◌, ◌==◌,
}
use mapplauncherd.Wire.{Kernel, IsReliable, Item, byte, rights, bytes, Reply, failed, received}
use mapplauncherd.Connection.Termination.{Drains}

-- At most `n` leading bytes.
unfoldable pub take_bytes : ℕ → List Item → Bytes × List Item
take_bytes zero inp = ([], inp)
take_bytes (suc n) [] = ([], [])
take_bytes (suc n) (rights a b c ∷ inp) = ([], rights a b c ∷ inp)
take_bytes (suc n) (byte b ∷ inp) = let (bs, rest) = take_bytes n inp in (b ∷ bs, rest)

unfoldable pub take_rights : List Item → Reply × List Item
take_rights [] = (failed, [])
take_rights (byte b ∷ inp) = (received 0 none, inp)
take_rights (rights a b c ∷ inp) = (
  received 0 (
      some (record {
        len = 28;
        level = 1;
        kind = 1;
        fds = some (a + 10) ∷ some (b + 10) ∷ some (c + 10) ∷ [];
      })),
  inp,
)

abbrev pub zeros : ℕ → Bytes
zeros zero = []
zeros (suc n) = 0 ∷ zeros n

abbrev pub pipe : Kernel
pipe = record {
  Sock = List Item × Bytes;
  read = λ n s. let (bs, rest) = take_bytes n s.0 in (some bs, (rest, s.1));
  write = λ bs s. (true, (s.0, s.1 ++ bs));
  recvmsg = λ s. let (r, rest) = take_rights s.0 in (r, (rest, s.1));
  accept = some 5;
  peer_pid = λ s. some 77;
  getpid = 42;
  fresh = zeros;
  cmsg_len_io = 28;
  sol_socket = 1;
  scm_rights = 1;
}

pub length-zeros : (n : ℕ) → length (zeros n) ≡ n
length-zeros zero = refl
length-zeros (suc n) = ap suc (length-zeros n)

-- The same kernel where a `read` of anything but a word fails.
abbrev pub broken : Kernel
broken = record pipe { read = λ n s. (if n == 4 then some (5 ∷ 0 ∷ 0 ∷ 0 ∷ []) else none, s) }

abbrev pub stream : List Item → Bytes → pipe.Sock
stream inp out = (inp, out)

abbrev pub dup : ℕ → ℕ
dup n = n + 10

take_bytes_lem :
    (bs : Bytes) (rest : List Item) → take_bytes (length bs) (bytes bs ++ rest) ≡ (bs, rest)
unfolding take_bytes
take_bytes_lem [] rest = refl
take_bytes_lem (b ∷ bs) rest = rw (take_bytes_lem bs rest)

pub pipe-IsReliable : IsReliable pipe stream dup
unfolding take_rights
pipe-IsReliable = record {
  read_lem = λ n bs rest out h. rw (← h) (rw (take_bytes_lem bs rest));
  write_lem = λ bs inp out. refl;
  recvmsg_lem = λ a b c rest out. refl;
}

take_bytes-le :
    (n : ℕ) (inp : List Item)
    → length (take_bytes n inp).1 + length (take_bytes n inp).0 ≤ length inp
unfolding take_bytes
take_bytes-le zero inp = omega arith
take_bytes-le (suc n) [] = omega arith
take_bytes-le (suc n) (rights a b c ∷ inp) = omega arith
take_bytes-le (suc n) (byte b ∷ inp) = omega (arith, take_bytes-le n inp)

abbrev pub size : pipe.Sock → ℕ
size s = length s.0

take_rights-le : (inp : List Item) → length (take_rights inp).1 ≤ length inp
unfolding take_rights
take_rights-le [] = omega arith
take_rights-le (byte b ∷ inp) = omega arith
take_rights-le (rights a b c ∷ inp) = omega arith

pub pipe-Drains : Drains pipe size
pipe-Drains = record { read_le = λ n s. take_bytes-le n s.0; recvmsg_le = λ s. take_rights-le s.0 }
