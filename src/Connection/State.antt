-- ===== src/Connection/State.antt =====
-- The class `Connection`: its fields, and the members that move single messages.
use mapplauncherd.Base.{
  ℕ, Bool, true, false, not, ◌&&◌, ◌||◌, int_eq, List, [], ◌∷◌, Option, none, some, Bytes, length,
  ltb, ◌==◌, if◌then◌else◌, encode_word, decode_word, ℤ, pos, negsuc, ◌-◌, ◌%◌, word_mod,
}
use mapplauncherd.Wire.{Kernel}
use mapplauncherd.Protocol.{msg_pid, msg_exit}

-- Descriptors are `none` for -1. `argv` is `none` for a null pointer, and otherwise the entries that
-- were set. `env` is the environment of the process. `sock` is what
-- the kernel keeps for `fd`.
pub record Connection (k : Kernel) : Type 0 where
  pub test_mode : Bool
  pub fd : Option ℕ
  pub sock : k.Sock
  pub file_name : Bytes
  pub argc : ℕ
  pub argv : Option (List Bytes)
  pub io : List (Option ℕ)
  pub priority : ℕ
  pub delay : ℕ
  pub send_pid : Bool
  pub gid : ℕ
  pub uid : ℕ
  pub env : List Bytes

-- A member function takes the object and returns its result with the object's new state.
abbrev pub M : Kernel → Type 0 → Type 0
M k A = Connection k → A × Connection k

abbrev pub pure : {k : Kernel} {A : Type 0} → A → M k A
pure a c = (a, c)

infixl 5 ◌>>=◌ ◌>>◌
abbrev pub ◌>>=◌ : {k : Kernel} {A B : Type 0} → M k A → (A → M k B) → M k B
◌>>=◌ m f c = f (m c).0 (m c).1

abbrev pub ◌>>◌ : {k : Kernel} {A B : Type 0} → M k A → M k B → M k B
m >> n = m >>= λ _. n

-- Whether the constructor throws: the listening socket is -1, and it is no test.
unfoldable pub refuses_socket : Bool → ℤ → Bool
refuses_socket test_mode socket = not test_mode && int_eq socket (negsuc 0)

-- The constructor, where it does not throw; `s` is what the kernel will keep for the connection, `vars` the environment.
unfoldable pub initial : (k : Kernel) → k.Sock → List Bytes → Connection k
initial k s vars = record {
  test_mode = false;
  fd = none;
  sock = s;
  file_name = [];
  argc = 0;
  argv = none;
  io = none ∷ none ∷ none ∷ [];
  priority = 0;
  delay = 0;
  send_pid = false;
  gid = 0;
  uid = 0;
  env = vars;
}

-- The bytes of a C string up to its terminating zero.
unfoldable pub c_str : Bytes → Bytes
c_str [] = []
c_str (b ∷ bs) = if b == 0 then [] else b ∷ c_str bs

-- `str[size - 1] = '\0'`
unfoldable pub set_last : Bytes → Bytes
set_last [] = []
set_last (b ∷ []) = 0 ∷ []
set_last (b ∷ b' ∷ bs) = b ∷ set_last (b' ∷ bs)

-- What `recvMsg` makes of the result of its `read`.
unfoldable pub word_read : Option Bytes → Bool × ℕ
word_read none = (false, 0)
word_read (some bs) = (true, if ltb (length bs) 4 then 0 else decode_word bs)

abbrev pub str_len_max : ℕ
str_len_max = 4096

-- The conversion of an integer to a `uint32_t`.
unfoldable pub to_uint32 : ℤ → ℕ
to_uint32 (pos n) = n % word_mod
to_uint32 (negsuc n) = word_mod - 1 - n % word_mod

-- What `read` returns: the number of the bytes that it has read, or -1.
unfoldable pub read_count : Option Bytes → ℤ
read_count none = negsuc 0
read_count (some bs) = pos (length bs)

-- The buffer behind a `read`: a failed one leaves it as it was new.
unfoldable pub filled : Kernel → ℕ → Option Bytes → Bytes
filled k size none = k.fresh size
filled k size (some bs) = bs

-- `recvStr` behind its `read`. The result of `read` is kept in a `uint32_t`, and compared with the size.
unfoldable pub str_read : Kernel → ℕ → Option Bytes → Option Bytes
unfolding c_str set_last to_uint32 read_count filled
str_read k size r =
    let ret = to_uint32 (read_count r) in
    if ltb ret size then none else some (c_str (set_last (filled k size r)))

abbrev fd_of : Option ℕ → ℤ
fd_of none = negsuc 0
fd_of (some n) = pos n

module _ {k : Kernel} where
  -- `getFd`
  abbrev pub get_fd : Connection k → ℤ
  get_fd c = fd_of c.fd

  unfoldable pub accept : M k Bool
  accept c = if c.test_mode then (true, c) else elim k.accept [
    | none ↦ (false, record c { fd = none })
    | some n ↦ (true, record c { fd = some n })
  ]

  unfoldable pub connected : Connection k → Bool
  connected c = elim c.fd [ none ↦ false | some _ ↦ true ]

  unfoldable pub close : Connection k → Connection k
  close c = record c { fd = none }

  unfoldable pub send_msg : ℕ → M k Bool
  send_msg msg c =
      if c.test_mode
      then (true, c)
      else let (sent, s) = k.write (encode_word msg) c.sock in (sent, record c { sock = s })

  -- `msg` is what the caller's variable holds before the call; the result is what it holds after.
  unfoldable pub recv_msg : ℕ → M k (Bool × ℕ)
  unfolding word_read
  recv_msg msg c =
      if c.test_mode
      then ((true, msg), c)
      else let (r, s) = k.read 4 c.sock in (word_read r, record c { sock = s })

  unfoldable pub recv_str_body : ℕ → M k (Option Bytes)
  unfolding str_read
  recv_str_body size c =
      let (r, s) = k.read size c.sock in (str_read k size r, record c { sock = s })

  unfoldable pub recv_str : M k (Option Bytes)
  recv_str c =
      if c.test_mode
      then (none, c)
      else (do
        (res, size) ← recv_msg 0
        if not res || size == 0 || ltb str_len_max size then pure none else recv_str_body size)
          c

  unfoldable pub send_pid : ℕ → M k Bool
  send_pid pid = do send_msg msg_pid; send_msg pid; pure true

  unfoldable pub send_exit_value : ℕ → M k Bool
  send_exit_value value = do send_msg msg_exit; send_msg value; pure true

  unfoldable pub is_report_app_exit_status_needed : Connection k → Bool
  is_report_app_exit_status_needed c = c.send_pid

  -- 0 where `getsockopt` fails.
  unfoldable pub peer_pid : Connection k → ℕ
  peer_pid c = elim (k.peer_pid c.sock) [ none ↦ 0 | some pid ↦ pid ]
