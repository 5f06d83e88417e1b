-- ===== src/Connection/Receive.antt =====
-- The members of `Connection` that read one part of an invocation each.
use mapplauncherd.Base.{
  ℕ, zero, suc, Bool, true, false, not, ◌||◌, ◌&&◌, List, [], ◌∷◌, ◌++◌, Option, none, some, Bytes,
  ltb, ◌==◌, if◌then◌else◌, bit_and,
}
use mapplauncherd.Environ.{putenv}
use mapplauncherd.Wire.{Kernel, Reply, failed, received}
use mapplauncherd.Protocol.{
  magic, magic_version_mask, magic_version, option_mask, option_wait, msg_mask, msg_name,
}
use mapplauncherd.Connection.State.{Connection, M, pure, ◌>>=◌, recv_msg, recv_str}

-- -1 as a `uint32_t`.
abbrev pub bad_options : ℕ
bad_options = 0xffffffff

abbrev pub arg_max : ℕ
arg_max = 1024

abbrev pub max_vars : ℕ
max_vars = 1024

-- `strchr(s, '=')`
unfoldable pub putenv_sanitize : Bytes → Bool
putenv_sanitize [] = false
putenv_sanitize (b ∷ bs) = b == b'=' || putenv_sanitize bs

module _ {k : Kernel} where
  -- What `receiveMagic` does with the word it read.
  unfoldable pub take_magic : ℕ → M k ℕ
  take_magic m c =
      if bit_and m msg_mask == magic && not (bit_and m magic_version_mask == magic_version)
      then (bad_options, c)
      else (bit_and m option_mask, record c { send_pid = not (bit_and m option_wait == 0) })

  unfoldable pub receive_magic : M k ℕ
  receive_magic = do (_, m) ← recv_msg 0; take_magic m

  recv_name : M k Bytes
  recv_name = do name ← recv_str; pure (elim name [ none ↦ [] | some s ↦ s ])

  unfoldable pub receive_app_name : M k Bytes
  unfolding recv_name
  receive_app_name = do (_, msg) ← recv_msg 0; if not (msg == msg_name) then pure [] else recv_name

  set_file_name : Option Bytes → M k Bool
  set_file_name none c = (false, c)
  set_file_name (some s) c = (true, record c { file_name = s })

  unfoldable pub receive_exec : M k Bool
  unfolding set_file_name
  receive_exec = recv_str >>= set_file_name

  unfoldable pub receive_priority : M k Bool
  receive_priority c =
      let ((_, w), c') = recv_msg c.priority c in (true, record c' { priority = w })

  unfoldable pub receive_delay : M k Bool
  receive_delay c = let ((_, w), c') = recv_msg c.delay c in (true, record c' { delay = w })

  unfoldable pub receive_ids : M k Bool
  receive_ids c =
      let ((_, u), c') = recv_msg c.uid c in
      let c'' = record c' { uid = u } in
      let ((_, g), d) = recv_msg c''.gid c'' in (true, record d { gid = g })

  -- `m_argv[i] = recvStr()` for the entries that are left; `got` holds those before.
  unfoldable pub recv_argv : ℕ → List Bytes → M k Bool
  recv_argv zero got c = (true, record c { argv = some got })
  recv_argv (suc n) got c = elim (recv_str c).0 [
    | none ↦ (false, record (recv_str c).1 { argv = some got })
    | some s ↦ recv_argv n (got ++ s ∷ []) (recv_str c).1
  ]

  unfoldable pub receive_args : M k Bool
  receive_args c =
      let ((_, n), c') = recv_msg c.argc c in
      let d = record c' { argc = n } in
      if ltb 0 n && ltb n arg_max then recv_argv n [] d else (false, d)

  -- `putenv` where the string has a '='; the result of `putenv` is only logged.
  unfoldable pub put_var : Bytes → Connection k → Connection k
  unfolding putenv_sanitize
  put_var s c = if putenv_sanitize s then record c { env = putenv s c.env } else c

  unfoldable pub recv_vars : ℕ → M k Bool
  recv_vars zero c = (true, c)
  recv_vars (suc n) c = elim (recv_str c).0 [
    | none ↦ (false, (recv_str c).1)
    | some s ↦ recv_vars n (put_var s (recv_str c).1)
  ]

  unfoldable pub receive_env : M k Bool
  receive_env = do
    (_, n) ← recv_msg 0
    if ltb 0 n && ltb n max_vars then recv_vars n else pure false

  -- The checks that `receiveIO` makes on the reply of `recvmsg`.
  unfoldable pub take_io : Reply → M k Bool
  take_io failed c = (false, c)
  take_io (received flags none) c = (false, c)
  take_io (received flags (some m)) c =
      if not (flags == 0)
      then (false, c)
      else if not (m.len == k.cmsg_len_io)
          || not (m.level == k.sol_socket)
          || not (m.kind == k.scm_rights)
      then (false, c)
      else (true, record c { io = m.fds })

  unfoldable pub receive_io : M k Bool
  unfolding take_io
  receive_io c = let (r, s) = k.recvmsg c.sock in take_io r (record c { sock = s })
