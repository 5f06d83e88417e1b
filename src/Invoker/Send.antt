-- ===== src/Invoker/Send.antt =====
-- What the invoker writes to the socket: src/invoker/invokelib.c, and the `invoker_send_*` functions
-- and `invoke_remote` of src/invoker/invoker.c. The results of `write` and `sendmsg` are not used
-- there, so a function is modelled by the items that it writes, in order.
use mapplauncherd.Base.{ℕ, ◌+◌, List, [], ◌∷◌, ◌++◌, Bytes, length, bit_or, encode_word}
use mapplauncherd.Wire.{Item, rights, bytes}
use mapplauncherd.Protocol.{
  magic, magic_version, msg_name, msg_exec, msg_args, msg_env, msg_prio, msg_delay, msg_ids, msg_io,
  msg_end,
}

-- `invoke_send_msg`
unfoldable pub send_msg : ℕ → List Item
send_msg msg = bytes (encode_word msg)

-- `invoke_send_str`: the size counts the terminating zero.
unfoldable pub send_str : Bytes → List Item
send_str str = send_msg (length str + 1) ++ bytes (str ++ 0 ∷ [])

unfoldable pub send_magic : ℕ → List Item
send_magic options = send_msg (bit_or (bit_or magic magic_version) options)

unfoldable pub send_name : Bytes → List Item
send_name name = send_msg msg_name ++ send_str name

unfoldable pub send_exec : Bytes → List Item
send_exec exec = send_msg msg_exec ++ send_str exec

-- The loop over the strings of `argv` or `environ`.
unfoldable pub send_strs : List Bytes → List Item
send_strs [] = []
send_strs (s ∷ ss) = send_str s ++ send_strs ss

unfoldable pub send_args : List Bytes → List Item
send_args argv = send_msg msg_args ++ (send_msg (length argv) ++ send_strs argv)

unfoldable pub send_prio : ℕ → List Item
send_prio prio = send_msg msg_prio ++ send_msg prio

unfoldable pub send_delay : ℕ → List Item
send_delay delay = send_msg msg_delay ++ send_msg delay

unfoldable pub send_ids : ℕ → ℕ → List Item
send_ids uid gid = send_msg msg_ids ++ (send_msg uid ++ send_msg gid)

unfoldable pub send_io : List Item
unfolding send_msg
send_io = send_msg msg_io ++ rights 0 1 2 ∷ []

unfoldable pub send_env : List Bytes → List Item
send_env environ = send_msg msg_env ++ (send_msg (length environ) ++ send_strs environ)

-- The part of `invoker_send_end` that writes; its `invoke_recv_ack` is in Invoker/Wait.
unfoldable pub send_end : List Item
unfolding send_msg
send_end = send_msg msg_end

-- All that `invoke_remote` sends is determined by these.
pub record Invocation : Type 0 where
  pub options : ℕ
  pub argv0 : Bytes
  pub args : List Bytes
  pub prog_name : Bytes
  pub prio : ℕ
  pub respawn_delay : ℕ
  pub uid : ℕ
  pub gid : ℕ
  pub environ : List Bytes

-- The arguments start with the program's name, `prog_argv[0]`.
abbrev pub argv : Invocation → List Bytes
argv v = v.argv0 ∷ v.args

-- The messages that `receiveActions` reads, those after the magic and the name.
unfoldable pub send_actions : Invocation → List Item
send_actions v =
    send_exec v.prog_name
    ++ (send_args (argv v)
        ++ (send_prio v.prio
            ++ (send_delay v.respawn_delay
                ++ (send_ids v.uid v.gid ++ (send_io ++ (send_env v.environ ++ send_end))))))

unfoldable pub invoke_remote : Invocation → List Item
invoke_remote v = send_magic v.options ++ (send_name v.argv0 ++ send_actions v)
