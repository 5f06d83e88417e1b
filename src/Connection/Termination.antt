-- ===== src/Connection/Termination.antt =====
-- `receiveActions` ends: each round that goes on has consumed a word of what the invoker sent.
use mapplauncherd.Base.{
  ℕ, zero, suc, ◌+◌, ◌≤◌, ◌<◌, ◌≡◌, ◌≢◌, Bool, List, [], Option, none, some, Bytes, arith, length,
  inl, inr, Option-cases,
}
use mapplauncherd.Wire.{Kernel}
use mapplauncherd.Connection.State.{Connection, recv_msg, recv_str_body, recv_str}
use mapplauncherd.Connection.Receive.{
  receive_exec, receive_priority, receive_delay, receive_ids, recv_argv, receive_args, put_var,
  recv_vars, receive_env, take_io, receive_io,
}
use mapplauncherd.Connection.Actions.{handle_action, action_round, receive_actions}

-- The bytes that a `read` handed over.
abbrev pub taken : Option Bytes → ℕ
taken none = 0
taken (some bs) = length bs

-- `size` measures what a socket still has to deliver: no call adds to it, and what `read` returns is
-- taken away.
pub record Drains (k : Kernel) (size : k.Sock → ℕ) : Type 0 where
  pub read_le : (n : ℕ) (s : k.Sock) → size (k.read n s).1 + taken (k.read n s).0 ≤ size s
  pub recvmsg_le : (s : k.Sock) → size (k.recvmsg s).1 ≤ size s

module _ {k : Kernel} {size : k.Sock → ℕ} (d : Drains k size) where
  abbrev left : Connection k → ℕ
  left c = size c.sock

  recv_msg-le : (w : ℕ) (c : Connection k) → left (recv_msg w c).1 ≤ left c
  unfolding recv_msg
  recv_msg-le w c = ground (arith, d.read_le 4 c.sock)

  -- A word other than 0 was read in full.
  recv_msg-lt : (c : Connection k) → (recv_msg 0 c).0.1 ≢ 0 → left (recv_msg 0 c).1 < left c
  unfolding recv_msg
  recv_msg-lt c h = ground (arith, d.read_le 4 c.sock)

  recv_str-le : (c : Connection k) → left (recv_str c).1 ≤ left c
  unfolding recv_str recv_str_body
  recv_str-le c =
      ground (arith, recv_msg-le 0 c, d.read_le (recv_msg 0 c).0.1 (recv_msg 0 c).1.sock)

  receive_exec-le : (c : Connection k) → left (receive_exec c).1 ≤ left c
  unfolding receive_exec
  receive_exec-le c = ground (arith, recv_str-le c)

  recv_argv-le : (n : ℕ) (got : List Bytes) (c : Connection k) → left (recv_argv n got c).1 ≤ left c
  unfolding recv_argv
  recv_argv-le zero got c = omega arith
  recv_argv-le (suc n) got c = grind (arith, recv_str-le c, recv_argv-le n)

  receive_args-le : (c : Connection k) → left (receive_args c).1 ≤ left c
  unfolding receive_args
  receive_args-le c = ground (
    arith,
    recv_msg-le c.argc c,
    recv_argv-le (recv_msg c.argc c).0.1 []
        (record (recv_msg c.argc c).1 { argc = (recv_msg c.argc c).0.1 }),
  )

  put_var-le : (s : Bytes) (c : Connection k) → left (put_var s c) ≡ left c
  unfolding put_var
  put_var-le s c = ground arith

  recv_vars-le : (n : ℕ) (c : Connection k) → left (recv_vars n c).1 ≤ left c
  unfolding recv_vars
  recv_vars-le zero c = omega arith
  recv_vars-le (suc n) c = grind (arith, recv_str-le c, recv_vars-le n, put_var-le)

  receive_env-le : (c : Connection k) → left (receive_env c).1 ≤ left c
  unfolding receive_env
  receive_env-le c =
      ground (arith, recv_msg-le 0 c, recv_vars-le (recv_msg 0 c).0.1 (recv_msg 0 c).1)

  receive_priority-le : (c : Connection k) → left (receive_priority c).1 ≤ left c
  unfolding receive_priority
  receive_priority-le c = recv_msg-le c.priority c

  receive_delay-le : (c : Connection k) → left (receive_delay c).1 ≤ left c
  unfolding receive_delay
  receive_delay-le c = recv_msg-le c.delay c

  receive_ids-le : (c : Connection k) → left (receive_ids c).1 ≤ left c
  unfolding receive_ids
  receive_ids-le c =
      let c' = record (recv_msg c.uid c).1 { uid = (recv_msg c.uid c).0.1 } in
      omega (arith, recv_msg-le c.uid c, recv_msg-le c'.gid c')

  receive_io-le : (c : Connection k) → left (receive_io c).1 ≤ left c
  unfolding receive_io take_io
  receive_io-le c = ground (arith, d.recvmsg_le c.sock)

  handle_action-le :
      (w : ℕ) (c : Connection k)
      → (handle_action w c).0 ≡ none
      → (w ≢ 0) × (left (handle_action w c).1 ≤ left c)
  unfolding handle_action
  handle_action-le w c h = ground (
    arith,
    receive_exec-le c,
    receive_args-le c,
    receive_env-le (record c { env = [] }),
    receive_priority-le c,
    receive_delay-le c,
    receive_ids-le c,
    receive_io-le c,
  )

  action_round-lt :
      (c : Connection k) → (action_round c).0 ≡ none → left (action_round c).1 < left c
  unfolding action_round
  action_round-lt c h =
      let w = (recv_msg 0 c).0.1 in
      let e = handle_action-le w (recv_msg 0 c).1 h in omega (arith, e.1, recv_msg-lt c e.0)

  -- The loop over the actions ends, with a verdict, within as many rounds as the socket has bytes to
  -- deliver and one, if no call adds to what the socket delivers: whatever the peer has sent, it
  -- cannot keep the booster in the loop.
  pub receive_actions_total :
      (fuel : ℕ) (c : Connection k)
      → size c.sock < fuel
      → (b : Bool) × ((receive_actions fuel c).0 ≡ some b)
  unfolding receive_actions
  receive_actions_total zero c h = elim h [ ]
  receive_actions_total (suc fuel) c h = elim (Option-cases (action_round c).0) [
    | inl e ↦
        rw (e, receive_actions)
          (receive_actions_total fuel (action_round c).1 (omega (arith, action_round-lt c e)))
    | inr (b, e) ↦ (b, rw (e, receive_actions))
  ]
