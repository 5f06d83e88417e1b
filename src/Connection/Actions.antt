-- ===== src/Connection/Actions.antt =====
-- `Connection::receiveActions` and `Connection::receiveApplicationData`.
use mapplauncherd.Base.{
  ℕ, zero, suc, Bool, true, false, [], ◌∷◌, Option, none, some, Bytes, ◌==◌, if◌then◌else◌,
}
use mapplauncherd.Wire.{Kernel}
use mapplauncherd.AppData.{
  AppData, set_options, set_app_name, set_file_name, set_priority, set_delay, set_argc, set_argv,
  set_io_descriptors, set_ids,
}
use mapplauncherd.Protocol.{
  msg_exec, msg_args, msg_env, msg_prio, msg_delay, msg_io, msg_ids, msg_splash,
  msg_landscape_splash, msg_end, msg_ack,
}
use mapplauncherd.Connection.State.{Connection, M, pure, ◌>>=◌, recv_msg, send_msg, send_pid}
use mapplauncherd.Connection.Receive.{
  bad_options, receive_magic, receive_app_name, receive_exec, receive_priority, receive_delay,
  receive_ids, receive_args, receive_env, receive_io,
}

module _ {k : Kernel} where
  -- A member called for its effect: `break` leaves the switch, and the loop goes on.
  abbrev continue_after : M k Bool → M k (Option Bool)
  continue_after m = m >>= λ _. pure none

  -- `clearenv()`
  clear_env : Connection k → Connection k
  clear_env c = record c { env = [] }

  -- `case INVOKER_MSG_END`
  unfoldable pub acknowledge : M k Bool
  acknowledge c =
      let d = (send_msg msg_ack c).1 in
      if d.send_pid then (true, (send_pid k.getpid d).1) else (true, d)

  -- The switch of the loop: `none` goes round again, `some b` returns `b`.
  unfoldable pub handle_action : ℕ → M k (Option Bool)
  unfolding clear_env
  handle_action action c =
      if action == msg_exec
      then continue_after receive_exec c
      else if action == msg_args
      then continue_after receive_args c
      else if action == msg_env
      then continue_after receive_env (clear_env c)
      else if action == msg_prio
      then continue_after receive_priority c
      else if action == msg_delay
      then continue_after receive_delay c
      else if action == msg_io
      then continue_after receive_io c
      else if action == msg_ids
      then continue_after receive_ids c
      else if action == msg_splash
      then (some false, c)
      else if action == msg_landscape_splash
      then (some false, c)
      else if action == msg_end
      then (some (acknowledge c).0, (acknowledge c).1)
      else (some false, c)

  -- One round of the loop.
  unfoldable pub action_round : M k (Option Bool)
  action_round = do (_, action) ← recv_msg 0; handle_action action

  -- `while (1)` on fuel: `none` means that the fuel ran out.
  unfoldable pub receive_actions : ℕ → M k (Option Bool)
  receive_actions zero c = (none, c)
  receive_actions (suc fuel) c = elim (action_round c).0 [
    | none ↦ receive_actions fuel (action_round c).1
    | some b ↦ (some b, (action_round c).1)
  ]

  unfoldable pub fill : AppData → Connection k → AppData
  fill a c =
      let a = set_file_name c.file_name a in
      let a = set_priority c.priority a in
      let a = set_delay c.delay a in
      let a = set_argc c.argc a in
      let a = set_argv c.argv a in let a = set_io_descriptors c.io a in set_ids c.uid c.gid a

  unfoldable pub finish_data : AppData → Option Bool → Connection k → Option (Bool × AppData)
  unfolding fill
  finish_data a none c = none
  finish_data a (some false) c = some (false, a)
  finish_data a (some true) c = some (true, fill a c)

  unfoldable pub after_name : ℕ → AppData → Bytes → M k (Option (Bool × AppData))
  after_name fuel a [] c = (some (false, set_app_name [] a), c)
  after_name fuel a (b ∷ bs) c =
      let r = receive_actions fuel c in (finish_data (set_app_name (b ∷ bs) a) r.0 r.1, r.1)

  -- The result and the data filled in so far; `none` means that the fuel of the loop ran out.
  unfoldable pub receive_application_data : ℕ → AppData → M k (Option (Bool × AppData))
  receive_application_data fuel a = do
    options ← receive_magic
    (if options == bad_options
        then pure (some (false, set_options options a))
        else receive_app_name >>= after_name fuel (set_options options a))
