-- ===== src/Booster/Launch.antt =====
-- The loop of `Booster::initialize`, and the message to the daemon that ends it.
use mapplauncherd.Base.{
  ℕ, ◌-◌, ◌^◌, Bool, true, false, not, List, [], ◌∷◌, Option, none, some, Bytes, ltb, if◌then◌else◌,
  word_mod, ℤ, pos, negsuc,
}
use mapplauncherd.Wire.{Kernel}
use mapplauncherd.AppData.{AppData, single_instance}
use mapplauncherd.Connection.State.{
  Connection, refuses_socket, initial, accept, connected, close, send_exit_value,
  is_report_app_exit_status_needed, peer_pid, get_fd,
}
use mapplauncherd.Connection.Actions.{receive_application_data}
use mapplauncherd.Daemon.Loop.{Message}

-- A `uint32_t` kept in an `int`.
abbrev pub to_int : ℕ → ℤ
to_int w = if ltb w (2 ^ 31) then pos w else negsuc (word_mod - 1 - w)

-- How waiting for an invocation goes: the booster launches what it received, with the single-instance
-- plugin loaded or not; it has no socket or cannot read a command, and throws; no further invoker has come; or the fuel of
-- `receive_actions` ran out.
pub data Waited (k : Kernel) : Type 0 where
  launches : Bool → AppData → Connection k → Waited k
  throws : Waited k
  waiting : Waited k
  out_of_fuel : Waited k

-- An invoker that connects: its socket, and how `lock` and `activateExistingInstance` of the plugin
-- answer while it is served.
pub record Arrival (k : Kernel) : Type 0 where
  pub sock : k.Sock
  pub lock : Bytes → Bool
  pub activate : Bytes → Bool

-- `closePlugin`, which is only called where the lock was taken.
unfoldable pub keeps_plugin : Bool → AppData → Bool
keeps_plugin plugin a = if single_instance a then false else plugin

module _ {k : Kernel} where
  -- `receiveDataFromInvoker` on a new connection; the fuel is that of `receive_actions`.
  unfoldable pub receive_data_from_invoker :
      ℕ → AppData → Connection k → Option (Bool × AppData) × Connection k
  receive_data_from_invoker n a c =
      let (accepted, d) = accept c in
      if not accepted
      then (some (false, a), d)
      else let (r, e) = receive_application_data n a d in
        elim r [
          | none ↦ (none, e)
          | some (false, b) ↦ (some (false, b), close e)
          | some (true, b) ↦
              (some (true, b), if is_report_app_exit_status_needed e then e else close e)
        ]

  -- `sendExitValue`; a `write` to the descriptor -1 of a closed connection fails.
  unfoldable pub reply : ℕ → Connection k → Connection k
  reply value c = if connected c then (send_exit_value value c).1 else c

  -- What is done for an invoker whose application runs already.
  unfoldable pub turn_away : Bool → Connection k → Connection k
  turn_away activated c = close (reply (if activated then 0 else 1) c)

  -- "Run process as single instance if requested": whether this invoker is turned away.
  unfoldable pub is_refused : Bool → AppData → Arrival k → Bool
  is_refused false a x = false
  is_refused true a x = if single_instance a then not (x.lock a.app_name) else false

  -- The loop over the invokers that come, with those that were turned away.
  unfoldable pub wait_for_launch :
      ℕ → Bool → AppData → List Bytes → List (Arrival k) → Waited k × List (Connection k)
  wait_for_launch n plugin a env [] = (waiting, [])
  wait_for_launch n plugin a env (x ∷ xs) =
      let (r, c) = receive_data_from_invoker n a (initial k x.sock env) in
      elim r [
        | none ↦ (out_of_fuel, [])
        | some (false, b) ↦ (throws, [])
        | some (true, b) ↦
            let away = turn_away (x.activate b.app_name) c in
            let (w, cs) = wait_for_launch n plugin b c.env xs in
            if is_refused plugin b x
            then (w, away ∷ cs)
            else (launches (keeps_plugin plugin b) b c, [])
      ]

  -- The loop with the constructor of `Connection`, which throws where the listening socket is -1.
  unfoldable pub serve : ℤ → ℕ → Bool → AppData → List Bytes → List (Arrival k) → Waited k
  unfolding refuses_socket
  serve listening n plugin a env xs =
      if refuses_socket false listening then throws else (wait_for_launch n plugin a env xs).0

  -- `invokersPid`
  unfoldable pub invokers_pid : Connection k → ℤ
  invokers_pid c = if is_report_app_exit_status_needed c then to_int (peer_pid c) else pos 0

  -- The message of `sendDataToParent`.
  unfoldable pub send_data_to_parent : AppData → Connection k → Message
  unfolding invokers_pid
  send_data_to_parent a c = record {
    invoker_pid = invokers_pid c;
    delay = to_int a.delay;
    fd = if is_report_app_exit_status_needed c then some (get_fd c) else none;
  }
