-- ===== src/Booster/Handover.antt =====
-- What the booster makes of the invokers that come, and what the daemon makes of its message.
use mapplauncherd.Base.{
  ℕ, ◌≤◌, ◌≡◌, ◌≢◌, ap, ◌∙◌, Bool, true, false, List, [], ◌∷◌, ◌++◌, none, some, Bytes,
  if◌then◌else◌, arith, encode_word, append_assoc, int_eq_iff, ℤ, pos, refl, inl, inr, Bool-cases,
}
use mapplauncherd.Wire.{Kernel, IsReliable, Item}
use mapplauncherd.AppData.{AppData}
use mapplauncherd.Protocol.{msg_exit}
use mapplauncherd.Connection.State.{
  Connection, initial, accept, connected, close, send_exit_value, send_msg,
  is_report_app_exit_status_needed, peer_pid,
}
use mapplauncherd.Connection.Actions.{receive_application_data}
use mapplauncherd.Connection.Delivery.{at, assignments}
use mapplauncherd.Connection.Rounds.{acknowledgement, write_word}
use mapplauncherd.Connection.Invocation.{
  IsSendable, received, delivered, waits, receive_application_data-invoke_remote,
}
use mapplauncherd.Invoker.Send.{Invocation, invoke_remote}
use mapplauncherd.Daemon.State.{Os, Daemon, faults, fork_booster}
use mapplauncherd.Daemon.Loop.{Message, arrived, store_invoker, read_from_booster_socket}
use mapplauncherd.Booster.Launch.{
  to_int, Waited, launches, Arrival, receive_data_from_invoker, reply, turn_away, is_refused,
  keeps_plugin, wait_for_launch, invokers_pid, send_data_to_parent,
}

-- A message of the booster never makes the daemon copy from a control message that is not there, in
-- whatever state both of them are.
pub read_from_booster_socket-send_data_to_parent :
    {k : Kernel} (os : Os) (new_fd : ℤ → ℤ) (a : AppData) (c : Connection k) (d e : Daemon)
    → read_from_booster_socket os (some (arrived new_fd (send_data_to_parent a c))) d ≢ faults e
unfolding read_from_booster_socket store_invoker send_data_to_parent invokers_pid fork_booster
read_from_booster_socket-send_data_to_parent os new_fd a c d e h =
    ground (arith, int_eq_iff (invokers_pid c) (pos 0))

module _ {k : Kernel} where
  accept_lem :
      (s : k.Sock) (env : List Bytes) (fd : ℕ)
      → k.accept ≡ some fd
      → accept (initial k s env) ≡ (true, record (initial k s env) { fd = some fd })
  unfolding accept initial
  accept_lem s env fd h = rw h

  receive_data_lem :
      (n : ℕ) (a b : AppData) (c d e : Connection k)
      → accept c ≡ (true, d)
      → receive_application_data n a d ≡ (some (true, b), e)
      → receive_data_from_invoker n a c ≡ (some (true, b), if e.send_pid then e else close e)
  unfolding receive_data_from_invoker is_report_app_exit_status_needed
  receive_data_lem n a b c d e h h' = ground arith

  launch_lem :
      (n : ℕ) (plugin : Bool) (a b : AppData) (env : List Bytes) (x : Arrival k)
      (xs : List (Arrival k)) (c : Connection k)
      → receive_data_from_invoker n a (initial k x.sock env) ≡ (some (true, b), c)
      → is_refused plugin b x ≡ false
      → wait_for_launch n plugin a env (x ∷ xs) ≡ (launches (keeps_plugin plugin b) b c, [])
  unfolding wait_for_launch
  launch_lem n plugin a b env x xs c h h' = ground arith

  pub refuse_lem :
      (n : ℕ) (plugin : Bool) (a b : AppData) (env : List Bytes) (x : Arrival k)
      (xs : List (Arrival k)) (c : Connection k)
      → receive_data_from_invoker n a (initial k x.sock env) ≡ (some (true, b), c)
      → is_refused plugin b x ≡ true
      → wait_for_launch n plugin a env (x ∷ xs) ≡ (
        (wait_for_launch n plugin b c.env xs).0,
        turn_away (x.activate b.app_name) c ∷ (wait_for_launch n plugin b c.env xs).1,
      )
  unfolding wait_for_launch
  refuse_lem n plugin a b env x xs c h h' = ground arith

  send_exit_value_lem :
      (c d e : Connection k) (value : ℕ)
      → send_msg msg_exit c ≡ (true, d)
      → send_msg value d ≡ (true, e)
      → send_exit_value value c ≡ (true, e)
  unfolding send_exit_value
  send_exit_value_lem c d e value h h' = ground arith

  turn_away_lem :
      (c d : Connection k) (activated : Bool) (fd : ℕ)
      → c.fd ≡ some fd
      → send_exit_value (if activated then 0 else 1) c ≡ (true, d)
      → turn_away activated c ≡ record d { fd = none }
  unfolding turn_away reply connected close
  turn_away_lem c d activated fd h h' = ground arith

module _ {k : Kernel} {stream : List Item → Bytes → k.Sock} {dup : ℕ → ℕ}
    (r : IsReliable k stream dup) where
  -- An invoker that has sent `v`, and that `lock` and `activate` answer as they do.
  abbrev pub arrival : Invocation → List Item → Bytes → (Bytes → Bool) → (Bytes → Bool) → Arrival k
  arrival v rest out lock activate = record {
    sock = stream (invoke_remote v ++ rest) out;
    lock = lock;
    activate = activate;
  }

  -- The connection to that invoker when all was received, through the descriptor `fd`.
  abbrev pub served : Invocation → List Item → Bytes → List Bytes → ℕ → Connection k
  served v rest out env fd =
      let c = record (initial k (stream rest out) env) { fd = some fd; send_pid = waits v } in
      at r (received dup v c) rest (out ++ acknowledgement c)

  pub served_lem :
      (v : Invocation) (n fd : ℕ) (a : AppData) (env : List Bytes) (rest : List Item) (out : Bytes)
      → IsSendable v
      → 8 ≤ n
      → k.accept ≡ some fd
      → receive_data_from_invoker n a (initial k (stream (invoke_remote v ++ rest) out) env) ≡ (
        some (true, delivered dup v a),
        if waits v then served v rest out env fd else close (served v rest out env fd),
      )
  unfolding initial
  served_lem v n fd a env rest out s h acc =
      receive_data_lem n a (delivered dup v a) _ _ (served v rest out env fd)
        (accept_lem _ env fd acc)
        (receive_application_data-invoke_remote r v n a
          (record (initial k (stream rest out) env) { fd = some fd }) rest out s h)

  -- An invocation that the protocol carries, from an invoker that is accepted and not refused, ends
  -- the booster's waiting: it launches exactly what the invoker sent, and keeps the connection open
  -- only if the invoker waits for the exit status.
  pub wait_for_launch-launches :
      (v : Invocation) (n fd : ℕ) (plugin : Bool) (a : AppData) (env : List Bytes)
      (rest : List Item) (out : Bytes) (lock activate : Bytes → Bool) (xs : List (Arrival k))
      → IsSendable v
      → 8 ≤ n
      → k.accept ≡ some fd
      → is_refused plugin (delivered dup v a) (arrival v rest out lock activate) ≡ false
      → wait_for_launch n plugin a env (arrival v rest out lock activate ∷ xs) ≡ (
        launches
            (keeps_plugin plugin (delivered dup v a))
            (delivered dup v a)
            (if waits v then served v rest out env fd else close (served v rest out env fd)),
        [],
      )
  wait_for_launch-launches v n fd plugin a env rest out lock activate xs s h acc free =
      launch_lem n plugin a (delivered dup v a) env (arrival v rest out lock activate) xs _
        (served_lem v n fd a env rest out s h acc) free

  pub wait_for_launch_refuses :
      (v : Invocation) (n fd : ℕ) (plugin : Bool) (a : AppData) (env : List Bytes)
      (rest : List Item) (out : Bytes) (lock activate : Bytes → Bool) (xs : List (Arrival k))
      → IsSendable v
      → 8 ≤ n
      → k.accept ≡ some fd
      → waits v ≡ true
      → is_refused plugin (delivered dup v a) (arrival v rest out lock activate) ≡ true
      → wait_for_launch n plugin a env (arrival v rest out lock activate ∷ xs) ≡ (
        (wait_for_launch n plugin (delivered dup v a) (assignments v.environ) xs).0,
        at r
              (record (served v rest out env fd) { fd = none })
              rest
              ((out ++ acknowledgement (served v rest out env fd))
                ++ (encode_word msg_exit ++ encode_word (if activate v.argv0 then 0 else 1)))
            ∷ (wait_for_launch n plugin (delivered dup v a) (assignments v.environ) xs).1,
      )
  wait_for_launch_refuses v n fd plugin a env rest out lock activate xs s h acc wait busy =
      refuse_lem n plugin a (delivered dup v a) env (arrival v rest out lock activate) xs c
        (served_lem v n fd a env rest out s h acc ∙ rw wait refl) busy
      ∙ ap (λ x. (later.0, x ∷ later.1))
          (turn_away_lem c (at r c rest ((sent ++ encode_word msg_exit) ++ encode_word value))
              (activate v.argv0) fd refl
              (send_exit_value_lem c _ _ value (write_word r c rest sent msg_exit)
                (write_word r c rest (sent ++ encode_word msg_exit) value))
            ∙ rw append_assoc refl)
    where
      c : Connection k
      c = served v rest out env fd

      sent : Bytes
      sent = out ++ acknowledgement c

      value : ℕ
      value = if activate v.argv0 then 0 else 1

      later : Waited k × List (Connection k)
      later = wait_for_launch n plugin (delivered dup v a) (assignments v.environ) xs

  -- The connection behind `receiveDataFromInvoker`, which is closed unless the invoker waits.
  abbrev pub kept : Invocation → List Item → Bytes → List Bytes → ℕ → Connection k
  kept v rest out env fd =
      if waits v then served v rest out env fd else close (served v rest out env fd)

  -- The message to the daemon.
  abbrev pub message : Invocation → List Item → Bytes → List Bytes → ℕ → Message
  message v rest out env fd = record {
    invoker_pid = if waits v then to_int (peer_pid (served v rest out env fd)) else pos 0;
    delay = to_int v.respawn_delay;
    fd = if waits v then some (pos fd) else none;
  }

  pub send_data_lem :
      (v : Invocation) (a : AppData) (rest : List Item) (out : Bytes) (env : List Bytes) (fd : ℕ)
      → send_data_to_parent (delivered dup v a) (kept v rest out env fd) ≡ message v rest out env fd
  unfolding send_data_to_parent invokers_pid is_report_app_exit_status_needed close
  send_data_lem v a rest out env fd = elim (Bool-cases (waits v)) [
    | inl on ↦ rw on refl
    | inr off ↦ rw off refl
  ]
