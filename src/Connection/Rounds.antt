-- ===== src/Connection/Rounds.antt =====
-- One round of `receiveActions` for each message that the invoker sends.
use mapplauncherd.Base.{
  ℕ, ◌<◌, ◌≡◌, ap, ◌∙◌, Bool, true, List, [], ◌∷◌, ◌++◌, none, some, Bytes, arith, length, All,
  append_assoc, word_mod, encode_word, if◌then◌else◌,
}
use mapplauncherd.Wire.{Kernel, IsReliable, Item, rights}
use mapplauncherd.Protocol.{
  msg_exec, msg_args, msg_env, msg_prio, msg_delay, msg_ids, msg_io, msg_end, msg_ack, msg_pid,
}
use mapplauncherd.Connection.State.{
  Connection, recv_msg, recv_str, send_msg as conn_send_msg, send_pid,
}
use mapplauncherd.Connection.Receive.{
  receive_exec, receive_priority, receive_delay, receive_ids, recv_argv, receive_args, recv_vars,
  receive_env, receive_io,
}
use mapplauncherd.Connection.Actions.{acknowledge, handle_action, action_round}
use mapplauncherd.Connection.Delivery.{
  IsText, assignments, at, recv_msg-send_msg, recv_str-send_str, recv_argv-send_strs,
  recv_vars-send_strs,
}
use mapplauncherd.Invoker.Send.{
  send_msg, send_exec, send_args, send_prio, send_delay, send_ids, send_io, send_env, send_end,
}

module _ {k : Kernel} where
  receive_exec_lem :
      (c d : Connection k) {s : Bytes}
      → recv_str c ≡ (some s, d)
      → (receive_exec c).1 ≡ record d { file_name = s }
  unfolding receive_exec
  receive_exec_lem c d e = ground arith

  receive_args_lem :
      (c d : Connection k) {n : ℕ}
      → recv_msg c.argc c ≡ ((true, n), d)
      → 0 < n
      → n < 1024
      → receive_args c ≡ recv_argv n [] (record d { argc = n })
  unfolding receive_args
  receive_args_lem c d e h h' = ground arith

  receive_env_lem :
      (c d : Connection k) {n : ℕ}
      → recv_msg 0 c ≡ ((true, n), d)
      → 0 < n
      → n < 1024
      → receive_env c ≡ recv_vars n d
  unfolding receive_env
  receive_env_lem c d e h h' = ground arith

  receive_priority_lem :
      (c d : Connection k) {n : ℕ}
      → recv_msg c.priority c ≡ ((true, n), d)
      → (receive_priority c).1 ≡ record d { priority = n }
  unfolding receive_priority
  receive_priority_lem c d e = ground arith

  receive_delay_lem :
      (c d : Connection k) {n : ℕ}
      → recv_msg c.delay c ≡ ((true, n), d)
      → (receive_delay c).1 ≡ record d { delay = n }
  unfolding receive_delay
  receive_delay_lem c d e = ground arith

  receive_ids_lem :
      (c d f : Connection k) {u g : ℕ}
      → recv_msg c.uid c ≡ ((true, u), d)
      → recv_msg d.gid (record d { uid = u }) ≡ ((true, g), f)
      → (receive_ids c).1 ≡ record f { gid = g }
  unfolding receive_ids
  receive_ids_lem c d f e e' = ground arith

  -- What the booster writes back at the end of an invocation.
  abbrev pub acknowledgement : Connection k → Bytes
  acknowledgement c =
      if c.send_pid
      then encode_word msg_ack ++ (encode_word msg_pid ++ encode_word k.getpid)
      else encode_word msg_ack

  acknowledge_lem :
      (c d e f : Connection k)
      → conn_send_msg msg_ack c ≡ (true, d)
      → conn_send_msg msg_pid d ≡ (true, e)
      → conn_send_msg k.getpid e ≡ (true, f)
      → acknowledge c ≡ (true, if d.send_pid then f else d)
  unfolding acknowledge send_pid
  acknowledge_lem c d e f p q w = ground arith

module _ {k : Kernel} {stream : List Item → Bytes → k.Sock} {dup : ℕ → ℕ}
    (r : IsReliable k stream dup) where
  -- A round reads the word that names the action, and handles it.
  pub action_round-send_msg :
      (c : Connection k) (rest : List Item) (out : Bytes) (w : ℕ)
      → w < word_mod
      → action_round (at r c (send_msg w ++ rest) out) ≡ handle_action w (at r c rest out)
  unfolding action_round
  action_round-send_msg c rest out w h = rw (recv_msg-send_msg r c rest out 0 w h)

  pub action_round-send_exec :
      (c : Connection k) (rest : List Item) (out : Bytes) (s : Bytes)
      → IsText s
      → action_round (at r c (send_exec s ++ rest) out)
        ≡ (none, at r (record c { file_name = s }) rest out)
  unfolding send_exec handle_action
  action_round-send_exec c rest out s t =
      rw append_assoc (action_round-send_msg c _ out msg_exec (omega arith))
      ∙ ap (λ d. (none, d)) (receive_exec_lem _ _ (recv_str-send_str r c rest out s t))

  pub action_round-send_args :
      (c : Connection k) (rest : List Item) (out : Bytes) (ss : List Bytes)
      → All IsText ss
      → 0 < length ss
      → length ss < 1024
      → action_round (at r c (send_args ss ++ rest) out)
        ≡ (none, at r (record c { argc = length ss; argv = some ss }) rest out)
  unfolding send_args handle_action
  action_round-send_args c rest out ss ts h h' =
      rw (append_assoc, append_assoc)
        (action_round-send_msg c _ out msg_args (omega arith)
          ∙ ap (λ (x : Bool × Connection k). (none, x.1))
              (receive_args_lem _ _ (recv_msg-send_msg r c _ out _ (length ss) (omega arith)) h h'
                ∙ recv_argv-send_strs r (record c { argc = length ss }) rest out [] ss ts))

  pub action_round-send_env :
      (c : Connection k) (rest : List Item) (out : Bytes) (ss : List Bytes)
      → All IsText ss
      → 0 < length ss
      → length ss < 1024
      → action_round (at r c (send_env ss ++ rest) out)
        ≡ (none, at r (record c { env = assignments ss }) rest out)
  unfolding send_env handle_action
  action_round-send_env c rest out ss ts h h' =
      rw (append_assoc, append_assoc)
        (action_round-send_msg c _ out msg_env (omega arith)
          ∙ ap (λ (x : Bool × Connection k). (none, x.1))
              (receive_env_lem _ _
                  (recv_msg-send_msg r (record c { env = [] }) _ out _ (length ss) (omega arith)) h
                  h'
                ∙ recv_vars-send_strs r (record c { env = [] }) rest out ss ts))

  pub action_round-send_prio :
      (c : Connection k) (rest : List Item) (out : Bytes) (w : ℕ)
      → w < word_mod
      → action_round (at r c (send_prio w ++ rest) out)
        ≡ (none, at r (record c { priority = w }) rest out)
  unfolding send_prio handle_action
  action_round-send_prio c rest out w h =
      rw append_assoc (action_round-send_msg c _ out msg_prio (omega arith))
      ∙ ap (λ d. (none, d)) (receive_priority_lem _ _ (recv_msg-send_msg r c rest out _ w h))

  pub action_round-send_delay :
      (c : Connection k) (rest : List Item) (out : Bytes) (w : ℕ)
      → w < word_mod
      → action_round (at r c (send_delay w ++ rest) out)
        ≡ (none, at r (record c { delay = w }) rest out)
  unfolding send_delay handle_action
  action_round-send_delay c rest out w h =
      rw append_assoc (action_round-send_msg c _ out msg_delay (omega arith))
      ∙ ap (λ d. (none, d)) (receive_delay_lem _ _ (recv_msg-send_msg r c rest out _ w h))

  pub action_round-send_ids :
      (c : Connection k) (rest : List Item) (out : Bytes) (u g : ℕ)
      → u < word_mod
      → g < word_mod
      → action_round (at r c (send_ids u g ++ rest) out)
        ≡ (none, at r (record c { uid = u; gid = g }) rest out)
  unfolding send_ids handle_action
  action_round-send_ids c rest out u g h h' =
      rw (append_assoc, append_assoc)
        (action_round-send_msg c _ out msg_ids (omega arith)
          ∙ ap (λ d. (none, d))
              (receive_ids_lem _ _ _ (recv_msg-send_msg r c _ out _ u h)
                (recv_msg-send_msg r (record c { uid = u }) rest out _ g h')))

  receive_io-rights :
      (c : Connection k) (rest : List Item) (out : Bytes)
      → receive_io (at r c (rights 0 1 2 ∷ rest) out)
        ≡ (true, at r (record c { io = some (dup 0) ∷ some (dup 1) ∷ some (dup 2) ∷ [] }) rest out)
  unfolding receive_io
  receive_io-rights c rest out = rw (r.recvmsg_lem 0 1 2 rest out) (ground arith)

  pub action_round-send_io :
      (c : Connection k) (rest : List Item) (out : Bytes)
      → action_round (at r c (send_io ++ rest) out)
        ≡ (none, at r (record c { io = some (dup 0) ∷ some (dup 1) ∷ some (dup 2) ∷ [] }) rest out)
  unfolding send_io handle_action
  action_round-send_io c rest out =
      rw append_assoc (action_round-send_msg c (rights 0 1 2 ∷ rest) out msg_io (omega arith))
      ∙ ap (λ (x : Bool × Connection k). (none, x.1)) (receive_io-rights c rest out)

  pub write_word :
      (c : Connection k) (inp : List Item) (out : Bytes) (w : ℕ)
      → conn_send_msg w (at r c inp out) ≡ (true, at r c inp (out ++ encode_word w))
  unfolding conn_send_msg
  write_word c inp out w = rw (r.write_lem (encode_word w) inp out)

  pub action_round-send_end :
      (c : Connection k) (rest : List Item) (out : Bytes)
      → action_round (at r c (send_end ++ rest) out)
        ≡ (some true, at r c rest (out ++ acknowledgement c))
  unfolding send_end handle_action
  action_round-send_end c rest out =
      action_round-send_msg c rest out msg_end (omega arith)
      ∙ ap (λ (x : Bool × Connection k). (some x.0, x.1))
          (acknowledge_lem _ _ _ _ (write_word c rest out msg_ack)
              (write_word c rest (out ++ encode_word msg_ack) msg_pid)
              (write_word c rest _ k.getpid)
            ∙ written)
    where
      written :
          ◌≡◌ {A = Bool × Connection k}
            (
              true,
              if c.send_pid
                  then at r c rest (
                      ((out ++ encode_word msg_ack) ++ encode_word msg_pid) ++ encode_word k.getpid)
                  else at r c rest (out ++ encode_word msg_ack),
            )
            (true, at r c rest (out ++ acknowledgement c))
      written = ground (
        arith,
        append_assoc (out ++ encode_word msg_ack) (encode_word msg_pid) (encode_word k.getpid),
        append_assoc out (encode_word msg_ack) (encode_word msg_pid ++ encode_word k.getpid),
      )
