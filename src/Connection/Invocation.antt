-- ===== src/Connection/Invocation.antt =====
-- A whole invocation: what the invoker sends is what the booster's `AppData` holds.
use mapplauncherd.Base.{
  ℕ, suc, ◌-◌, ◌≤◌, ◌<◌, ◌≡◌, ◌≢◌, refl, ◌∙◌, Bool, true, List, [], ◌∷◌, ◌++◌, none, some, Bytes,
  arith, length, All, append_assoc, word_mod, ltb, ◌&&◌, not, ◌==◌, bit_and, bit_or, all_below,
  all_below_sound,
}
use mapplauncherd.Wire.{Kernel, IsReliable, Item}
use mapplauncherd.AppData.{AppData}
use mapplauncherd.Protocol.{
  magic, magic_version, magic_version_mask, msg_name, option_mask, option_wait,
}
use mapplauncherd.Connection.State.{Connection}
use mapplauncherd.Connection.Receive.{take_magic, receive_magic, receive_app_name}
use mapplauncherd.Connection.Actions.{
  action_round, receive_actions, fill, finish_data, after_name, receive_application_data,
}
use mapplauncherd.Connection.Delivery.{
  IsText, assignments, at, recv_msg-send_msg, recv_str-send_str,
}
use mapplauncherd.Connection.Rounds.{
  acknowledgement, action_round-send_exec, action_round-send_args, action_round-send_prio,
  action_round-send_delay, action_round-send_ids, action_round-send_io, action_round-send_env,
  action_round-send_end,
}
use mapplauncherd.Invoker.Send.{
  Invocation, argv, send_str, send_magic, send_name, send_actions, invoke_remote,
}

-- An invocation that the protocol can carry.
pub record IsSendable (v : Invocation) : Type 0 where
  pub options_lt : v.options < 256
  pub argv0_ne_nil : v.argv0 ≢ []
  pub argv_texts : All IsText (argv v)
  pub argv_few : length (argv v) < 1024
  pub prog_name_text : IsText v.prog_name
  pub prio_lt : v.prio < word_mod
  pub delay_lt : v.respawn_delay < word_mod
  pub uid_lt : v.uid < word_mod
  pub gid_lt : v.gid < word_mod
  pub environ_texts : All IsText v.environ
  pub environ_ne_nil : 0 < length v.environ
  pub environ_few : length v.environ < 1024

-- The bits of a magic word with options `o`, as `receiveMagic` looks at them.
abbrev magic_of : ℕ → ℕ
magic_of o = bit_or (bit_or magic magic_version) o

magic_table :
    all_below 256 (λ o.
      bit_and (magic_of o) magic_version_mask == magic_version
      && bit_and (magic_of o) option_mask == o
      && bit_and (magic_of o) option_wait == bit_and o option_wait)
    ≡ true
unfolding all_below
magic_table = refl

magic_lt_table : all_below 256 (λ o. ltb (magic_of o) word_mod) ≡ true
unfolding all_below
magic_lt_table = refl

-- The connection after the parts of an invocation that follow the name.
abbrev pub received : {k : Kernel} → (ℕ → ℕ) → Invocation → Connection k → Connection k
received dup v c = record c {
  file_name = v.prog_name;
  argc = length (argv v);
  argv = some (argv v);
  priority = v.prio;
  delay = v.respawn_delay;
  uid = v.uid;
  gid = v.gid;
  io = some (dup 0) ∷ some (dup 1) ∷ some (dup 2) ∷ [];
  env = assignments v.environ;
}

-- The data that the booster is left with.
abbrev pub delivered : (ℕ → ℕ) → Invocation → AppData → AppData
delivered dup v a = record a {
  options = v.options;
  app_name = v.argv0;
  file_name = v.prog_name;
  argc = length (argv v);
  argv = some (argv v);
  priority = v.prio;
  delay = v.respawn_delay;
  io_descriptors = some (dup 0) ∷ some (dup 1) ∷ some (dup 2) ∷ [];
  gid = v.gid;
  uid = v.uid;
}

-- Whether the invoker asked for the exit status.
abbrev pub waits : Invocation → Bool
waits v = not (bit_and v.options option_wait == 0)

module _ {k : Kernel} where
  pub receive_actions-suc :
      (n : ℕ) (c d : Connection k)
      → action_round c ≡ (none, d)
      → receive_actions (suc n) c ≡ receive_actions n d
  unfolding receive_actions
  receive_actions-suc n c d e = rw (e, receive_actions) (rw e)

  pub receive_actions-stop :
      (n : ℕ) (c d : Connection k) {b : Bool}
      → action_round c ≡ (some b, d)
      → receive_actions (suc n) c ≡ (some b, d)
  unfolding receive_actions
  receive_actions-stop n c d e = ground arith

  take_magic_lem :
      (o : ℕ) (c : Connection k)
      → o < 256
      → take_magic (magic_of o) c ≡ (o, record c { send_pid = not (bit_and o option_wait == 0) })
  unfolding take_magic
  take_magic_lem o c h = ground (arith, all_below_sound 256 _ o magic_table h)

  pub receive_application_data_lem :
      (n : ℕ) (a : AppData) (c d e f : Connection k) (o : ℕ) (name : Bytes)
      → receive_magic c ≡ (o, d)
      → o < 256
      → receive_app_name d ≡ (name, e)
      → name ≢ []
      → receive_actions n e ≡ (some true, f)
      → receive_application_data n a c
        ≡ (some (true, fill (record a { options = o; app_name = name }) f), f)
  unfolding receive_application_data after_name finish_data
  receive_application_data_lem n a c d e f o [] p h q ne t = absurd (ne refl)
  receive_application_data_lem n a c d e f o (b ∷ bs) p h q ne t = ground arith

module _ {k : Kernel} {stream : List Item → Bytes → k.Sock} {dup : ℕ → ℕ}
    (r : IsReliable k stream dup) where
  receive_magic-send_magic :
      (c : Connection k) (rest : List Item) (out : Bytes) (o : ℕ)
      → o < 256
      → receive_magic (at r c (send_magic o ++ rest) out)
        ≡ (o, at r (record c { send_pid = not (bit_and o option_wait == 0) }) rest out)
  unfolding receive_magic send_magic
  receive_magic-send_magic c rest out o h =
      rw
        (recv_msg-send_msg r c rest out 0 (magic_of o)
          (ground (arith, all_below_sound 256 _ o magic_lt_table h)))
        (take_magic_lem o (at r c rest out) h)

  eight_rounds :
      (v : Invocation) (n : ℕ) (c : Connection k) (rest : List Item) (out : Bytes)
      → IsSendable v
      → receive_actions
          (suc (suc (suc (suc (suc (suc (suc (suc n))))))))
          (at r c (send_actions v ++ rest) out)
        ≡ (some true, at r (received dup v c) rest (out ++ acknowledgement c))
  unfolding send_actions
  eight_rounds v n c rest out s = simp append_assoc (
      receive_actions-suc _ _ _ (action_round-send_exec r c _ out v.prog_name s.prog_name_text)
      ∙ receive_actions-suc _ _ _
          (action_round-send_args r c1 _ out (argv v) s.argv_texts (omega arith) s.argv_few)
      ∙ receive_actions-suc _ _ _ (action_round-send_prio r c2 _ out v.prio s.prio_lt)
      ∙ receive_actions-suc _ _ _ (action_round-send_delay r c3 _ out v.respawn_delay s.delay_lt)
      ∙ receive_actions-suc _ _ _ (action_round-send_ids r c4 _ out v.uid v.gid s.uid_lt s.gid_lt)
      ∙ receive_actions-suc _ _ _ (action_round-send_io r c5 _ out)
      ∙ receive_actions-suc _ _ _ (
          action_round-send_env r c6 _ out v.environ s.environ_texts s.environ_ne_nil s.environ_few)
      ∙ receive_actions-stop _ _ _ (action_round-send_end r (received dup v c) rest out))
    where
      c1 : Connection k
      c1 = record c { file_name = v.prog_name }

      c2 : Connection k
      c2 = record c1 { argc = length (argv v); argv = some (argv v) }

      c3 : Connection k
      c3 = record c2 { priority = v.prio }

      c4 : Connection k
      c4 = record c3 { delay = v.respawn_delay }

      c5 : Connection k
      c5 = record c4 { uid = v.uid; gid = v.gid }

      c6 : Connection k
      c6 = record c5 { io = some (dup 0) ∷ some (dup 1) ∷ some (dup 2) ∷ [] }

  -- The loop over the actions takes over what follows the name of an invocation that the protocol
  -- carries, from the file to the environment, in eight rounds or any more that it is given,
  -- acknowledges it, and reads nothing of what follows.
  pub receive_actions-send_actions :
      (v : Invocation) (n : ℕ) (c : Connection k) (rest : List Item) (out : Bytes)
      → IsSendable v
      → 8 ≤ n
      → receive_actions n (at r c (send_actions v ++ rest) out)
        ≡ (some true, at r (received dup v c) rest (out ++ acknowledgement c))
  receive_actions-send_actions v n c rest out s h =
      let e : n ≡ suc (suc (suc (suc (suc (suc (suc (suc (n - 8)))))))) = omega arith in
      rw e (eight_rounds v (n - 8) c rest out s)

  pub receive_app_name-send_name :
      (c : Connection k) (rest : List Item) (out : Bytes) (s : Bytes)
      → IsText s
      → receive_app_name (at r c (send_name s ++ rest) out) ≡ (s, at r c rest out)
  unfolding receive_app_name send_name
  receive_app_name-send_name c rest out s t = rw append_assoc (
      rw (recv_msg-send_msg r c (send_str s ++ rest) out 0 msg_name (omega arith))
        (rw (recv_str-send_str r c rest out s t)))

  -- A booster that reads from a reliable stream what `invoke_remote` sent gets the invocation, whole
  -- and unchanged: the options, the name, the file, all arguments, the priority, the delay, the user
  -- and the group, the three descriptors, and the environment that its strings make which assign a
  -- variable, where of several strings for one variable the last counts. It answers with the acknowledgement, and with its pid where the invoker waits, and reads nothing of
  -- what follows. The invocation must be one that the protocol carries: strings without zeros below
  -- 4096 bytes, a name that is not empty, fewer than 1024 arguments, from 1 to 1023 environment
  -- strings, and numbers that fit their words.
  pub receive_application_data-invoke_remote :
      (v : Invocation) (n : ℕ) (a : AppData) (c : Connection k) (rest : List Item) (out : Bytes)
      → IsSendable v
      → 8 ≤ n
      → receive_application_data n a (at r c (invoke_remote v ++ rest) out) ≡ (
        some (true, delivered dup v a),
        at r
            (received dup v (record c { send_pid = waits v }))
            rest
            (out ++ acknowledgement (record c { send_pid = waits v })),
      )
  unfolding invoke_remote fill
  receive_application_data-invoke_remote v n a c rest out s h =
      rw (append_assoc, append_assoc)
        (receive_application_data_lem n a _ _ _ _ v.options v.argv0
          (receive_magic-send_magic c _ out v.options s.options_lt) s.options_lt
          (receive_app_name-send_name (record c { send_pid = waits v }) _ out v.argv0
            s.argv_texts.0)
          s.argv0_ne_nil
          (receive_actions-send_actions v n (record c { send_pid = waits v }) rest out s h))
