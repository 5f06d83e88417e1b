-- ===== src/Connection/Refusals.antt =====
-- What the booster does with messages that are out of bounds, and with failed system calls.
use mapplauncherd.Base.{
  ℕ, suc, ◌+◌, ◌≤◌, ◌<◌, ◌≡◌, ◌≢◌, ◌⊎◌, ap, ◌∙◌, Bool, true, false, List, [], ◌∷◌, ◌++◌, Option,
  none, some, Bytes, arith, length, append_assoc, word_mod, not, ◌==◌, bit_and,
}
use mapplauncherd.Wire.{Kernel, IsReliable, Item, bytes}
use mapplauncherd.AppData.{AppData}
use mapplauncherd.Protocol.{
  magic, magic_version, magic_version_mask, msg_mask, msg_args, option_mask, option_wait,
}
use mapplauncherd.Connection.State.{
  Connection, c_str, set_last, recv_msg, recv_str, recv_str_body, str_read,
}
use mapplauncherd.Connection.Receive.{bad_options, take_magic, receive_magic, receive_args}
use mapplauncherd.Connection.Actions.{
  handle_action, action_round, receive_actions, receive_application_data, fill,
}
use mapplauncherd.Connection.Delivery.{at, recv_msg-send_msg}
use mapplauncherd.Connection.Rounds.{acknowledgement, action_round-send_msg, action_round-send_end}
use mapplauncherd.Connection.Invocation.{
  IsSendable, delivered, receive_actions-suc, receive_actions-stop, receive_application_data_lem,
  receive_app_name-send_name, receive_actions-send_actions,
}
use mapplauncherd.Invoker.Send.{Invocation, send_msg, send_str, send_name, send_actions, send_end}

module _ {k : Kernel} where
  -- A string of a size from 1 to 4096 whose body cannot be read is received all the same, since the
  -- result -1 of `read`, kept in a `uint32_t`, is below no such size: what is received is what the new
  -- buffer happened to hold, up to its first zero.
  pub recv_str_failed_read :
      (c d : Connection k) (n : ℕ)
      → c.test_mode ≡ false
      → recv_msg 0 c ≡ ((true, n), d)
      → 0 < n
      → n ≤ 4096
      → (k.read n d.sock).0 ≡ none
      → (recv_str c).0 ≡ some (c_str (set_last (k.fresh n)))
  unfolding recv_str recv_str_body str_read
  recv_str_failed_read c d n t e lo hi failed = ground arith

  bad_count :
      (c d : Connection k) (n : ℕ)
      → recv_msg c.argc c ≡ ((true, n), d)
      → (n ≡ 0) ⊎ (1024 ≤ n)
      → receive_args c ≡ (false, record d { argc = n })
  unfolding receive_args
  bad_count c d n e h = ground arith

  -- A word as small as the size of a string is no action.
  small_word : (w : ℕ) (c : Connection k) → w ≤ 4096 → handle_action w c ≡ (some false, c)
  unfolding handle_action
  small_word w c h = ground arith

  bad_version :
      (n : ℕ) (a : AppData) (c d : Connection k)
      → receive_magic c ≡ (bad_options, d)
      → receive_application_data n a c ≡ (some (false, record a { options = bad_options }), d)
  unfolding receive_application_data
  bad_version n a c d e = ground arith

  take_magic_bad :
      (m : ℕ) (c : Connection k)
      → bit_and m msg_mask ≡ magic
      → bit_and m magic_version_mask ≢ magic_version
      → take_magic m c ≡ (bad_options, c)
  unfolding take_magic
  take_magic_bad m c h h' = ground arith

  take_magic_foreign :
      (m : ℕ) (c : Connection k)
      → bit_and m msg_mask ≢ magic
      → take_magic m c
        ≡ (bit_and m option_mask, record c { send_pid = not (bit_and m option_wait == 0) })
  unfolding take_magic
  take_magic_foreign m c h = ground arith

module _ {k : Kernel} {stream : List Item → Bytes → k.Sock} {dup : ℕ → ℕ}
    (r : IsReliable k stream dup) where
  -- A string of 4096 bytes or more is refused, and all its bytes stay in the stream, to be read as
  -- the messages that follow.
  pub recv_str_too_long :
      (c : Connection k) (rest : List Item) (out : Bytes) (s : Bytes)
      → 4096 ≤ length s
      → length s + 1 < word_mod
      → recv_str (at r c (send_str s ++ rest) out)
        ≡ (none, at r c (bytes (s ++ 0 ∷ []) ++ rest) out)
  unfolding recv_str send_str
  recv_str_too_long c rest out s h h' = rw append_assoc (
      rw (recv_msg-send_msg r c (bytes (s ++ 0 ∷ []) ++ rest) out 0 (length s + 1) h')
        (ground arith))

  -- The round that reads a refused count.
  bad_count_round :
      (c : Connection k) (rest : List Item) (out : Bytes) (n : ℕ)
      → (n ≡ 0) ⊎ (1024 ≤ n)
      → n < word_mod
      → action_round (at r c (send_msg msg_args ++ (send_msg n ++ rest)) out)
        ≡ (none, at r (record c { argc = n }) rest out)
  unfolding handle_action
  bad_count_round c rest out n bad h =
      action_round-send_msg r c _ out msg_args (omega arith)
      ∙ ap (λ (x : Bool × Connection k). (none, x.1))
          (bad_count _ _ n (recv_msg-send_msg r c rest out _ n h) bad)

  -- `receiveActions` drops the result of `receiveArgs`: where a count of arguments that is refused (none,
  -- or 1024 and more) is the last message before the end message, with no strings between them, it still
  -- succeeds, with that count and with `argv` as it was before. Where a string follows the count, of up to
  -- 4096 bytes with its zero, the size of the string is taken for an action, and it fails.
  pub receive_actions_bad_argc :
      (c : Connection k) (rest : List Item) (out : Bytes) (n size fuel : ℕ)
      → (n ≡ 0) ⊎ (1024 ≤ n)
      → n < word_mod
      → size ≤ 4096
      → (receive_actions
            (suc (suc fuel))
            (at r c (send_msg msg_args ++ (send_msg n ++ (send_end ++ rest))) out)
          ≡ (some true, at r (record c { argc = n }) rest (out ++ acknowledgement c)))
        × (receive_actions
              (suc (suc fuel))
              (at r c (send_msg msg_args ++ (send_msg n ++ (send_msg size ++ rest))) out)
            ≡ (some false, at r (record c { argc = n }) rest out))
  receive_actions_bad_argc c rest out n size fuel bad h small = (
    receive_actions-suc _ _ _ (bad_count_round c (send_end ++ rest) out n bad h)
        ∙ receive_actions-stop _ _ _ (action_round-send_end r (record c { argc = n }) rest out),
    receive_actions-suc _ _ _ (bad_count_round c (send_msg size ++ rest) out n bad h)
        ∙ receive_actions-stop _ _ _ (
            action_round-send_msg r (record c { argc = n }) rest out size (omega arith)
            ∙ small_word size (at r (record c { argc = n }) rest out) small),
  )

  -- A first word with the right magic number and another version ends the conversation: nothing else
  -- is read, and the data has only the options -1.
  pub receive_application_data_bad_version :
      (c : Connection k) (rest : List Item) (out : Bytes) (m n : ℕ) (a : AppData)
      → m < word_mod
      → bit_and m msg_mask ≡ magic
      → bit_and m magic_version_mask ≢ magic_version
      → receive_application_data n a (at r c (send_msg m ++ rest) out)
        ≡ (some (false, record a { options = bad_options }), at r c rest out)
  unfolding receive_magic
  receive_application_data_bad_version c rest out m n a h mag ver =
      bad_version n a _ _
        (rw (recv_msg-send_msg r c rest out 0 m h) (take_magic_bad m (at r c rest out) mag ver))

  -- A first word without the magic number is not refused: its low byte serves as the options, and
  -- the rest of an invocation that the protocol carries is received as if it had come after the
  -- right magic.
  pub receive_application_data_foreign_magic :
      (v : Invocation) (c : Connection k) (rest : List Item) (out : Bytes) (m n : ℕ) (a : AppData)
      → m < word_mod
      → bit_and m msg_mask ≢ magic
      → bit_and m option_mask ≡ v.options
      → IsSendable v
      → 8 ≤ n
      → (receive_application_data n a
          (at r c (send_msg m ++ (send_name v.argv0 ++ (send_actions v ++ rest))) out)).0
        ≡ some (true, delivered dup v a)
  unfolding receive_magic fill
  receive_application_data_foreign_magic v c rest out m n a h mag opt s fuel =
      ap (λ (x : Option (Bool × AppData) × Connection k). x.0)
        (receive_application_data_lem n a _ _ _ _ v.options v.argv0
          (rw (recv_msg-send_msg r c _ out 0 m h)
            (rw (← opt) (take_magic_foreign m (at r c _ out) mag)))
          s.options_lt (receive_app_name-send_name r d _ out v.argv0 s.argv_texts.0) s.argv0_ne_nil
          (receive_actions-send_actions r v n d rest out s fuel))
    where
      d : Connection k
      d = record c { send_pid = not (bit_and m option_wait == 0) }
