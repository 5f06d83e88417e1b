-- ===== src/Tests/Booster.antt =====
-- The booster reads an invocation of `/usr/bin/app -x`.
use mapplauncherd.Base.{
  ◌≡◌, ◌≢◌, refl, Bool, true, false, inr, [], ◌∷◌, ◌++◌, none, some, Bytes, codes, arith, length,
  All, ◌&&◌, not, ◌==◌, ltb, decode_word,
}
use mapplauncherd.Wire.{bytes}
use mapplauncherd.AppData.{empty}
use mapplauncherd.Protocol.{msg_args}
use mapplauncherd.Connection.State.{Connection, initial, recv_msg, recv_str, c_str, set_last}
use mapplauncherd.Connection.Receive.{bad_options}
use mapplauncherd.Connection.Actions.{receive_actions, receive_application_data}
use mapplauncherd.Connection.Delivery.{IsText, at}
use mapplauncherd.Connection.Rounds.{acknowledgement}
use mapplauncherd.Connection.Invocation.{
  IsSendable, received, delivered, waits, receive_application_data-invoke_remote,
}
use mapplauncherd.Connection.Refusals.{
  recv_str_failed_read, recv_str_too_long, receive_actions_bad_argc,
  receive_application_data_bad_version, receive_application_data_foreign_magic,
}
use mapplauncherd.Connection.Termination.{receive_actions_total}
use mapplauncherd.Invoker.Send.{
  Invocation, send_msg, send_str, send_name, send_actions, send_end, invoke_remote,
}
use mapplauncherd.Tests.Pipe.{pipe, dup, zeros, length-zeros, pipe-IsReliable, pipe-Drains, broken}

abbrev pub run_app : Invocation
run_app = record {
  options = 1;
  argv0 = codes "app";
  args = codes "-x" ∷ [];
  prog_name = codes "/usr/bin/app";
  prio = 0;
  respawn_delay = 3;
  uid = 1000;
  gid = 1000;
  environ = codes "A=b" ∷ codes "C" ∷ [];
}

abbrev pub start : Connection pipe
start = initial pipe ([], []) []

abbrev pub no_zeros : Bytes → Bool
no_zeros [] = true
no_zeros (b ∷ bs) = not (b == 0) && no_zeros bs

no_zeros_lem : (s : Bytes) → no_zeros s ≡ true → All (λ b. b ≢ 0) s
no_zeros_lem [] h = tt
no_zeros_lem (b ∷ bs) h = (ground arith, no_zeros_lem bs (ground arith))

pub to_text : (s : Bytes) → (no_zeros s && ltb (length s) 4096) ≡ true → IsText s
to_text s h = record { no_zero = no_zeros_lem s (ground arith); fits = ground arith }

pub run_app-IsSendable : IsSendable run_app
run_app-IsSendable = record {
  options_lt = omega arith;
  argv0_ne_nil = ground arith;
  argv_texts = (to_text _ refl, (to_text _ refl, tt));
  argv_few = omega arith;
  prog_name_text = to_text _ refl;
  prio_lt = omega arith;
  delay_lt = omega arith;
  uid_lt = omega arith;
  gid_lt = omega arith;
  environ_texts = (to_text _ refl, (to_text _ refl, tt));
  environ_ne_nil = omega arith;
  environ_few = omega arith;
}

receive_application_data-invoke_remote_example :
    receive_application_data 8 empty (at pipe-IsReliable start (invoke_remote run_app ++ []) []) ≡ (
      some (true, delivered dup run_app empty),
      at pipe-IsReliable
          (received dup run_app (record start { send_pid = waits run_app }))
          []
          ([] ++ acknowledgement (record start { send_pid = waits run_app })),
    )
receive_application_data-invoke_remote_example =
    receive_application_data-invoke_remote pipe-IsReliable run_app 8 empty start [] []
      run_app-IsSendable (omega arith)

receive_actions_total_example :
    (b : Bool) × ((receive_actions 4 (initial pipe (bytes (1 ∷ 2 ∷ 3 ∷ []), []) [])).0 ≡ some b)
unfolding initial
receive_actions_total_example =
    receive_actions_total pipe-Drains 4 (initial pipe (bytes (1 ∷ 2 ∷ 3 ∷ []), []) []) (omega arith)

abbrev cut_off : Connection broken
cut_off = initial broken ([], []) []

recv_str_failed_read_example : (recv_str cut_off).0 ≡ some (c_str (set_last (zeros 5)))
unfolding initial recv_msg decode_word
recv_str_failed_read_example =
    recv_str_failed_read cut_off cut_off 5 refl refl (omega arith) (omega arith) refl

recv_str_too_long_example :
    recv_str (at pipe-IsReliable start (send_str (zeros 4096) ++ []) [])
    ≡ (none, at pipe-IsReliable start (bytes (zeros 4096 ++ 0 ∷ []) ++ []) [])
recv_str_too_long_example =
    recv_str_too_long pipe-IsReliable start [] [] (zeros 4096) (omega (arith, length-zeros 4096))
      (omega (arith, length-zeros 4096))

receive_actions_bad_argc_example :
    (receive_actions 2
        (at pipe-IsReliable start (send_msg msg_args ++ (send_msg 1024 ++ (send_end ++ []))) [])
      ≡ (
        some true,
        at pipe-IsReliable (record start { argc = 1024 }) [] ([] ++ acknowledgement start),
      ))
    × (receive_actions 2
          (at pipe-IsReliable start (send_msg msg_args ++ (send_msg 1024 ++ (send_msg 4 ++ []))) [])
        ≡ (some false, at pipe-IsReliable (record start { argc = 1024 }) [] []))
receive_actions_bad_argc_example =
    receive_actions_bad_argc pipe-IsReliable start [] [] 1024 4 0 (inr (omega arith)) (omega arith)
      (omega arith)

receive_application_data_bad_version_example :
    receive_application_data 3 empty (at pipe-IsReliable start (send_msg 0xb0070200 ++ []) [])
    ≡ (some (false, record empty { options = bad_options }), at pipe-IsReliable start [] [])
receive_application_data_bad_version_example =
    receive_application_data_bad_version pipe-IsReliable start [] [] 0xb0070200 3 empty
      (omega arith) refl (ground arith)

receive_application_data_foreign_magic_example :
    (receive_application_data 8 empty (
      at pipe-IsReliable start
        (send_msg 1 ++ (send_name run_app.argv0 ++ (send_actions run_app ++ [])))
        [])).0
    ≡ some (true, delivered dup run_app empty)
receive_application_data_foreign_magic_example =
    receive_application_data_foreign_magic pipe-IsReliable run_app start [] [] 1 8 empty
      (omega arith) (ground arith) refl run_app-IsSendable (omega arith)
