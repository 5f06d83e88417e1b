-- ===== src/Tests/Ready.antt =====
-- A booster through `initialize`, and the descriptors of a connection, on concrete invokers.
use mapplauncherd.Base.{
  ◌≡◌, inr, refl, true, false, [], ◌∷◌, ◌++◌, none, some, codes, arith, length, pos,
}
use mapplauncherd.Environ.{basename, setenv}
use mapplauncherd.AppData.{empty}
use mapplauncherd.Wire.{rights}
use mapplauncherd.Connection.State.{Connection, close}
use mapplauncherd.Connection.Actions.{receive_application_data}
use mapplauncherd.Connection.Receive.{receive_io}
use mapplauncherd.Connection.Delivery.{at, assignments}
use mapplauncherd.Connection.Invocation.{delivered, waits}
use mapplauncherd.Connection.Descriptors.{
  close_fd, closed_by_close, destroy, destroy-invoke_remote, destroy-receive_io_again,
}
use mapplauncherd.Invoker.Send.{invoke_remote}
use mapplauncherd.Booster.Handover.{arrival, message}
use mapplauncherd.Booster.Rename.{Names, new_argv, space_of}
use mapplauncherd.Booster.Object.{Booster, new_booster, ready, delete_connection, initialize}
use mapplauncherd.Booster.Ready.{deeds, initialize-invoke_remote}
use mapplauncherd.Tests.Pipe.{pipe, dup, pipe-IsReliable}
use mapplauncherd.Tests.Booster.{run_app, run_app-IsSendable, start}
use mapplauncherd.Tests.Handover.{never, free, old, scheduler}

abbrev new : Booster pipe
new = new_booster pipe (λ name. none) (pos 0) (pos 0)

initialize-invoke_remote_example :
    (e : Booster pipe) × (after : Names) × (initialize scheduler
        (codes "qt5")
        old
        (pos 4)
        (pos 6)
        false
        8
        true
        (arrival pipe-IsReliable run_app [] [] never never ∷ [])
        new
        (new_argv old)
        []
      ≡ ready e after
          (deeds false (pos 4) (message pipe-IsReliable run_app [] [] [] 5) (waits run_app) 5))
    × (e.app_data ≡ delivered dup run_app new.app_data)
    × (after.environ ≡ setenv (codes "_") run_app.argv0 (assignments run_app.environ))
    × (after.title ≡ some (basename run_app.argv0))
    × (e.priority.nice ≡ new.priority.nice)
    × (length after.area ≡ length (new_argv old))
    × (delete_connection e.connection ≡ dup 0 ∷ dup 1 ∷ dup 2 ∷ [])
unfolding new_booster new_argv space_of
initialize-invoke_remote_example =
    initialize-invoke_remote pipe-IsReliable scheduler (codes "qt5") old (pos 4) (pos 6) false 8 5
      true [] run_app [] [] never never new (new_argv old) run_app-IsSendable (omega arith) refl
      refl free refl (omega arith) refl (inr refl) refl

abbrev opened : Connection pipe
opened = record start { fd = some 5 }

abbrev got : Connection pipe
got =
    (receive_application_data 8 empty
      (at pipe-IsReliable opened (invoke_remote run_app ++ []) [])).1

destroy-invoke_remote_example :
    ((destroy got).0 ≡ 5 ∷ dup 0 ∷ dup 1 ∷ dup 2 ∷ [])
    × (closed_by_close got ≡ 5 ∷ [])
    × ((destroy (close got)).0 ≡ dup 0 ∷ dup 1 ∷ dup 2 ∷ [])
    × ((destroy (destroy got).1).0 ≡ [])
destroy-invoke_remote_example =
    destroy-invoke_remote pipe-IsReliable run_app 8 5 empty opened [] [] run_app-IsSendable
      (omega arith) refl

destroy-receive_io_again_example :
    (destroy
      (receive_io
        (receive_io (at pipe-IsReliable opened (rights 0 1 2 ∷ rights 3 4 5 ∷ []) [])).1).1).0
    ≡ close_fd false opened.fd ++ dup 3 ∷ dup 4 ∷ dup 5 ∷ []
destroy-receive_io_again_example = destroy-receive_io_again pipe-IsReliable 0 1 2 3 4 5 opened [] []
