-- ===== src/Tests/Program.antt =====
-- Whole runs of the invoker.
use mapplauncherd.Base.{
  ◌≡◌, refl, ap, true, false, [], ◌∷◌, ◌++◌, some, codes, arith, bytes_eq, pos,
}
use mapplauncherd.Wire.{bytes}
use mapplauncherd.Connection.Rounds.{acknowledgement}
use mapplauncherd.Daemon.State.{exited}
use mapplauncherd.Daemon.Reap.Settle.{told}
use mapplauncherd.Invoker.Send.{invoke_remote}
use mapplauncherd.Invoker.Exit.{written, after_signals}
use mapplauncherd.Invoker.Options.{
  Settings, app_type, defaults, parsed, parse_option, parse_options, translate_type,
}
use mapplauncherd.Invoker.Search.{
  search_program, search_path, search_dirs, merge_paths, ends_with_slash, tokens, is_absolute,
  has_char,
}
use mapplauncherd.Invoker.Connect.{connect_path, runtime_path}
use mapplauncherd.SocketManager.{strncpy}
use mapplauncherd.Invoker.Program.{
  starts_with, contains, Machine, ends, opened, invoker_init, invocation, main, prog_prio,
}
use mapplauncherd.Invoker.Program.Status.{main_exit}
use mapplauncherd.AppData.{empty}
use mapplauncherd.Connection.Invocation.{delivered}
use mapplauncherd.Booster.Environment.{set_environment_before_launch}
use mapplauncherd.Booster.Nice.{nice_after, nice_after-set_environment_before_launch}
use mapplauncherd.Tests.Handover.{process}
use mapplauncherd.Tests.Pipe.{pipe, stream, dup, pipe-IsReliable}
use mapplauncherd.Tests.Invoker.{asked, big}
use mapplauncherd.Tests.Sockets.{system}

abbrev pub machine : Machine
machine = record {
  numbers = big;
  search = system;
  is_file = λ p. some (bytes_eq p (codes "/usr/bin/app"));
  pipe = true;
  runtime_dir = some (codes "/run/user/1000");
  socket = true;
  connects = λ p. true;
  fork = pos 43;
  execs = λ p. true;
  getpriority = (pos 5, false);
  uid = 1000;
  gid = 1000;
  environ = codes "HOME=/home" ∷ [];
}

abbrev pub settings : Settings
settings = record defaults { app_type = some (codes "qt5") }

pub right : contains (codes "/usr/bin/invoker") (codes "invoker") ≡ true
unfolding contains starts_with
right = refl

pub parsed_lem : parse_options big (app_type (codes "qt5") ∷ []) defaults ≡ parsed settings
unfolding parse_options parse_option
parsed_lem = refl

pub finds : search_program system (codes "app") ≡ some (codes "/usr/bin/app")
unfolding search_program search_path search_dirs merge_paths ends_with_slash bytes_eq tokens
    is_absolute has_char
finds = refl

pub is_there : bytes_eq (codes "/usr/bin/app") (codes "/usr/bin/app") ≡ true
unfolding bytes_eq
is_there = refl

pub connects :
    invoker_init machine (translate_type (codes "qt5"))
    ≡ opened (codes "/run/user/1000/mapplauncherd/qt5")
unfolding invoker_init translate_type connect_path runtime_path strncpy has_char bytes_eq
connects = refl

main_exit_example :
    main pipe machine
      (stream
        (bytes (acknowledgement asked ++ written (pos 9) (told (pos 77) (pos 9) (exited 3))) ++ [])
        [])
      (after_signals (28 ∷ []))
      true
      (codes "/usr/bin/invoker")
      (app_type (codes "qt5") ∷ [])
      (codes "app" ∷ [])
    ≡ record {
      ending = ends 3 0;
      sent = invoke_remote (invocation machine settings (codes "/usr/bin/app") (codes "app") []);
    }
unfolding defaults
main_exit_example =
    main_exit pipe pipe-IsReliable asked machine true (pos 77) (pos 9) (28 ∷ []) 3 [] []
      (codes "/usr/bin/invoker") (app_type (codes "qt5") ∷ []) (codes "app") [] settings
      (codes "/usr/bin/app") (codes "qt5") (codes "/run/user/1000/mapplauncherd/qt5") (refl, tt)
      right parsed_lem refl finds (ap some is_there) refl refl connects refl (omega arith)
      (ground arith) (omega arith)

nice_after-set_environment_before_launch_example :
    nice_after
      (set_environment_before_launch process
        (delivered dup (invocation machine settings (codes "/usr/bin/app") (codes "app") []) empty))
      (pos 0)
    ≡ pos 5
unfolding prog_prio
nice_after-set_environment_before_launch_example =
    nice_after-set_environment_before_launch process machine settings (codes "/usr/bin/app")
      (codes "app") [] empty dup (pos 0) refl (omega arith)
