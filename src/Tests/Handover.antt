-- ===== src/Tests/Handover.antt =====
-- The booster on concrete invokers.
use mapplauncherd.Base.{
  pos, ◌≡◌, refl, Bool, true, false, List, [], ◌∷◌, ◌++◌, some, Bytes, codes, arith, map,
}
use mapplauncherd.AppData.{empty, single_instance, has_option}
use mapplauncherd.Connection.Invocation.{IsSendable, delivered}
use mapplauncherd.Invoker.Send.{Invocation}
use mapplauncherd.Booster.Launch.{launches, keeps_plugin, wait_for_launch, is_refused}
use mapplauncherd.Booster.Handover.{arrival, kept}
use mapplauncherd.Booster.Patience.{
  Client, left, arrives, all_dismissed, wait_for_launch_eventually,
}
use mapplauncherd.Booster.Environment.{
  Process, Table, apply_all, set_environment_before_launch, set_environment_before_launch-delivered,
}
use mapplauncherd.Booster.Process.{Scheduler}
use mapplauncherd.Tests.Pipe.{dup, pipe-IsReliable}
use mapplauncherd.Tests.Booster.{run_app, run_app-IsSendable}

abbrev pub never : Bytes → Bool
never name = false

abbrev pub single : Invocation
single = record run_app { options = 9 }

abbrev client : Invocation → Client
client v = record { invocation = v; rest = []; out = []; lock = never; activate = never }

single-IsSendable : IsSendable single
single-IsSendable = record {
  options_lt = omega arith;
  argv0_ne_nil = run_app-IsSendable.argv0_ne_nil;
  argv_texts = run_app-IsSendable.argv_texts;
  argv_few = run_app-IsSendable.argv_few;
  prog_name_text = run_app-IsSendable.prog_name_text;
  prio_lt = run_app-IsSendable.prio_lt;
  delay_lt = run_app-IsSendable.delay_lt;
  uid_lt = run_app-IsSendable.uid_lt;
  gid_lt = run_app-IsSendable.gid_lt;
  environ_texts = run_app-IsSendable.environ_texts;
  environ_ne_nil = run_app-IsSendable.environ_ne_nil;
  environ_few = run_app-IsSendable.environ_few;
}

pub free :
    is_refused true
      (delivered dup run_app empty)
      (arrival pipe-IsReliable run_app [] [] never never)
    ≡ false
unfolding is_refused single_instance has_option
free = refl

busy :
    is_refused true (delivered dup single empty) (arrival pipe-IsReliable single [] [] never never)
    ≡ true
unfolding is_refused single_instance has_option
busy = refl

wait_for_launch_eventually_example :
    wait_for_launch 8 true empty [] (
      map (arrives pipe-IsReliable) (client single ∷ [])
      ++ arrives pipe-IsReliable (client run_app) ∷ [])
    ≡ (
      launches
          (keeps_plugin true (delivered dup run_app empty))
          (delivered dup run_app empty)
          (kept pipe-IsReliable run_app [] [] (left [] (client single ∷ [])) 5),
      all_dismissed pipe-IsReliable [] 5 (client single ∷ []),
    )
wait_for_launch_eventually_example =
    wait_for_launch_eventually pipe-IsReliable (client single ∷ []) (client run_app) 8 5 empty [] []
      (omega arith) refl ((single-IsSendable, busy), tt) run_app-IsSendable free

abbrev pub old : List Bytes
old = codes "/usr/bin/launcher" ∷ codes "    " ∷ []

abbrev pub scheduler : Scheduler
scheduler = record { getpriority = some (pos 0); setpriority = λ n. true }

abbrev pub process : Process
process = record {
  priority = some (pos 0);
  uid = 0;
  gid = 1000;
  egid = 1000;
  boosted_gid = 126;
  pwd = some (codes "/home");
}

abbrev pub open_files : Table
open_files x = some x

set_environment_before_launch-delivered_example :
    (apply_all (set_environment_before_launch process (delivered dup run_app empty)) open_files 0
      ≡ some 10)
    × (apply_all (set_environment_before_launch process (delivered dup run_app empty)) open_files 1
        ≡ some 11)
    × (apply_all (set_environment_before_launch process (delivered dup run_app empty)) open_files 2
        ≡ some 12)
set_environment_before_launch-delivered_example =
    set_environment_before_launch-delivered process run_app empty dup open_files (omega arith)
      (omega arith) (omega arith) (omega arith) (omega arith) (omega arith) (ground arith)
      (ground arith) (ground arith)
