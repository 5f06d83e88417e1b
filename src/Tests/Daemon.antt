-- ===== src/Tests/Daemon.antt =====
-- The daemon on concrete children.
use mapplauncherd.Base.{
  ◌≡◌, inr, refl, true, false, List, [], ◌∷◌, ◌++◌, Option, none, some, Bytes, codes, arith, ℤ, pos,
  negsuc, int_eq, if◌then◌else◌, All,
}
use mapplauncherd.Map.{find, erase}
use mapplauncherd.Map.Order.{int_ord, bytes_ord}
use mapplauncherd.Daemon.State.{Effect, exited, running, died, Os, Daemon, Outcome, returns}
use mapplauncherd.Daemon.Reap.{
  bury, restart, reap_child, next_index, next_round, reap_round, reap_from, reap_zombies,
}
use mapplauncherd.Daemon.Reap.Total.{reap_zombies_total}
use mapplauncherd.Daemon.Reap.Alive.{Runs, reap_zombies_alive}
use mapplauncherd.Daemon.Reap.Settle.{told}
use mapplauncherd.Daemon.Invariant.{Inv, IsPosix}
use mapplauncherd.Daemon.Saved.{Streams, Storage, saved_state, Restored, restored, restore_state}
use mapplauncherd.Daemon.Saved.Entries.{IsFaithful}
use mapplauncherd.Daemon.Saved.RoundTrip.{blank, with_state_of, restore_state-saved_state}
use mapplauncherd.Daemon.Saved.Endings.{restore_state_total}
use mapplauncherd.Daemon.Loop.{World, Ready, sigchld, run_loop, iterate, handle_signal}
use mapplauncherd.Daemon.Spec.{Reach, registry}
use mapplauncherd.Daemon.Spec.Runs.{Reported, Announced, run_loop-Reach}
use mapplauncherd.Daemon.Spec.Notices.{Notified}
use mapplauncherd.Daemon.Spec.Lifelong.{Keeps}
use mapplauncherd.Daemon.Spec.Waiting.{run_loop-Notifies}
use mapplauncherd.Daemon.Loop.Lifetime.{run_loop-Inv}

-- The process 11 has exited with status 3; the booster 12 runs; new children get 13.
abbrev pub os : Os
os = record {
  fork = λ l. pos 13;
  waitpid = λ l p. if int_eq p (pos 11) then died (exited 3) else running;
  spare = 0;
}

abbrev pub daemon : Daemon
daemon = record {
  daemon = true;
  debug_mode = false;
  boot_mode = false;
  re_exec = false;
  notify_systemd = false;
  has_booster = true;
  children = pos 11 ∷ pos 12 ∷ [];
  invoker_pids = (pos 11, pos 77) ∷ [];
  invoker_fds = (pos 11, pos 9) ∷ [];
  booster_pid = pos 12;
  launcher_socket0 = pos 3;
  launcher_socket1 = pos 4;
  sig_pipe0 = pos 5;
  sig_pipe1 = pos 6;
  sockets = (codes "qt5", pos 7) ∷ [];
  sig_handlers = [];
  log = [];
}

pub os-IsPosix : IsPosix os
os-IsPosix l p = (ground arith, ground arith)

pub daemon-Inv : Inv daemon
unfolding find
daemon-Inv = record {
  booster = inr refl;
  tracked = λ p h. ground arith;
  paired = λ p h. ground arith;
}

reap_zombies_total_example : (o : Outcome) × (reap_zombies os daemon ≡ some o)
reap_zombies_total_example = reap_zombies_total os daemon (λ l l'. refl)

-- The application is gone, its invoker is told, and the booster stays.
abbrev reaped : Outcome
reaped = elim (reap_zombies os daemon) [ none ↦ returns daemon | some o ↦ o ]

abbrev after : Daemon
after = record daemon {
  children = pos 12 ∷ [];
  invoker_pids = [];
  invoker_fds = [];
  log = Effect.waits (pos 11) ∷ (told (pos 77) (pos 9) (exited 3) ++ Effect.waits (pos 12) ∷ []);
}

reaps : reap_zombies os daemon ≡ some (returns after)
unfolding reap_zombies reap_from reap_round reap_child next_round next_index bury restart find erase
reaps = refl

reap_zombies_alive_example : All (Runs os) after.children
reap_zombies_alive_example = reap_zombies_alive os daemon after (λ l l' p. refl) reaps

-- A stream that writes a number as one character, with one before it for the sign.
unfoldable pub read_number : Bytes → Option ℤ
read_number (n ∷ []) = some (pos n)
read_number (m ∷ n ∷ []) = some (negsuc n)
read_number _ = none

abbrev show_number : ℤ → Bytes
show_number (pos n) = n ∷ []
show_number (negsuc n) = 0 ∷ n ∷ []

abbrev pub streams : Streams
streams = record { show = show_number; parse = read_number; split = λ id. id ∷ [] }

pub streams-IsFaithful : IsFaithful streams
unfolding read_number
streams-IsFaithful (pos n) = refl
streams-IsFaithful (negsuc n) = refl

abbrev pub storage : Storage
storage = record {
  dir_exists = true;
  mkdir_succeeds = true;
  dir_still_exists = true;
  is_dir = true;
  save_succeeds = true;
  exec_succeeds = true;
}

abbrev pub world : World
world = record { os = os; streams = streams; storage = storage; my_pid = pos 2 }

abbrev pub rounds : List (World × Ready)
rounds = (world, record { booster = none; signal = some sigchld }) ∷ []

runs : run_loop rounds daemon ≡ returns after
unfolding run_loop iterate handle_signal
runs = rw reaps

run_loop-Inv_example : Inv after
run_loop-Inv_example = run_loop-Inv rounds daemon after (os-IsPosix, tt) daemon-Inv runs

restore_state-saved_state_example :
    restore_state streams (pos 2) (saved_state streams (pos 2) daemon) (blank after)
    ≡ some (restored (with_state_of daemon after))
restore_state-saved_state_example =
    restore_state-saved_state streams streams-IsFaithful (pos 2) daemon after (tt, tt) (tt, tt)
      (tt, tt) (refl, tt)

restore_state_total_example :
    (r : Restored) × (restore_state streams (pos 2) (codes "my-pid" ∷ []) daemon ≡ some r)
restore_state_total_example = restore_state_total streams (pos 2) (codes "my-pid" ∷ []) daemon

run_loop-Reach_example :
    Reach (Reported rounds) (Announced rounds) (registry daemon) (registry after)
run_loop-Reach_example = run_loop-Reach rounds daemon after (os-IsPosix, tt) runs

os-Keeps : Keeps (pos 11) (exited 3) os
os-Keeps = record { posix = os-IsPosix; no_reuse = λ l. ground arith; fate = λ l. inr refl }

-- Two rounds with nothing to do, before the signal and after it.
abbrev idle : World × Ready
idle = (world, record { booster = none; signal = none })

runs_with_idle : run_loop (idle ∷ rounds ++ idle ∷ []) daemon ≡ returns after
unfolding run_loop iterate handle_signal
runs_with_idle = rw reaps

run_loop-Notifies_example : Notified (pos 77) (some (pos 9)) (exited 3) after
unfolding find
run_loop-Notifies_example =
    run_loop-Notifies (pos 11) (pos 77) (pos 9) (exited 3) (idle ∷ []) (idle ∷ []) world
      (record { booster = none; signal = some sigchld }) daemon after
      (os-Keeps, (os-Keeps, (os-Keeps, tt))) daemon-Inv (refl, refl) (ground arith) refl
      (λ l l' p. refl) refl runs_with_idle
