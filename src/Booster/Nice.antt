-- ===== src/Booster/Nice.antt =====
-- The priority at which an application runs: that of its invoker, in src/invoker/invoker.c, against the
-- booster's, in src/launcherlib/booster.cpp.
use mapplauncherd.Base.{
  ℕ, zero, suc, ◌<◌, ◌≡◌, ◌^◌, refl, ap, ◌∙◌, Bool, true, false, not, List, [], ◌∷◌, ◌++◌, Option,
  none, some, Bytes, if◌then◌else◌, ◌==◌, arith, ℤ, pos, negsuc, int_lt, Bool-cases, inl, inr,
}
use mapplauncherd.AppData.{AppData, disable_out_of_mem_adj}
use mapplauncherd.Connection.Invocation.{delivered}
use mapplauncherd.Invoker.Options.{Settings}
use mapplauncherd.Invoker.Program.{Machine, as_word, prog_prio, invocation}
use mapplauncherd.Booster.Launch.{to_int}
use mapplauncherd.Booster.Environment.{
  Call, setpriority, setuid, setgid, setegid, reset_oom_adj, set_dumpable, dup2, close, chdir,
  Process, when, priority_calls, io_calls, pwd_calls, id_calls, set_environment_before_launch,
}

-- The nice value behind the calls, where `setpriority` succeeds.
abbrev pub nice_after : List Call → ℤ → ℤ
nice_after [] nice = nice
nice_after (setpriority n ∷ calls) nice = nice_after calls n
nice_after (_ ∷ calls) nice = nice_after calls nice

-- The values of an `int`.
abbrev pub IsInt : ℤ → Type 0
IsInt (pos n) = n < 2 ^ 31
IsInt (negsuc n) = n < 2 ^ 31

nice_after-append :
    (cs ds : List Call) (n : ℤ) → nice_after (cs ++ ds) n ≡ nice_after ds (nice_after cs n)
nice_after-append [] ds n = refl
nice_after-append (setpriority m ∷ cs) ds n = nice_after-append cs ds m
nice_after-append (setuid u ∷ cs) ds n = nice_after-append cs ds n
nice_after-append (setgid g ∷ cs) ds n = nice_after-append cs ds n
nice_after-append (setegid g ∷ cs) ds n = nice_after-append cs ds n
nice_after-append (reset_oom_adj ∷ cs) ds n = nice_after-append cs ds n
nice_after-append (set_dumpable ∷ cs) ds n = nice_after-append cs ds n
nice_after-append (dup2 a b ∷ cs) ds n = nice_after-append cs ds n
nice_after-append (close a ∷ cs) ds n = nice_after-append cs ds n
nice_after-append (chdir d ∷ cs) ds n = nice_after-append cs ds n

nice_after-io_calls : (i : ℕ) (io : List (Option ℕ)) (n : ℤ) → nice_after (io_calls i io) n ≡ n
unfolding io_calls
nice_after-io_calls i [] n = refl
nice_after-io_calls i (none ∷ io) n = nice_after-io_calls (suc i) io n
nice_after-io_calls i (some zero ∷ io) n = nice_after-io_calls (suc i) io n
nice_after-io_calls i (some (suc fd) ∷ io) n = nice_after-io_calls (suc i) io n

nice_after-pwd_calls : (d : Option Bytes) (n : ℤ) → nice_after (pwd_calls d) n ≡ n
unfolding pwd_calls
nice_after-pwd_calls none n = refl
nice_after-pwd_calls (some d) n = refl

abbrev IsQuiet : List Call → Type 0
IsQuiet cs = (n : ℤ) → nice_after cs n ≡ n

IsQuiet-when : (b : Bool) (cs : List Call) → IsQuiet cs → IsQuiet (when b cs)
IsQuiet-when true cs h n = h n
IsQuiet-when false cs h n = refl

IsQuiet-append : (cs ds : List Call) → IsQuiet cs → IsQuiet ds → IsQuiet (cs ++ ds)
IsQuiet-append cs ds h h' n = nice_after-append cs ds n ∙ ap (nice_after ds) (h n) ∙ h' n

nice_after-priority_calls :
    (o : Option ℤ) (p cur : ℤ)
    → o ≡ some cur
    → nice_after (priority_calls o p) cur ≡ (if int_lt cur p then p else cur)
unfolding priority_calls
nice_after-priority_calls none p cur h = absurd (cc)
nice_after-priority_calls (some c) p cur h =
    let same : c ≡ cur = cc in
    elim (Bool-cases (int_lt cur p)) [
      | inl lower ↦ rw (same, lower) refl
      | inr other ↦ rw (same, other) refl
    ]

nice_after-id_calls :
    (p : Process) (a : AppData) (cur : ℤ)
    → p.priority ≡ some cur
    → nice_after (id_calls p a) cur
      ≡ (if int_lt cur (to_int a.priority) then to_int a.priority else cur)
unfolding id_calls
nice_after-id_calls p a cur h =
    nice_after-append (priority_calls p.priority (to_int a.priority)) _ cur
    ∙ IsQuiet-append (when (not (p.uid == a.uid)) (setuid a.uid ∷ [])) _
        (IsQuiet-when (not (p.uid == a.uid)) _ (λ n. refl))
        (IsQuiet-append (when (not (p.gid == a.gid)) (setgid a.gid ∷ [])) _
          (IsQuiet-when (not (p.gid == a.gid)) _ (λ n. refl))
          (IsQuiet-append (when (not (disable_out_of_mem_adj a)) (reset_oom_adj ∷ []))
            (set_dumpable ∷ []) (IsQuiet-when (not (disable_out_of_mem_adj a)) _ (λ n. refl))
            (λ n. refl)))
        _
    ∙ nice_after-priority_calls p.priority (to_int a.priority) cur h

to_int-as_word : (z : ℤ) → IsInt z → to_int (as_word z) ≡ z
unfolding as_word
to_int-as_word (pos n) h = ground arith
to_int-as_word (negsuc n) h = ground arith

-- The application runs at the nicer of two priorities, where the calls succeed: that which the booster has,
-- and that which the invoker had, 0 where the invoker could not read its own; a priority below the
-- booster's is not given to it.
pub nice_after-set_environment_before_launch :
    (p : Process) (w : Machine) (s : Settings) (prog argv0 : Bytes) (args : List Bytes)
    (a : AppData) (dup : ℕ → ℕ) (cur : ℤ)
    → p.priority ≡ some cur
    → IsInt (prog_prio w.getpriority)
    → nice_after
        (set_environment_before_launch p (delivered dup (invocation w s prog argv0 args) a))
        cur
      ≡ (if int_lt cur (prog_prio w.getpriority) then prog_prio w.getpriority else cur)
unfolding set_environment_before_launch invocation
nice_after-set_environment_before_launch p w s prog argv0 args a dup cur h fits =
    let b = delivered dup (invocation w s prog argv0 args) a in
    nice_after-append (id_calls p b) (io_calls 0 b.io_descriptors ++ pwd_calls p.pwd) cur
    ∙ IsQuiet-append (io_calls 0 b.io_descriptors) (pwd_calls p.pwd)
        (nice_after-io_calls 0 b.io_descriptors) (nice_after-pwd_calls p.pwd) _
    ∙ nice_after-id_calls p b cur h
    ∙ ap (λ z. if int_lt cur z then z else cur) (to_int-as_word (prog_prio w.getpriority) fits)
