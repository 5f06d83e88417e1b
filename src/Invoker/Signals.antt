-- ===== src/Invoker/Signals.antt =====
-- The signals of the invoker: `sig_forwarder`, `sigs_set`, `sigs_init` and `sigs_restore` of
-- src/invoker/invoker.c.
use mapplauncherd.Base.{
  ℕ, ◌≡◌, ◌⊎◌, refl, inl, inr, Bool, false, not, ◌||◌, List, [], ◌∷◌, ◌++◌, if◌then◌else◌, ◌==◌, ℤ,
  pos, int_lt, Bool-cases,
}

pub data Disposition : Type 0 where
  by_default forwarded : Disposition

-- `kill`, a byte in the pipe, and `raise` under a disposition.
pub data Act : Type 0 where
  sends : ℤ → ℕ → Act
  tells : ℕ → Act
  raises : ℕ → Disposition → Act

-- `g_invoked_pid`, what is done on each signal, and what was done.
pub record Signals : Type 0 where
  pub invoked_pid : ℤ
  pub table : ℕ → Disposition
  pub acts : List Act

-- SIGABRT, SIGALRM, SIGBUS, SIGCHLD, SIGCONT, SIGHUP, SIGINT, SIGIO, SIGIOT, SIGPIPE, SIGPROF, SIGPWR,
-- SIGQUIT, SIGSEGV, SIGSYS, SIGTERM, SIGTRAP, SIGTSTP, SIGTTIN, SIGTTOU, SIGUSR1, SIGUSR2, SIGVTALRM,
-- SIGWINCH, SIGXCPU and SIGXFSZ, as on Linux.
abbrev pub handled : List ℕ
handled =
    6 ∷ 14 ∷ 7 ∷ 17 ∷ 18 ∷ 1 ∷ 2 ∷ 29 ∷ 6 ∷ 13 ∷ 27 ∷ 30 ∷ 3 ∷ 11 ∷ 31 ∷ 15 ∷ 5 ∷ 20 ∷ 21 ∷ 22 ∷ 10
    ∷ 12 ∷ 26 ∷ 28 ∷ 24 ∷ 25 ∷ []

abbrev pub has : ℕ → List ℕ → Bool
has x [] = false
has x (s ∷ ss) = x == s || has x ss

unfoldable pub set_each : List ℕ → Disposition → (ℕ → Disposition) → ℕ → Disposition
set_each [] how t = t
set_each (s ∷ ss) how t = set_each ss how (λ x. if x == s then how else t x)

-- `sigs_set`
unfoldable pub sigs_set : Disposition → Signals → Signals
sigs_set how s = record s { table = set_each handled how s.table }

unfoldable pub sigs_init : Signals → Signals
sigs_init = sigs_set forwarded

unfoldable pub sigs_restore : Signals → Signals
sigs_restore = sigs_set by_default

unfoldable pub acted : Act → Signals → Signals
acted a s = record s { acts = s.acts ++ a ∷ [] }

-- `sig_forwarder`; a failure of `kill` is only reported.
unfoldable pub sig_forwarder : ℕ → Signals → Signals
unfolding acted
sig_forwarder sig s =
    if int_lt s.invoked_pid (pos 0)
    then s
    else let restored = sigs_restore (acted (sends s.invoked_pid sig) s) in
      acted (raises sig (restored.table sig)) (acted (tells sig) restored)

-- What comes when a signal does.
unfoldable pub on_signal : ℕ → Signals → Signals
on_signal sig s = elim (s.table sig) [ by_default ↦ s | forwarded ↦ sig_forwarder sig s ]

-- SIGCHLD, SIGCONT, SIGWINCH and SIGURG, which are ignored by default, and SIGTSTP, SIGTTIN, SIGTTOU and
-- SIGSTOP, which stop the process until it is continued; any other ends it by default.
abbrev pub spared : List ℕ
spared = 17 ∷ 18 ∷ 28 ∷ 23 ∷ 20 ∷ 21 ∷ 22 ∷ 19 ∷ []

abbrev pub ends_process : ℕ → Bool
ends_process sig = not (has sig spared)

-- Whether something that is done ends the process.
unfoldable pub is_fatal : List Act → Bool
is_fatal [] = false
is_fatal (raises sig by_default ∷ acts) = ends_process sig || is_fatal acts
is_fatal (raises sig forwarded ∷ acts) = is_fatal acts
is_fatal (sends pid sig ∷ acts) = is_fatal acts
is_fatal (tells sig ∷ acts) = is_fatal acts

-- Whether a signal that comes to a process, which has done nothing on signals so far, ends it.
unfoldable pub ends_on : ℕ → Signals → Bool
unfolding is_fatal on_signal
ends_on sig s = elim (s.table sig) [
  | by_default ↦ ends_process sig
  | forwarded ↦ is_fatal (on_signal sig s).acts
]

restored_table :
    (sig : ℕ) (s : Signals) (d : Disposition)
    → ends_process sig ≡ false
    → is_fatal (sends s.invoked_pid sig ∷ tells sig ∷ raises sig d ∷ []) ≡ false
unfolding is_fatal
restored_table sig s by_default kind = rw kind refl
restored_table sig s forwarded kind = refl

forwarder_spares :
    (sig : ℕ) (s : Signals)
    → ends_process sig ≡ false
    → s.acts ≡ []
    → is_fatal (sig_forwarder sig s).acts ≡ false
unfolding sig_forwarder sigs_restore sigs_set acted
forwarder_spares sig s kind none_yet = elim (Bool-cases (int_lt s.invoked_pid (pos 0))) [
  | inl lost ↦ rw (lost, none_yet) (unfold is_fatal in refl)
  | inr live ↦
      rw (live, none_yet) (restored_table sig s (set_each handled by_default s.table sig) kind)
]

Disposition-cases : (d : Disposition) → (d ≡ by_default) ⊎ (d ≡ forwarded)
Disposition-cases by_default = inl refl
Disposition-cases forwarded = inr refl

-- A signal by which a process does not end by default does not end one that forwards it either.
pub ends_on-spared :
    (sig : ℕ) (s : Signals) → ends_process sig ≡ false → s.acts ≡ [] → ends_on sig s ≡ false
unfolding ends_on on_signal
ends_on-spared sig s kind none_yet = elim (Disposition-cases (s.table sig)) [
  | inl e ↦ rw (e, ends_on) kind
  | inr e ↦ rw (e, ends_on) (rw (e, on_signal) (forwarder_spares sig s kind none_yet))
]
