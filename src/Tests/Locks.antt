-- ===== src/Tests/Locks.antt =====
-- Two runs of the single-instance program on a concrete lock table.
use mapplauncherd.Base.{
  ℕ, ◌≡◌, ◌≢◌, refl, sym, ap, ◌∙◌, inl, inr, Bool, true, false, [], ◌∷◌, Option, none, some, Bytes,
  codes, arith, ◌==◌, if◌then◌else◌, bytes_eq, bytes_eq_iff, Bool-cases,
}
use mapplauncherd.SingleInstance.{
  System, Process, ends_part, make_part, and_then, mkpath_from, mkpath, take_lock, open_lock, lock,
  settle, becomes,
}
use mapplauncherd.SingleInstance.Calls.{lock_file, new_process}
use mapplauncherd.SingleInstance.Locks.{Locks, IsExclusive, replay}
use mapplauncherd.SingleInstance.Exclusion.{
  World, absent, held, running, at, takes, starts, Steps, here, then_by, at_most_one,
}

abbrev drop : ℕ → Option ℕ → Option ℕ
drop p none = none
drop p (some q) = if q == p then none else some q

abbrev take : ℕ → Option ℕ → Bool × Option ℕ
take p none = (true, some p)
take p (some q) = (q == p, some q)

-- A table says of each file which process holds its lock.
abbrev locks : Locks
locks = record {
  Table = Bytes → Option ℕ;
  holder = λ t f. t f;
  set = λ p f t. ((take p (t f)).0, λ g. if bytes_eq g f then (take p (t f)).1 else t g);
  release = λ p f t g. if bytes_eq g f then drop p (t g) else t g;
  quit = λ p t g. drop p (t g);
}

same_file : (f : Bytes) → bytes_eq f f ≡ true
same_file f = (bytes_eq_iff f f).1 refl

drop-ne : (p q : ℕ) (o : Option ℕ) → q ≢ p → o ≡ some q → drop p o ≡ some q
drop-ne p q none ne h = absurd (cc)
drop-ne p q (some r) ne h = ground arith

take-granted : (p q : ℕ) (o : Option ℕ) → (take p o).0 ≡ true → o ≡ some q → q ≡ p
take-granted p q none h e = absurd (cc)
take-granted p q (some r) h e = ground arith

take-taken : (p : ℕ) (o : Option ℕ) → (take p o).0 ≡ true → (take p o).1 ≡ some p
take-taken p none h = refl
take-taken p (some r) h = ground arith

take-others : (p q : ℕ) (o : Option ℕ) → o ≡ some q → (take p o).1 ≡ some q
take-others p q none e = absurd (cc)
take-others p q (some r) e = e

locks-IsExclusive : IsExclusive locks
locks-IsExclusive = record {
  granted = λ p f t h q e. take-granted p q (t f) h e;
  taken = λ p f t h. rw (same_file f) (take-taken p (t f) h);
  others = λ p f g t q ne h. elim (Bool-cases (bytes_eq g f)) [
    | inl same ↦
        let eq : g ≡ f = (bytes_eq_iff g f).0 same in
        inl (rw same (take-others p q (t f) (ap t (sym eq) ∙ h)))
    | inr other ↦ inl (rw other h)
  ];
  keeps = λ p f g t q ne h. elim (Bool-cases (bytes_eq g f)) [
    | inl same ↦ rw same (drop-ne p q (t g) ne h)
    | inr other ↦ rw other h
  ];
  stays = λ p g t q ne h. drop-ne p q (t g) ne h;
}

-- Process 5 gets the lock and becomes the program; process 6 would not get it.
abbrev sys : System
sys = record {
  mkdir = λ part. false;
  chmod = λ part. true;
  open_file = λ file. some 3;
  set_lock = λ fd. true;
  execs = λ name. true;
  bus = record { gets_bus = true; makes_message = true; appends = true; sends = true };
}

abbrev base : Bytes
base = codes "/l"

abbrev app : Bytes
app = codes "/a"

abbrev start : World locks
start = record { table = λ f. none; phases = λ p. absent }

abbrev locked : Process
locked = (lock sys base app new_process).1

abbrev after_lock : locks.Table × (ℕ → Bytes)
after_lock = replay locks 5 locked.calls (λ fd. []) start.table

abbrev holding : World locks
holding = record {
  table = after_lock.0;
  phases = at 5 (held app [] locked after_lock.1) start.phases;
}

abbrev to_start : Process
to_start = record locked { calls = [] }

abbrev started : World locks
started = record {
  table = (replay locks 5 to_start.calls after_lock.1 holding.table).0;
  phases = at 5 (running app) holding.phases;
}

gets : lock sys base app new_process ≡ (true, locked)
unfolding lock mkpath mkpath_from ends_part make_part and_then open_lock take_lock
gets = refl

begins : settle sys app [] (true, to_start) ≡ (becomes app (app ∷ []), to_start)
unfolding settle
begins = refl

moves : Steps locks base start started
moves =
    then_by {v = holding} (then_by here (takes 5 sys app [] locked refl (λ fd. refl) gets))
      (starts 5 sys app [] locked to_start after_lock.1 app (app ∷ []) refl begins)

abbrev first : ℕ
first = 5

at_most_one_example : first ≡ first
at_most_one_example =
    at_most_one locks base locks-IsExclusive start started first first app (λ r. refl) moves refl
      refl

-- Process 6 is refused.
refused : (locks.set 6 (lock_file base app) started.table).0 ≡ false
unfolding replay lock mkpath mkpath_from ends_part make_part and_then open_lock take_lock bytes_eq
refused = refl
