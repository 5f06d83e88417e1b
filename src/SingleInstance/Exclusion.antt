-- ===== src/SingleInstance/Exclusion.antt =====
-- Several runs of the single-instance program beside each other, src/single-instance/main.cpp.
use mathlib.Core.Path.{subst}
use mapplauncherd.Base.{
  ℕ, ◌≡◌, ◌≢◌, refl, sym, ap, ◌∙◌, inl, inr, true, false, List, [], Option, none, some, Bytes,
  arith, ◌==◌, Bool-cases, if◌then◌else◌,
}
use mapplauncherd.SingleInstance.{System, Process, lock, settle, ends, becomes}
use mapplauncherd.SingleInstance.Calls.{lock_file, new_process, settle-becomes}
use mapplauncherd.SingleInstance.Locks.{Locks, IsExclusive, replay, replay-others, replay-lock}

-- Where a process is: not there; behind `lock` with what it is to start, and the file of each descriptor
-- that it has opened; or become a program.
pub data Phase : Type 0 where
  absent : Phase
  held : Bytes → List Bytes → Process → (ℕ → Bytes) → Phase
  running : Bytes → Phase

-- The program that it is or is about to become.
abbrev pub program : Phase → Option Bytes
program absent = none
program (held name args p files) = some name
program (running name) = some name

abbrev pub at : ℕ → Phase → (ℕ → Phase) → ℕ → Phase
at p x phases q = if q == p then x else phases q

pub record World (k : Locks) : Type 0 where
  pub table : k.Table
  pub phases : ℕ → Phase

module _ (k : Locks) (base : Bytes) where
  -- What one process does: `main` up to `lock`, which gets the lock or not; the rest of `main`, which
  -- becomes the program or ends; and its end, by itself or by another's doing, at any time. The calls that
  -- the code makes are what changes the locks, and `fcntl` answers as they are. A program leaves its lock
  -- file alone.
  pub data Step : World k → World k → Type 0 where
    takes :
        {w : World k} (p : ℕ) (sys : System) (name : Bytes) (args : List Bytes) (q : Process)
        → w.phases p ≡ absent
        → ((fd : ℕ)
            → sys.set_lock fd ≡ (k.set p ((replay k p q.calls (λ x. []) w.table).1 fd) w.table).0)
        → lock sys base name new_process ≡ (true, q)
        → Step w (record {
          table = (replay k p q.calls (λ x. []) w.table).0;
          phases = at p (held name args q (replay k p q.calls (λ x. []) w.table).1) w.phases;
        })
    misses :
        {w : World k} (p : ℕ) (sys : System) (name : Bytes) (q : Process)
        → w.phases p ≡ absent
        → lock sys base name new_process ≡ (false, q)
        → Step w (record {
          table = k.quit p (replay k p q.calls (λ x. []) w.table).0;
          phases = at p absent w.phases;
        })
    starts :
        {w : World k} (p : ℕ) (sys : System) (name : Bytes) (args : List Bytes) (q q' : Process)
        (files : ℕ → Bytes) (prog : Bytes) (argv : List Bytes)
        → w.phases p ≡ held name args q files
        → settle sys name args (true, record q { calls = [] }) ≡ (becomes prog argv, q')
        → Step w (record {
          table = (replay k p q'.calls files w.table).0;
          phases = at p (running prog) w.phases;
        })
    fails :
        {w : World k} (p : ℕ) (sys : System) (name : Bytes) (args : List Bytes) (q q' : Process)
        (files : ℕ → Bytes) (n : ℕ)
        → w.phases p ≡ held name args q files
        → settle sys name args (true, record q { calls = [] }) ≡ (ends n, q')
        → Step w (record {
          table = k.quit p (replay k p q'.calls files w.table).0;
          phases = at p absent w.phases;
        })
    quits :
        {w : World k} (p : ℕ)
        → Step w (record { table = k.quit p w.table; phases = at p absent w.phases })

  pub data Steps : World k → World k → Type 0 where
    here : {w : World k} → Steps w w
    then_by : {u v w : World k} → Steps u v → Step v w → Steps u w

  -- Every process that is or is about to become a program has that program's lock.
  abbrev pub Held : World k → Type 0
  Held w =
      (p : ℕ) (name : Bytes)
      → program (w.phases p) ≡ some name
      → k.holder w.table (lock_file base name) ≡ some p

  module _ (x : IsExclusive k) where
    -- A change at one process, which holds what it is said to run.
    at-Held :
        (t : k.Table) (p : ℕ) (y : Phase) (w : World k)
        → ((name : Bytes) → program y ≡ some name → k.holder t (lock_file base name) ≡ some p)
        → ((q : ℕ) (name : Bytes)
            → q ≢ p
            → program (w.phases q) ≡ some name
            → k.holder t (lock_file base name) ≡ some q)
        → Held (record { table = t; phases = at p y w.phases })
    at-Held t p y w own rest q name h = elim (Bool-cases (q == p)) [
      | inl same ↦ let eq : p ≡ q = ground arith in own name (rw same at h) ∙ ap some eq
      | inr other ↦ rest q name (ground arith) (rw other at h)
    ]

    Step-Held : (v w : World k) → Held v → Step v w → Held w
    Step-Held v w h (takes p sys name args q away agrees got) =
        let (fd, ok, file, table) = replay-lock k p sys base name q v.table got in
        let granted : (k.set p (lock_file base name) v.table).0 ≡ true =
          ap (λ f. (k.set p f v.table).0) (sym file) ∙ sym (agrees fd) ∙ ok in
        at-Held _ p (held name args q _) v
          (λ n e.
            let same : name ≡ n = cc in
            ap (λ t. k.holder t (lock_file base n)) table
            ∙ subst
                (λ m.
                  k.holder (k.set p (lock_file base name) v.table).1 (lock_file base m) ≡ some p)
                same (x.taken p (lock_file base name) v.table granted))
          (λ r n ne e. replay-others k p x q.calls (λ y. []) v.table _ r ne (h r n e))
    Step-Held v w h (misses p sys name q away lost) =
        at-Held _ p absent v (λ m e. absurd (cc))
          (λ r m ne e.
            x.stays p _ _ r ne (replay-others k p x q.calls (λ y. []) v.table _ r ne (h r m e)))
    Step-Held v w h (starts p sys name args q q' files prog argv at_p done) =
        let (same, kept) =
          settle-becomes sys name args (record q { calls = [] }) q' prog argv done in
        let still : (replay k p q'.calls files v.table).0 ≡ v.table =
          ap (λ cs. (replay k p cs files v.table).0) kept ∙ (unfold replay in refl) in
        at-Held _ p (running prog) v
          (λ n e.
            let at_n : some prog ≡ some n = e in
            ap (λ t. k.holder t (lock_file base n)) still ∙ h p n (rw at_p (ap some same ∙ at_n)))
          (λ r n ne e. replay-others k p x q'.calls files v.table _ r ne (h r n e))
    Step-Held v w h (fails p sys name args q q' files n at_p done) =
        at-Held _ p absent v (λ m e. absurd (cc))
          (λ r m ne e.
            x.stays p _ _ r ne (replay-others k p x q'.calls files v.table _ r ne (h r m e)))
    Step-Held v w h (quits p) =
        at-Held _ p absent v (λ m e. absurd (cc)) (λ r m ne e. x.stays p _ v.table r ne (h r m e))

    Steps-Held : (v w : World k) → Held v → Steps v w → Held w
    Steps-Held v w h here = h
    Steps-Held v w h (then_by {v = u} steps step) = Step-Held u w (Steps-Held v u h steps) step

    -- Whatever processes run the single-instance program, in whatever order their moves come, and whichever
    -- of them fail or are ended: from a start where no process runs, two processes that have become the
    -- same program, or have its lock and are about to, are one and the same. The system's locks must be
    -- exclusive and `fcntl` must answer as they are; a program that was started must leave its lock file
    -- alone.
    pub at_most_one :
        (v w : World k) (p q : ℕ) (name : Bytes)
        → ((r : ℕ) → v.phases r ≡ absent)
        → Steps v w
        → program (w.phases p) ≡ some name
        → program (w.phases q) ≡ some name
        → p ≡ q
    at_most_one v w p q name none_yet steps a b =
        let start : Held v =
          λ r n e. absurd (let no : none ≡ some n = sym (ap program (none_yet r)) ∙ e in cc) in
        let all = Steps-Held v w start steps in
        let same : some p ≡ some q = sym (all p name a) ∙ all q name b in cc
