-- ===== src/SingleInstance/Locks.antt =====
-- The record locks of the system, and what the calls of src/single-instance/main.cpp do to them.
use mapplauncherd.Base.{
  ℕ, ◌≡◌, ◌≢◌, ◌⊎◌, refl, sym, ap, ◌∙◌, inl, inr, Bool, true, List, [], ◌∷◌, ◌++◌, Option, some,
  Bytes, arith, ◌==◌, if◌then◌else◌,
}
use mapplauncherd.SingleInstance.{
  System, Call, makes, changes_mode, opens, locks, closes, Process, lock,
}
use mapplauncherd.SingleInstance.Calls.{lock_file, IsQuiet, new_process, lock-calls}

-- The record locks of the system: who holds a file's lock, and what `fcntl(F_SETLK)`, the close of a
-- locked file and the end of a process do.
pub record Locks : Type 1 where
  pub Table : Type 0
  pub holder : Table → Bytes → Option ℕ
  pub set : ℕ → Bytes → Table → Bool × Table
  pub release : ℕ → Bytes → Table → Table
  pub quit : ℕ → Table → Table

-- What is documented of them: a lock is granted only where no other process has it, and a process loses
-- only its own locks.
pub record IsExclusive (k : Locks) : Type 0 where
  pub granted :
      (p : ℕ) (f : Bytes) (t : k.Table)
      → (k.set p f t).0 ≡ true
      → (q : ℕ) → k.holder t f ≡ some q
      → q ≡ p
  pub taken :
      (p : ℕ) (f : Bytes) (t : k.Table)
      → (k.set p f t).0 ≡ true
      → k.holder (k.set p f t).1 f ≡ some p
  pub others :
      (p : ℕ) (f g : Bytes) (t : k.Table) (q : ℕ)
      → q ≢ p
      → k.holder t g ≡ some q
      → (k.holder (k.set p f t).1 g ≡ some q) ⊎ ((g ≡ f) × ((k.set p f t).0 ≡ true))
  pub keeps :
      (p : ℕ) (f g : Bytes) (t : k.Table) (q : ℕ)
      → q ≢ p
      → k.holder t g ≡ some q
      → k.holder (k.release p f t) g ≡ some q
  pub stays :
      (p : ℕ) (g : Bytes) (t : k.Table) (q : ℕ)
      → q ≢ p
      → k.holder t g ≡ some q
      → k.holder (k.quit p t) g ≡ some q

-- What the calls of the process `p` do to the locks, and to the files of its descriptors.
module _ (k : Locks) (p : ℕ) where
  unfoldable pub replay : List Call → (ℕ → Bytes) → k.Table → k.Table × (ℕ → Bytes)
  replay [] files t = (t, files)
  replay (opens file fd ∷ cs) files t = replay cs (λ x. if x == fd then file else files x) t
  replay (locks fd ∷ cs) files t = replay cs files (k.set p (files fd) t).1
  replay (closes fd ∷ cs) files t = replay cs files (k.release p (files fd) t)
  replay (makes path ∷ cs) files t = replay cs files t
  replay (changes_mode path ∷ cs) files t = replay cs files t

  replay-quiet :
      (cs ds : List Call) (files : ℕ → Bytes) (t : k.Table)
      → IsQuiet cs
      → replay (cs ++ ds) files t ≡ replay ds files t
  unfolding replay
  replay-quiet [] ds files t h = refl
  replay-quiet (makes path ∷ cs) ds files t h = replay-quiet cs ds files t h
  replay-quiet (changes_mode path ∷ cs) ds files t h = replay-quiet cs ds files t h
  replay-quiet (opens file fd ∷ cs) ds files t h = absurd h
  replay-quiet (locks fd ∷ cs) ds files t h = absurd h
  replay-quiet (closes fd ∷ cs) ds files t h = absurd h

  -- Whatever a process does, the locks of the others stay.
  pub replay-others :
      (x : IsExclusive k) (cs : List Call) (files : ℕ → Bytes) (t : k.Table) (g : Bytes) (q : ℕ)
      → q ≢ p
      → k.holder t g ≡ some q
      → k.holder (replay cs files t).0 g ≡ some q
  unfolding replay
  replay-others x [] files t g q ne h = h
  replay-others x (opens file fd ∷ cs) files t g q ne h =
      replay-others x cs (λ y. if y == fd then file else files y) t g q ne h
  replay-others x (locks fd ∷ cs) files t g q ne h =
      replay-others x cs files (k.set p (files fd) t).1 g q ne
        (elim (x.others p (files fd) g t q ne h) [
          | inl stays ↦ stays
          | inr (same, granted) ↦
              absurd (ne (x.granted p (files fd) t granted q (sym (ap (k.holder t) same) ∙ h)))
        ])
  replay-others x (closes fd ∷ cs) files t g q ne h =
      replay-others x cs files (k.release p (files fd) t) g q ne (x.keeps p (files fd) g t q ne h)
  replay-others x (makes path ∷ cs) files t g q ne h = replay-others x cs files t g q ne h
  replay-others x (changes_mode path ∷ cs) files t g q ne h = replay-others x cs files t g q ne h

  -- A `lock` that succeeds has asked for the lock of its own file, and for nothing else.
  pub replay-lock :
      (sys : System) (base name : Bytes) (q : Process) (t : k.Table)
      → lock sys base name new_process ≡ (true, q)
      → (fd : ℕ) × (sys.set_lock fd ≡ true)
        × ((replay q.calls (λ x. []) t).1 fd ≡ lock_file base name)
        × ((replay q.calls (λ x. []) t).0 ≡ (k.set p (lock_file base name) t).1)
  replay-lock sys base name q t h =
      let (fd, made, quiet, calls, ok) = lock-calls sys base name q h in
      let file = lock_file base name in
      let same : replay q.calls (λ x. []) t ≡ replay (opens file fd ∷ locks fd ∷ []) (λ x. []) t =
        ap (λ cs. replay cs (λ x. []) t) calls ∙ replay-quiet made _ (λ x. []) t quiet in
      let self : (fd == fd) ≡ true = ground arith in
      (
        fd,
        ok,
        ap (λ r. r.1 fd) same ∙ (unfold replay in rw self refl),
        ap (λ r. r.0) same ∙ (unfold replay in rw self refl),
      )
