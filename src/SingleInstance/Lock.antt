-- ===== src/SingleInstance/Lock.antt =====
-- The descriptor of the lock file.
use mathlib.Core.Path.{subst}
use mapplauncherd.Base.{
  ℕ, ◌≡◌, refl, ap, ◌∙◌, Bool, true, false, List, [], ◌∷◌, ◌++◌, Option, none, some, Bytes, codes,
  if◌then◌else◌, ◌==◌, ◌||◌, bytes_eq, arith, Bool-cases, inl, inr, append_assoc,
}
use mapplauncherd.SingleInstance.{
  System, activate_existing_instance, Call, makes, changes_mode, opens, locks, closes, ends_part,
  make_part, and_then, mkpath_from, mkpath, Process, take_lock, open_lock, lock, unlock, Ending,
  ends, becomes, settle, main,
}

abbrev without : ℕ → List ℕ → List ℕ
without fd [] = []
without fd (x ∷ xs) = if fd == x then xs else x ∷ without fd xs

-- The descriptors that are open behind the calls, the last that was opened first.
abbrev pub open_after : List Call → List ℕ → List ℕ
open_after [] fds = fds
open_after (opens file fd ∷ calls) fds = open_after calls (fd ∷ fds)
open_after (closes fd ∷ calls) fds = open_after calls (without fd fds)
open_after (_ ∷ calls) fds = open_after calls fds

open_after-append :
    (xs ys : List Call) (fds : List ℕ)
    → open_after (xs ++ ys) fds ≡ open_after ys (open_after xs fds)
open_after-append [] ys fds = refl
open_after-append (opens file fd ∷ xs) ys fds = open_after-append xs ys (fd ∷ fds)
open_after-append (closes fd ∷ xs) ys fds = open_after-append xs ys (without fd fds)
open_after-append (makes p ∷ xs) ys fds = open_after-append xs ys fds
open_after-append (changes_mode p ∷ xs) ys fds = open_after-append xs ys fds
open_after-append (locks fd ∷ xs) ys fds = open_after-append xs ys fds

abbrev Keeps : Bool × List Call → Type 0
Keeps r = (fds : List ℕ) → open_after r.1 fds ≡ fds

make_part-Keeps : (sys : System) (part : Bytes) → Keeps (make_part sys part)
unfolding make_part
make_part-Keeps sys part fds = elim (Bool-cases (sys.mkdir part)) [ inl h ↦ rw h | inr h ↦ rw h ]

and_then-Keeps : (r s : Bool × List Call) → Keeps r → Keeps s → Keeps (and_then r s)
unfolding and_then
and_then-Keeps (true, calls) (ok, more) h h' fds =
    open_after-append calls more fds ∙ rw (h fds) (h' fds)
and_then-Keeps (false, calls) s h h' fds = h fds

mkpath_from-Keeps : (sys : System) (done path : Bytes) → Keeps (mkpath_from sys done path)
unfolding mkpath_from
mkpath_from-Keeps sys done [] fds = refl
mkpath_from-Keeps sys done (b ∷ rest) fds =
    let part = done ++ b ∷ [] in
    let below : Keeps (mkpath_from sys part rest) = mkpath_from-Keeps sys part rest in
    elim (Bool-cases (ends_part b rest)) [
      | inl here ↦ rw here (
          and_then-Keeps (make_part sys part) (mkpath_from sys part rest) (make_part-Keeps sys part)
            below fds)
      | inr on ↦ rw on (below fds)
    ]

without_first : (fd : ℕ) (fds : List ℕ) → without fd (fd ∷ fds) ≡ fds
without_first fd fds = ground arith

-- The lock is held through the one descriptor that was opened, or all that was opened is closed.
abbrev Locked : System → Process → Bool × Process → Type 0
Locked sys p (true, q) =
    (fd : ℕ) × (q.lock_fd ≡ some fd)
    × (sys.set_lock fd ≡ true)
    × (open_after q.calls [] ≡ fd ∷ open_after p.calls [])
Locked sys p (false, q) = open_after q.calls [] ≡ open_after p.calls []

module _ (sys : System) where
  take_lock-Locked :
      (file : Bytes) (fd : ℕ) (p : Process)
      → Locked sys p
          (take_lock sys fd (record { lock_fd = some fd; calls = p.calls ++ opens file fd ∷ [] }))
  unfolding take_lock
  take_lock-Locked file fd p =
      let opened : open_after (p.calls ++ opens file fd ∷ []) [] ≡ fd ∷ open_after p.calls [] =
        open_after-append p.calls (opens file fd ∷ []) [] in
      elim (Bool-cases (sys.set_lock fd)) [
        | inl held ↦ rw held (
          fd,
          refl,
          held,
          open_after-append (p.calls ++ opens file fd ∷ []) (locks fd ∷ []) [] ∙ opened,
        )
        | inr lost ↦ rw lost (
            open_after-append (p.calls ++ opens file fd ∷ []) (locks fd ∷ closes fd ∷ []) []
            ∙ ap (without fd) opened
            ∙ without_first fd (open_after p.calls []))
      ]

  open_lock-Locked :
      (file : Bytes) (fd : Option ℕ) (p : Process) → Locked sys p (open_lock sys file fd p)
  unfolding open_lock
  open_lock-Locked file none p = refl
  open_lock-Locked file (some fd) p = take_lock-Locked file fd p

  Locked-made :
      (calls : List Call) (p : Process) (r : Bool × Process)
      → ((fds : List ℕ) → open_after calls fds ≡ fds)
      → Locked sys (record p { calls = p.calls ++ calls }) r
      → Locked sys p r
  Locked-made calls p (true, q) keeps (fd, at_fd, held, h) =
      (fd, at_fd, held, h ∙ ap (λ l. fd ∷ l) (open_after-append p.calls calls [] ∙ keeps _))
  Locked-made calls p (false, q) keeps h = h ∙ open_after-append p.calls calls [] ∙ keeps _

  lock-Locked : (base name : Bytes) (p : Process) → Locked sys p (lock sys base name p)
  unfolding lock mkpath
  lock-Locked base name p =
      let made = mkpath_from sys [] (base ++ name) in
      let keeps : Keeps made = mkpath_from-Keeps sys [] (base ++ name) in
      Locked-made made.1 p _ keeps (elim (Bool-cases made.0) [
        | inl ok ↦ rw ok (open_lock-Locked _ _ _)
        | inr bad ↦ rw bad refl
      ])

  -- A process that becomes the program holds the lock through one more descriptor than before, and one
  -- that ends has no more.
  abbrev pub Balanced : Process → Ending × Process → Type 0
  Balanced p (ends n, q) = open_after q.calls [] ≡ open_after p.calls []
  Balanced p (becomes prog argv, q) = Locked sys p (true, q)

  settle-Balanced :
      (name : Bytes) (args : List Bytes) (p : Process) (r : Bool × Process)
      → Locked sys p r
      → Balanced p (settle sys name args r)
  unfolding settle unlock
  settle-Balanced name args p (false, q) h =
      elim (Bool-cases (activate_existing_instance sys.bus name).0) [
        | inl a ↦ rw a h
        | inr a ↦ rw a h
      ]
  settle-Balanced name args p (true, q) (fd, at_fd, held, h) = elim (Bool-cases (sys.execs name)) [
    | inl done ↦ rw done (fd, at_fd, held, h)
    | inr stays ↦
        rw (stays, at_fd)
          (open_after-append q.calls (closes fd ∷ []) []
            ∙ ap (without fd) h
            ∙ without_first fd (open_after p.calls []))
  ]

  -- Where the run of the single-instance program becomes the program that it is to start, that program
  -- runs with the lock held, through the one descriptor that the run has opened and not closed; and
  -- where the run ends with a status, every descriptor that it opened is closed.
  pub main-Balanced :
      (base : Bytes) (words : List Bytes) (p : Process) → Balanced p (main sys base words p)
  unfolding main
  main-Balanced base [] p = refl
  main-Balanced base (name ∷ args) p =
      elim (Bool-cases (bytes_eq name (codes "--help") || bytes_eq name (codes "-h"))) [
        | inl help ↦ rw help refl
        | inr run ↦
            rw run (settle-Balanced name args p (lock sys base name p) (lock-Locked base name p))
      ]

-- A `lock` that succeeds was granted the lock.
pub lock-granted :
    (sys : System) (base name : Bytes) (p q : Process)
    → lock sys base name p ≡ (true, q)
    → (fd : ℕ) × (sys.set_lock fd ≡ true)
lock-granted sys base name p q h =
    let (fd, _, held, _) = subst (Locked sys p) h (lock-Locked sys base name p) in (fd, held)

-- An exported `lock` that does not get the lock has closed the lock file, and an `unlock` behind it
-- closes the same descriptor once more.
unlock-take_lock :
    (sys : System) (file : Bytes) (fd : ℕ) (p : Process)
    → sys.set_lock fd ≡ false
    → unlock (open_lock sys file (some fd) p).1 ≡ record {
      lock_fd = none;
      calls = p.calls ++ opens file fd ∷ locks fd ∷ closes fd ∷ closes fd ∷ [];
    }
unfolding open_lock take_lock unlock
unlock-take_lock sys file fd p lost = rw lost (simp append_assoc)
