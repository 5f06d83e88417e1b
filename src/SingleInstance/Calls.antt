-- ===== src/SingleInstance/Calls.antt =====
-- The calls of `lock` and of what follows it in `main`, src/single-instance/main.cpp.
use mapplauncherd.Base.{
  ◌≡◌, ◌∙◌, inl, inr, Bool, true, false, List, [], ◌∷◌, ◌++◌, Option, none, some, Bytes, codes,
  arith, ℕ, Bool-cases, append_assoc,
}
use mapplauncherd.SingleInstance.{
  System, Call, makes, changes_mode, opens, locks, closes, ends_part, make_part, and_then,
  mkpath_from, mkpath, Process, take_lock, open_lock, lock, settle, becomes,
}

-- The lock file of a program; `base` is LOCK_PATH_BASE.
abbrev pub lock_file : Bytes → Bytes → Bytes
lock_file base name = base ++ name ++ codes "/instance.lock"

-- A process that has done nothing yet.
abbrev pub new_process : Process
new_process = record { lock_fd = none; calls = [] }

-- Calls that only make directories and change their modes.
abbrev pub IsQuiet : List Call → Type 0
IsQuiet [] = Unit
IsQuiet (makes path ∷ cs) = IsQuiet cs
IsQuiet (changes_mode path ∷ cs) = IsQuiet cs
IsQuiet (opens file fd ∷ cs) = ⊥
IsQuiet (locks fd ∷ cs) = ⊥
IsQuiet (closes fd ∷ cs) = ⊥

IsQuiet-append : (cs ds : List Call) → IsQuiet cs → IsQuiet ds → IsQuiet (cs ++ ds)
IsQuiet-append [] ds h h' = h'
IsQuiet-append (makes path ∷ cs) ds h h' = IsQuiet-append cs ds h h'
IsQuiet-append (changes_mode path ∷ cs) ds h h' = IsQuiet-append cs ds h h'
IsQuiet-append (opens file fd ∷ cs) ds h h' = absurd h
IsQuiet-append (locks fd ∷ cs) ds h h' = absurd h
IsQuiet-append (closes fd ∷ cs) ds h h' = absurd h

make_part-IsQuiet : (sys : System) (part : Bytes) → IsQuiet (make_part sys part).1
unfolding make_part
make_part-IsQuiet sys part = elim (Bool-cases (sys.mkdir part)) [
  | inl h ↦ rw h tt
  | inr h ↦ rw h tt
]

and_then-IsQuiet : (r s : Bool × List Call) → IsQuiet r.1 → IsQuiet s.1 → IsQuiet (and_then r s).1
unfolding and_then
and_then-IsQuiet (true, calls) (ok, more) h h' = IsQuiet-append calls more h h'
and_then-IsQuiet (false, calls) s h h' = h

mkpath_from-IsQuiet : (sys : System) (done path : Bytes) → IsQuiet (mkpath_from sys done path).1
unfolding mkpath_from
mkpath_from-IsQuiet sys done [] = tt
mkpath_from-IsQuiet sys done (b ∷ rest) =
    let part = done ++ b ∷ [] in
    let below : IsQuiet (mkpath_from sys part rest).1 = mkpath_from-IsQuiet sys part rest in
    elim (Bool-cases (ends_part b rest)) [
      | inl here ↦ rw here (
          and_then-IsQuiet (make_part sys part) (mkpath_from sys part rest)
            (make_part-IsQuiet sys part) below)
      | inr on ↦ rw on below
    ]

take_lock-true :
    (sys : System) (fd : ℕ) (p q : Process)
    → take_lock sys fd p ≡ (true, q)
    → (sys.set_lock fd ≡ true) × (q.calls ≡ p.calls ++ locks fd ∷ [])
unfolding take_lock
take_lock-true sys fd p q h = ground arith

open_lock-true :
    (sys : System) (file : Bytes) (o : Option ℕ) (p q : Process)
    → open_lock sys file o p ≡ (true, q)
    → (fd : ℕ) × (sys.set_lock fd ≡ true) × (q.calls ≡ p.calls ++ opens file fd ∷ locks fd ∷ [])
unfolding open_lock
open_lock-true sys file none p q h = absurd (cc)
open_lock-true sys file (some fd) p q h =
    let (ok, calls) = take_lock-true sys fd _ q h in (fd, ok, calls ∙ append_assoc p.calls _ _)

-- A `lock` that succeeds makes directories, opens the lock file of the program, and is granted its lock.
pub lock-calls :
    (sys : System) (base name : Bytes) (q : Process)
    → lock sys base name new_process ≡ (true, q)
    → (fd : ℕ) × (made : List Call) × IsQuiet made
      × (q.calls ≡ made ++ opens (lock_file base name) fd ∷ locks fd ∷ [])
      × (sys.set_lock fd ≡ true)
unfolding lock mkpath
lock-calls sys base name q h = elim (Bool-cases (mkpath_from sys [] (base ++ name)).0) [
  | inl ok ↦
      let (fd, granted, calls) = open_lock-true sys _ _ _ q (rw ok at h) in
      (fd, _, mkpath_from-IsQuiet sys [] (base ++ name), calls, granted)
  | inr bad ↦ absurd (cc (rw bad at h))
]

-- What becomes a program is what was to start, and has made no more calls.
pub settle-becomes :
    (sys : System) (name : Bytes) (args : List Bytes) (q q' : Process) (prog : Bytes)
    (argv : List Bytes)
    → settle sys name args (true, q) ≡ (becomes prog argv, q')
    → (name ≡ prog) × (q'.calls ≡ q.calls)
unfolding settle
settle-becomes sys name args q q' prog argv h = elim (Bool-cases (sys.execs name)) [
  | inl done ↦ ground (arith, done)
  | inr stays ↦ absurd (ground (arith, stays))
]
