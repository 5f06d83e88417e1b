-- ===== src/SingleInstance.antt =====
-- The single-instance program and plugin, src/single-instance/main.cpp.
pub mod Parts
pub mod Lock
pub mod Calls
pub mod Locks
pub mod Exclusion
pub mod Plugin
use mapplauncherd.Base.{
  ℕ, Bool, true, false, not, ◌&&◌, ◌||◌, List, [], ◌∷◌, ◌++◌, Option, none, some, Bytes, codes,
  if◌then◌else◌, ◌==◌, bytes_eq,
}

-- How D-Bus answers: whether there is a session bus, a message can be made, its argument appended, and the
-- message sent.
pub record Bus : Type 0 where
  pub gets_bus : Bool
  pub makes_message : Bool
  pub appends : Bool
  pub sends : Bool

-- What is done with it: the call `launchProcess` of a program is sent, the connection is flushed, an error
-- is reported, and the error object is freed.
pub data BusCall : Type 0 where
  launches : Bytes → BusCall
  flushes reports frees_error : BusCall

-- `activateExistingInstance`; what follows the label `err` is `fails`.
unfoldable pub activate_existing_instance : Bus → Bytes → Bool × List BusCall
activate_existing_instance bus name =
    let fails : Bool × List BusCall = (false, reports ∷ frees_error ∷ []) in
    if not bus.gets_bus
    then fails
    else if not bus.makes_message
    then fails
    else if not bus.appends
    then fails
    else if not bus.sends
    then fails
    else (true, launches name ∷ flushes ∷ [])

-- What the program asks the system: whether `mkdir`, `chmod`, `fcntl(F_SETLK)` and `execve` succeed,
-- and the descriptor that `open` gives; and D-Bus.
pub record System : Type 0 where
  pub mkdir : Bytes → Bool
  pub chmod : Bytes → Bool
  pub open_file : Bytes → Option ℕ
  pub set_lock : ℕ → Bool
  pub execs : Bytes → Bool
  pub bus : Bus

-- What it does to the system, in order.
pub data Call : Type 0 where
  makes : Bytes → Call
  changes_mode : Bytes → Call
  opens : Bytes → ℕ → Call
  locks : ℕ → Call
  closes : ℕ → Call

abbrev slash : ℕ
slash = b'/'

-- The test of the loop at one character, with those behind it: a part ends here.
unfoldable pub ends_part : ℕ → Bytes → Bool
ends_part b [] = true
ends_part b (c ∷ rest) = c == slash && not (b == slash)

-- The body of the loop at a part: whether the loop goes on, and the calls.
unfoldable pub make_part : System → Bytes → Bool × List Call
make_part sys part =
    if sys.mkdir part
    then (sys.chmod part, makes part ∷ changes_mode part ∷ [])
    else (true, makes part ∷ [])

-- The calls of the rest of the loop behind those of a part.
unfoldable pub and_then : Bool × List Call → Bool × List Call → Bool × List Call
and_then (true, calls) (ok, more) = (ok, calls ++ more)
and_then (false, calls) _ = (false, calls)

-- `mkpath` from the character on that stands behind `done`.
unfoldable pub mkpath_from : System → Bytes → Bytes → Bool × List Call
mkpath_from sys done [] = (true, [])
mkpath_from sys done (b ∷ rest) =
    let part = done ++ b ∷ [] in
    let more = mkpath_from sys part rest in
    if ends_part b rest then and_then (make_part sys part) more else more

unfoldable pub mkpath : System → Bytes → Bool × List Call
mkpath sys path = mkpath_from sys [] path

-- The process: `g_lockFd`, none for -1, and the calls so far.
pub record Process : Type 0 where
  pub lock_fd : Option ℕ
  pub calls : List Call

-- `fcntl`, on the descriptor that `open` gave.
unfoldable pub take_lock : System → ℕ → Process → Bool × Process
take_lock sys fd p =
    if sys.set_lock fd
    then (true, record p { calls = p.calls ++ locks fd ∷ [] })
    else (false, record p { calls = p.calls ++ locks fd ∷ closes fd ∷ [] })

unfoldable pub open_lock : System → Bytes → Option ℕ → Process → Bool × Process
open_lock sys file none p = (false, record p { lock_fd = none })
open_lock sys file (some fd) p =
    take_lock sys fd (record { lock_fd = some fd; calls = p.calls ++ opens file fd ∷ [] })

-- `lock`; `base` is LOCK_PATH_BASE.
unfoldable pub lock : System → Bytes → Bytes → Process → Bool × Process
lock sys base name p =
    let path = base ++ name in
    let (ok, calls) = mkpath sys path in
    let made = record p { calls = p.calls ++ calls } in
    let file = path ++ codes "/instance.lock" in
    if ok then open_lock sys file (sys.open_file file) made else (false, made)

-- `unlock`
unfoldable pub unlock : Process → Process
unlock p = elim p.lock_fd [
  | none ↦ p
  | some fd ↦ record { lock_fd = none; calls = p.calls ++ closes fd ∷ [] }
]

-- How `main` ends: with a status, or as the program with its arguments.
pub data Ending : Type 0 where
  ends : ℕ → Ending
  becomes : Bytes → List Bytes → Ending

-- Behind `lock`.
unfoldable pub settle : System → Bytes → List Bytes → Bool × Process → Ending × Process
settle sys name args (false, p) =
    (if (activate_existing_instance sys.bus name).0 then ends 0 else ends 1, p)
settle sys name args (true, p) =
    if sys.execs name then (becomes name (name ∷ args), p) else (ends 1, unlock p)

-- `main`, with the words behind its own name.
unfoldable pub main : System → Bytes → List Bytes → Process → Ending × Process
main sys base [] p = (ends 1, p)
main sys base (name ∷ args) p =
    if bytes_eq name (codes "--help") || bytes_eq name (codes "-h")
    then (ends 0, p)
    else settle sys name args (lock sys base name p)
