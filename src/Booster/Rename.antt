-- ===== src/Booster/Rename.antt =====
-- `Booster::renameProcess`: the arguments of the process are written over those it was started with, and
-- its name and the variable `_` follow.
use mapplauncherd.Base.{
  ℕ, zero, suc, ◌+◌, ◌-◌, ◌≤◌, ◌<◌, ◌≡◌, ◌≢◌, refl, ap, ◌∙◌, false, List, [], ◌∷◌, ◌++◌, Bytes,
  Option, none, some, codes, length, length-append, ltb, if◌then◌else◌, ◌==◌, arith, append_assoc,
}
use mapplauncherd.Environ.{basename, setenv}
use mapplauncherd.Connection.State.{set_last}

-- The new arguments, each ended by a zero.
unfoldable pub new_argv : List Bytes → Bytes
new_argv [] = []
new_argv (s ∷ ss) = s ++ 0 ∷ new_argv ss

-- `m_spaceAvailable` for the arguments that the process was started with.
unfoldable pub space_of : List Bytes → ℕ
space_of [] = 0
space_of (s ∷ ss) = length s + 1 + space_of ss

unfoldable pub take : ℕ → Bytes → Bytes
take zero bs = []
take (suc n) [] = []
take (suc n) (b ∷ bs) = b ∷ take n bs

-- `memset` with zero
unfoldable pub zeros : ℕ → Bytes
zeros zero = []
zeros (suc n) = 0 ∷ zeros n

-- The bytes at `parentArgv[0]` after `space` of them were overwritten with the block; the bytes that do
-- not fit are cut off, and the last one that was copied is set to zero.
unfoldable pub overwrite : ℕ → Bytes → Bytes
unfolding take zeros
overwrite space block =
    let needed = if ltb space (length block) then space else length block in
    set_last (take needed block) ++ zeros (space - needed)

-- What a process is called by: the bytes at `parentArgv[0]`; `m_spaceAvailable`, which is 0 before the
-- first call; the name that `prctl(PR_SET_NAME)` was given last; and its environment.
pub record Names : Type 0 where
  pub area : Bytes
  pub available : ℕ
  pub title : Option Bytes
  pub environ : List Bytes

-- The area of the arguments, and `m_spaceAvailable`.
unfoldable pub rename_area : ℕ → List Bytes → List Bytes → Bytes → Bytes × ℕ
unfolding overwrite new_argv space_of
rename_area available parent source area =
    let space = if available == 0 then space_of parent else available in
    if space == 0 then (area, space) else (overwrite space (new_argv source), space)

-- `renameProcess`; a failure of `prctl` is only logged.
unfoldable pub rename_process : List Bytes → List Bytes → Names → Names
unfolding rename_area
rename_process parent [] n = n
rename_process parent (name ∷ args) n =
    let (area, available) = rename_area n.available parent (name ∷ args) n.area in
    if length parent == 0 then n else record {
      area = area;
      available = available;
      title = some (basename name);
      environ = setenv (codes "_") name n.environ;
    }

length-take : (n : ℕ) (bs : Bytes) → n ≤ length bs → length (take n bs) ≡ n
unfolding take
length-take zero bs h = refl
length-take (suc n) [] h = elim h [ ]
length-take (suc n) (b ∷ bs) h = ap suc (length-take n bs (omega arith))

take-length : (bs : Bytes) → take (length bs) bs ≡ bs
unfolding take
take-length [] = refl
take-length (b ∷ bs) = ap (λ x. b ∷ x) (take-length bs)

length-zeros : (n : ℕ) → length (zeros n) ≡ n
unfolding zeros
length-zeros zero = refl
length-zeros (suc n) = ap suc (length-zeros n)

length-set_last : (bs : Bytes) → length (set_last bs) ≡ length bs
unfolding set_last
length-set_last [] = refl
length-set_last (b ∷ []) = refl
length-set_last (b ∷ b' ∷ bs) = ap suc (length-set_last (b' ∷ bs))

set_last-append : (bs : Bytes) → set_last (bs ++ 0 ∷ []) ≡ bs ++ 0 ∷ []
unfolding set_last
set_last-append [] = refl
set_last-append (b ∷ []) = refl
set_last-append (b ∷ b' ∷ bs) = ap (λ x. b ∷ x) (set_last-append (b' ∷ bs))

-- The block of at least one argument ends with a zero.
new_argv-last : (s : Bytes) (ss : List Bytes) → (bs : Bytes) × (new_argv (s ∷ ss) ≡ bs ++ 0 ∷ [])
unfolding new_argv
new_argv-last s [] = (s, refl)
new_argv-last s (t ∷ ss) =
    let (bs, e) = new_argv-last t ss in (s ++ 0 ∷ bs, rw (append_assoc) (ap (λ x. s ++ 0 ∷ x) e))

overwrite-length : (space : ℕ) (block : Bytes) → length (overwrite space block) ≡ space
unfolding overwrite
overwrite-length space block =
    let needed = if ltb space (length block) then space else length block in
    let le : needed ≤ length block = ground arith in
    let le' : needed ≤ space = ground arith in
    rw (length-append, length-set_last, length-zeros, length-take needed block le)
      (omega (arith, le'))

length-rename_area :
    (available : ℕ) (parent source : List Bytes) (area : Bytes)
    → length area ≡ (if available == 0 then space_of parent else available)
    → length (rename_area available parent source area).0 ≡ length area
unfolding rename_area
length-rename_area available parent source area h = ground (
  arith,
  overwrite-length (if available == 0 then space_of parent else available) (new_argv source),
)

-- The process is never renamed beyond the space of its old arguments: if the area has the size of
-- that space, computed now or by an earlier call, as many bytes are there after as there were,
-- whatever the new arguments are.
pub length-rename_process :
    (parent source : List Bytes) (n : Names)
    → length n.area ≡ (if n.available == 0 then space_of parent else n.available)
    → length (rename_process parent source n).area ≡ length n.area
unfolding rename_process
length-rename_process parent [] n h = refl
length-rename_process parent (name ∷ args) n h =
    ground (arith, length-rename_area n.available parent (name ∷ args) n.area h)

-- A process with a name that is given arguments is called by the first of them, which `_` holds.
pub rename_process-environ :
    (parent args : List Bytes) (name : Bytes) (n : Names)
    → length parent ≢ 0
    → ((rename_process parent (name ∷ args) n).environ ≡ setenv (codes "_") name n.environ)
      × ((rename_process parent (name ∷ args) n).title ≡ some (basename name))
unfolding rename_process
rename_process-environ parent args name n h = ground arith

overwrite-fits :
    (space : ℕ) (bs : Bytes)
    → length (bs ++ 0 ∷ []) ≤ space
    → overwrite space (bs ++ 0 ∷ []) ≡ (bs ++ 0 ∷ []) ++ zeros (space - length (bs ++ 0 ∷ []))
unfolding overwrite
overwrite-fits space bs h =
    let block = bs ++ 0 ∷ [] in
    let e : ltb space (length block) ≡ false = ground arith in
    rw (e, take-length block, set_last-append bs) refl

space_of_zero : (parent : List Bytes) → length parent ≡ 0 → space_of parent ≡ 0
unfolding space_of
space_of_zero [] h = refl
space_of_zero (p ∷ ps) h = absurd (omega arith)

rename_process_lem :
    (parent : List Bytes) (s : Bytes) (ss : List Bytes) (n : Names)
    → n.available ≡ 0
    → length parent ≢ 0
    → space_of parent ≢ 0
    → (rename_process parent (s ∷ ss) n).area ≡ overwrite (space_of parent) (new_argv (s ∷ ss))
unfolding rename_process rename_area
rename_process_lem parent s ss n new h h' = ground arith

-- Arguments that fit stand there whole, each with its zero, and zeros follow to the end of the space.
pub rename_process-fits :
    (parent : List Bytes) (s : Bytes) (ss : List Bytes) (n : Names)
    → n.available ≡ 0
    → length (new_argv (s ∷ ss)) ≤ space_of parent
    → (rename_process parent (s ∷ ss) n).area
      ≡ new_argv (s ∷ ss) ++ zeros (space_of parent - length (new_argv (s ∷ ss)))
rename_process-fits parent s ss n new h =
    let (bs, e) = new_argv-last s ss in
    let some_space : 0 < space_of parent = omega (arith, ap length e, length-append bs (0 ∷ [])) in
    rename_process_lem parent s ss n new (λ z. omega (arith, space_of_zero parent z))
      (λ z. omega arith)
    ∙ rw e (overwrite-fits (space_of parent) bs (rw e at h))

-- The arguments that the process is renamed to; an `m_argv` that is null counts as none, where the code
-- would read `m_argc` of them.
abbrev pub words : Option (List Bytes) → List Bytes
words none = []
words (some argv) = argv
