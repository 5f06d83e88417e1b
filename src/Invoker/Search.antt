-- ===== src/Invoker/Search.antt =====
-- `search_program` of src/invoker/search.c: the file that the invoker launches for a program's name.
use mapplauncherd.Base.{
  ℕ, Bool, true, false, ◌||◌, List, [], ◌∷◌, ◌++◌, Option, none, some, Bytes, if◌then◌else◌, ◌==◌,
  ◌≡◌, refl, ap, All, arith, inl, inr, Bool-cases, Option-cases,
}

-- The system as the search meets it: `access(path, X_OK) == 0`, the variable PATH, and
-- `get_current_dir_name()`.
pub record System : Type 0 where
  pub is_executable : Bytes → Bool
  pub path : Option Bytes
  pub cwd : Bytes

abbrev pub slash : ℕ
slash = b'/'

-- `p[strlen(p) - 1] == '/'`. No caller passes an empty text, for which the source reads before it.
unfoldable pub ends_with_slash : Bytes → Bool
ends_with_slash [] = false
ends_with_slash (b ∷ []) = b == slash
ends_with_slash (b ∷ b' ∷ bs) = ends_with_slash (b' ∷ bs)

unfoldable pub merge_paths : Bytes → Bytes → Bytes
merge_paths base rel = base ++ ((if ends_with_slash base then [] else slash ∷ []) ++ rel)

-- `strchr(s, c) != NULL`
unfoldable pub has_char : ℕ → Bytes → Bool
has_char c [] = false
has_char c (b ∷ bs) = b == c || has_char c bs

-- The first character is a slash.
unfoldable pub is_absolute : Bytes → Bool
is_absolute [] = false
is_absolute (b ∷ bs) = b == slash

abbrev push_token : Bytes → List Bytes → List Bytes
push_token [] ts = ts
push_token (b ∷ bs) ts = (b ∷ bs) ∷ ts

-- The tokens that `strtok_r` finds between colons, none of them empty; `got` is read already.
unfoldable pub tokens : Bytes → Bytes → List Bytes
tokens got [] = push_token got []
tokens got (b ∷ bs) =
    let rest = tokens [] bs in
    let more = tokens (got ++ b ∷ []) bs in if b == b':' then push_token got rest else more

-- The loop over the directories: the first of them that has the program.
unfoldable pub search_dirs : System → Bytes → List Bytes → Option Bytes
search_dirs w prog [] = none
search_dirs w prog (dir ∷ dirs) =
    let rest = search_dirs w prog dirs in
    if w.is_executable (merge_paths dir prog) then some (merge_paths dir prog) else rest

abbrev make_absolute : System → Option Bytes → Option Bytes
make_absolute w none = none
make_absolute w (some launch) =
    if is_absolute launch then some launch else some (merge_paths w.cwd launch)

-- The search over PATH; none is a call of `die(1, ...)`.
unfoldable pub search_path : System → Bytes → Option Bytes → Option Bytes
search_path w prog none = none
search_path w prog (some path) = make_absolute w (search_dirs w prog (tokens [] path))

unfoldable pub search_program : System → Bytes → Option Bytes
unfolding search_path
search_program w prog =
    if is_absolute prog
    then some prog
    else if has_char slash prog
    then some (merge_paths w.cwd prog)
    else search_path w prog w.path

merge_paths-is_absolute :
    (base rel : Bytes) → is_absolute base ≡ true → is_absolute (merge_paths base rel) ≡ true
unfolding merge_paths is_absolute
merge_paths-is_absolute [] rel h = absurd (cc)
merge_paths-is_absolute (b ∷ bs) rel h = h

-- What is launched has an absolute path, whether the name is absolute, relative, or is looked up in
-- PATH, also where PATH has relative directories, if the current directory's path is absolute.
search_program-is_absolute :
    (w : System) (prog found : Bytes)
    → is_absolute w.cwd ≡ true
    → search_program w prog ≡ some found
    → is_absolute found ≡ true
unfolding search_program
search_program-is_absolute w prog found h e = elim (Option-cases w.path) [
  | inl missing ↦ ground (arith, merge_paths-is_absolute w.cwd prog)
  | inr (path, hit_at) ↦ elim (Option-cases (search_dirs w prog (tokens [] path))) [
    | inl none_found ↦ ground (arith, merge_paths-is_absolute w.cwd prog)
    | inr (launch, hit) ↦
        ground (arith, merge_paths-is_absolute w.cwd prog, merge_paths-is_absolute w.cwd launch)
  ]
]

-- The directories are tried in order: if a file is found, it is the program in one of them, it is
-- executable, and no directory before that one has an executable program of this name.
pub search_dirs_first :
    (w : System) (prog found : Bytes) (dirs : List Bytes)
    → search_dirs w prog dirs ≡ some found
    → (before : List Bytes) × (dir : Bytes) × (after : List Bytes) × (dirs ≡ before ++ dir ∷ after)
      × (found ≡ merge_paths dir prog)
      × (w.is_executable found ≡ true)
      × All (λ d. w.is_executable (merge_paths d prog) ≡ false) before
unfolding search_dirs
search_dirs_first w prog found [] h = absurd (cc)
search_dirs_first w prog found (dir ∷ dirs) h =
    elim (Bool-cases (w.is_executable (merge_paths dir prog))) [
      | inl hit_at ↦ ([], dir, dirs, refl, ground arith, ground arith, tt)
      | inr missing ↦
          let (before, d, after, e, f, x, all) =
            search_dirs_first w prog found dirs (ground arith) in
          (dir ∷ before, d, after, ap (λ l. dir ∷ l) e, f, x, (missing, all))
    ]
