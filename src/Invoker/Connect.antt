-- ===== src/Invoker/Connect.antt =====
-- The path that `invoker_init` of src/invoker/invoker.c connects to.
use mapplauncherd.Base.{
  ℕ, ◌-◌, ◌≤◌, ◌≡◌, refl, ◌||◌, [], ◌∷◌, ◌++◌, Option, none, some, Bytes, codes, length,
  length-append, ltb, if◌then◌else◌, arith, ap, ◌∙◌, zero, suc,
}
use mapplauncherd.SocketManager.{max_len, strncpy, socket_root_path}
use mapplauncherd.Invoker.Search.{slash, has_char}

abbrev pub subpath : Bytes
subpath = codes "/mapplauncherd/"

-- The directory, cut so that `subpath` fits behind it.
unfoldable pub runtime_path : Option Bytes → Bytes
runtime_path none = strncpy (max_len - length subpath) (codes "/tmp")
runtime_path (some []) = strncpy (max_len - length subpath) (codes "/tmp")
runtime_path (some (b ∷ dir)) = strncpy (max_len - length subpath) (b ∷ dir)

-- none is a call of `die(1, ...)`.
unfoldable pub connect_path : Option Bytes → Bytes → Option Bytes
unfolding runtime_path
connect_path runtime_dir app_type =
    let path = runtime_path runtime_dir ++ subpath in
    if ltb (max_len - length path) (length app_type) || has_char slash app_type
    then none
    else some (path ++ app_type)

strncpy-fits : (n : ℕ) (s : Bytes) → length s ≤ n → strncpy n s ≡ s
unfolding strncpy
strncpy-fits zero [] h = refl
strncpy-fits zero (b ∷ s) h = elim h [ ]
strncpy-fits (suc n) [] h = refl
strncpy-fits (suc n) (b ∷ s) h = ap (λ x. b ∷ x) (strncpy-fits n s (omega arith))

connect_path_lem :
    (runtime_dir : Option Bytes) (base app_type found : Bytes)
    → runtime_path runtime_dir ≡ base
    → length (base ++ subpath) ≤ max_len
    → connect_path runtime_dir app_type ≡ some found
    → ((base ++ subpath) ++ app_type ≡ found) × (length ((base ++ subpath) ++ app_type) ≤ max_len)
unfolding connect_path
connect_path_lem runtime_dir base app_type found e h c =
    let path = base ++ subpath in
    let fits : length app_type ≤ max_len - length path = ground arith in
    (ground arith, omega (arith, length-append path app_type))

-- The invoker connects to the very path that the daemon binds the booster's socket to, for every type
-- that it accepts, if XDG_RUNTIME_DIR is set to a text of 1 to 92 characters.
pub connect_path-socket_root_path :
    (b : ℕ) (dir app_type found : Bytes)
    → length (b ∷ dir) ≤ 92
    → connect_path (some (b ∷ dir)) app_type ≡ some found
    → strncpy max_len (socket_root_path (some (b ∷ dir)) ++ app_type) ≡ found
unfolding socket_root_path runtime_path
connect_path-socket_root_path b dir app_type found h e =
    let (same, fits) =
      connect_path_lem (some (b ∷ dir)) (b ∷ dir) app_type found (strncpy-fits 92 (b ∷ dir) h)
        (omega (arith, length-append (b ∷ dir) subpath)) e in
    strncpy-fits max_len (((b ∷ dir) ++ subpath) ++ app_type) fits ∙ same
