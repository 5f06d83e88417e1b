-- ===== src/Daemon/Loop/Options.antt =====
-- `Daemon::parseArgs`.
use mapplauncherd.Base.{
  ℕ, zero, suc, Bool, true, false, ◌||◌, List, [], ◌∷◌, Bytes, codes, bytes_eq, if◌then◌else◌, ◌==◌,
  ◌≡◌, refl, arith,
}
use mapplauncherd.Daemon.State.{Daemon, Outcome, returns, exits}

abbrev arg_is : Bytes → Bytes → Bool
arg_is a name = bytes_eq a name

-- `find_first_not_of(' ') == npos`
unfoldable pub only_spaces : Bytes → Bool
only_spaces [] = true
only_spaces (b ∷ bs) = if b == b' ' then only_spaces bs else false

-- The arguments after the program's name. `usage` exits.
unfoldable pub parse_args : List Bytes → Daemon → Outcome
parse_args [] d = returns d
parse_args (a ∷ as') d =
    let boot = parse_args as' (record d { boot_mode = true }) in
    let daemon = parse_args as' (record d { daemon = true }) in
    let debug = parse_args as' (record d { debug_mode = true }) in
    let re_exec = parse_args as' (record d { re_exec = true }) in
    let systemd = parse_args as' (record d { notify_systemd = true }) in
    let skip = parse_args as' d in
    if arg_is a (codes "--boot-mode") || arg_is a (codes "-b")
    then boot
    else if arg_is a (codes "--daemon") || arg_is a (codes "-d")
    then daemon
    else if arg_is a (codes "--debug")
    then debug
    else if arg_is a (codes "--help") || arg_is a (codes "-h")
    then exits 0 d
    else if arg_is a (codes "--re-exec")
    then re_exec
    else if arg_is a (codes "--systemd")
    then systemd
    else if only_spaces a
    then skip
    else exits 1 d

abbrev pub spaces : ℕ → Bytes
spaces zero = []
spaces (suc n) = b' ' ∷ spaces n

only_spaces-spaces : (n : ℕ) → only_spaces (spaces n) ≡ true
unfolding only_spaces
only_spaces-spaces zero = refl
only_spaces-spaces (suc n) = only_spaces-spaces n

-- The arguments by which `reExec` starts the new image, `--re-exec` and a text of spaces that leaves
-- room for a process name, set the re-exec flag and nothing else, however long that text is.
pub parse_args-re_exec :
    (n : ℕ) (d : Daemon)
    → parse_args (codes "--re-exec" ∷ spaces n ∷ []) d ≡ returns (record d { re_exec = true })
unfolding parse_args only_spaces bytes_eq
parse_args-re_exec zero d = refl
parse_args-re_exec (suc n) d = ground (arith, only_spaces-spaces n)
