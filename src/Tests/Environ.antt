-- ===== src/Tests/Environ.antt =====
-- The environment and the names of a process, on concrete texts.
use mapplauncherd.Base.{◌≡◌, refl, [], ◌∷◌, ◌++◌, none, some, codes}
use mapplauncherd.Environ.{putenv, setenv, basename}
use mapplauncherd.Connection.State.{set_last}
use mapplauncherd.Connection.Delivery.{assigned, assignments}
use mapplauncherd.Connection.Receive.{putenv_sanitize}
use mapplauncherd.Booster.Rename.{Names, rename_process}

-- A variable is replaced where it stands, and another one is put behind.
replaces : putenv (codes "A=2") (codes "A=1" ∷ codes "B=1" ∷ []) ≡ codes "A=2" ∷ codes "B=1" ∷ []
unfolding putenv
replaces = refl

last_counts :
    assignments (codes "A=1" ∷ codes "B" ∷ codes "C=" ∷ codes "A=2" ∷ [])
    ≡ codes "A=2" ∷ codes "C=" ∷ []
unfolding assigned putenv putenv_sanitize
last_counts = refl

last_part : basename (codes "/usr/bin/app") ≡ codes "app"
unfolding basename
last_part = refl

-- A process with an area of eight bytes.
abbrev old : Names
old = record {
  area = codes "abcdefgh";
  available = 0;
  title = none;
  environ = codes "_=/bin/sh" ∷ [];
}

renamed : rename_process (codes "booster" ∷ []) (codes "/bin/x" ∷ []) old ≡ record {
  area = codes "/bin/x" ++ 0 ∷ 0 ∷ [];
  available = 8;
  title = some (codes "x");
  environ = codes "_=/bin/x" ∷ [];
}
unfolding rename_process setenv basename set_last
renamed = refl
