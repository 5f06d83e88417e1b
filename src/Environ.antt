-- ===== src/Environ.antt =====
-- The environment of a process as a list of strings `name=value`, with `putenv` and `setenv` of the C
-- library, which connection.cpp, booster.cpp and invoker.c call, and `basename` of its string header.
use mapplauncherd.Base.{List, [], ◌∷◌, ◌++◌, Bytes, if◌then◌else◌, ◌==◌, bytes_eq}

-- The name of a variable: what stands before the '='.
unfoldable pub name_of : Bytes → Bytes
name_of [] = []
name_of (b ∷ bs) = if b == b'=' then [] else b ∷ name_of bs

-- `putenv`: a variable of the same name is replaced where it stands.
unfoldable pub putenv : Bytes → List Bytes → List Bytes
unfolding name_of bytes_eq
putenv s [] = s ∷ []
putenv s (t ∷ env) = if bytes_eq (name_of s) (name_of t) then s ∷ env else t ∷ putenv s env

-- `setenv(name, value, true)`
unfoldable pub setenv : Bytes → Bytes → List Bytes → List Bytes
unfolding putenv
setenv name value env = putenv (name ++ b'=' ∷ value) env

-- What stands behind the last '/' of a text; `got` is what was read since the last one.
unfoldable pub base_from : Bytes → Bytes → Bytes
base_from got [] = got
base_from got (b ∷ bs) = base_from (if b == b'/' then [] else got ++ b ∷ []) bs

-- `basename`, of which booster.cpp has the GNU version.
unfoldable pub basename : Bytes → Bytes
unfolding base_from
basename text = base_from [] text
