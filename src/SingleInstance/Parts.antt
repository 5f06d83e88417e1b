-- ===== src/SingleInstance/Parts.antt =====
-- The directories that `mkpath` makes.
use mapplauncherd.Base.{ℕ, zero, suc, ◌≡◌, Bool, true, false, List, [], ◌∷◌, ◌++◌, Bytes, ◌==◌, All}
use mapplauncherd.SingleInstance.{System, Call, slash, make_part, and_then}

-- A component of a path, behind `gap` slashes and one more.
pub record Part : Type 0 where
  pub gap : ℕ
  pub first : ℕ
  pub more : Bytes

abbrev slashes : ℕ → Bytes
slashes zero = []
slashes (suc n) = slash ∷ slashes n

abbrev name : Part → Bytes
name c = c.first ∷ c.more

-- Its name has no slash.
abbrev pub IsPart : Part → Type 0
IsPart c = All (λ b. (b == slash) ≡ false) (name c)

abbrev text : Part → Bytes
text c = slash ∷ (slashes c.gap ++ name c)

abbrev pub joined : List Part → Bytes
joined [] = []
joined (c ∷ cs) = text c ++ joined cs

-- The path up to each component, in order.
abbrev pub prefixes : Bytes → List Part → List Bytes
prefixes done [] = []
prefixes done (c ∷ cs) = (done ++ text c) ∷ prefixes (done ++ text c) cs

-- Makes each of the directories, until a mode cannot be changed.
abbrev pub make_all : System → List Bytes → Bool × List Call
make_all sys [] = (true, [])
make_all sys (part ∷ parts) = and_then (make_part sys part) (make_all sys parts)
