-- ===== src/Booster/Initialize.antt =====
-- `Booster::initialize` around the loop over invokers: the priority and the names of the process.
use mapplauncherd.Base.{
  ◌≡◌, ◌∙◌, List, [], ◌∷◌, ◌++◌, Bytes, codes, if◌then◌else◌, ◌==◌, length, arith, pos,
}
use mapplauncherd.Wire.{Kernel}
use mapplauncherd.Booster.Launch.{Waited, launches, throws, waiting, out_of_fuel}
use mapplauncherd.Booster.Rename.{
  Names, space_of, words, rename_area, rename_process, length-rename_process,
}
use mapplauncherd.Booster.Process.{Scheduler, Priority, push_priority, pop_priority}

-- "booster [type]"
unfoldable pub temporary_name : Bytes → Bytes
temporary_name booster_type = codes "booster [" ++ (booster_type ++ codes "]")

-- Up to the loop: the new priority, and what the process is called by.
unfoldable pub prepare : Scheduler → Bytes → List Bytes → Priority → Names → Priority × Names
prepare s booster_type parent p names = (
  (pop_priority s (push_priority s (pos 10) p).1).1,
  rename_process parent (temporary_name booster_type ∷ []) names,
)

-- Behind the loop: the process takes the name and the arguments of the application, in the environment
-- that the loop has left.
unfoldable pub take_name : {k : Kernel} → List Bytes → Waited k → Names → Names
take_name parent (launches plugin a c) named =
    rename_process parent (words a.argv) (record named { environ = c.env })
take_name parent _ named = named

-- What is known of the space: it was not computed yet, or it is that of the arguments.
abbrev pub Known : List Bytes → Bytes → Names → Type 0
Known parent area named =
    (length named.area ≡ length area)
    × (length area ≡ (if named.available == 0 then space_of parent else named.available))

pub first-Known :
    (parent : List Bytes) (name : Bytes) (n : Names)
    → n.available ≡ 0
    → length n.area ≡ space_of parent
    → Known parent n.area (rename_process parent (name ∷ []) n)
unfolding rename_process rename_area
first-Known parent name n new h =
    (length-rename_process parent (name ∷ []) n (ground arith), ground arith)

pub take_name-Known :
    {k : Kernel} (parent : List Bytes) (w : Waited k) (area : Bytes) (named : Names)
    → Known parent area named
    → length (take_name parent w named).area ≡ length area
unfolding take_name
take_name-Known parent (launches plugin a c) area named (e, h) =
    length-rename_process parent (words a.argv) (record named { environ = c.env }) (e ∙ h) ∙ e
take_name-Known parent throws area named (e, h) = e
take_name-Known parent waiting area named (e, h) = e
take_name-Known parent out_of_fuel area named (e, h) = e

-- Through the whole of `initialize`, the two names that the process takes leave as many bytes in the area
-- of its original arguments as there were, whatever the type of the booster and the arguments of the
-- application are, and however the wait ends: nothing behind the area is written.
pub length-take_name :
    {k : Kernel} (s : Scheduler) (booster_type : Bytes) (parent : List Bytes) (p : Priority)
    (names : Names) (w : Waited k)
    → names.available ≡ 0
    → length names.area ≡ space_of parent
    → length (take_name parent w (prepare s booster_type parent p names).1).area ≡ length names.area
unfolding prepare
length-take_name s booster_type parent p names w new h =
    take_name-Known parent w names.area _
      (first-Known parent (temporary_name booster_type) names new h)
