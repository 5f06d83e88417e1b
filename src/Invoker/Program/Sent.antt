-- ===== src/Invoker/Program/Sent.antt =====
-- What a run of the invoker sends, and the status with which it ends.
use mapplauncherd.Base.{◌≡◌, ◌⊎◌, Bool, true, List, [], ◌∷◌, some, Bytes, codes, arith}
use mapplauncherd.Wire.{Kernel}
use mapplauncherd.Invoker.Send.{invoke_remote}
use mapplauncherd.Invoker.Wait.{Event}
use mapplauncherd.Invoker.Options.{Opt, Settings, defaults, parsed, parse_options, translate_type}
use mapplauncherd.Invoker.Options.Flags.{Agrees}
use mapplauncherd.Invoker.Search.{search_program}
use mapplauncherd.Invoker.Program.{
  contains, Machine, invocation, Run, invoke, launch, with_settings, main,
}

-- The run has sent nothing, or one whole invocation of `prog`.
abbrev pub Sends : Machine → Settings → Bytes → Bytes → List Bytes → Run → Type 0
Sends w s prog argv0 args r =
    (r.sent ≡ []) ⊎ (r.sent ≡ invoke_remote (invocation w s prog argv0 args))

module _ (k : Kernel) (w : Machine) (sock : k.Sock) (events : List Event) (runs : Bool) where
  pub launch_lem :
      (s : Settings) (prog argv0 : Bytes) (args : List Bytes) (t : Bytes)
      → w.pipe ≡ true
      → launch k w sock events runs s prog argv0 args (some t)
        ≡ invoke k w sock events runs s prog argv0 args (translate_type t)
  unfolding launch
  launch_lem s prog argv0 args t up = ground arith

  -- What was found out about the program before anything was sent.
  abbrev pub Checked : Settings → List Bytes → Run → Type 0
  Checked s words r =
      (argv0 : Bytes) × (args : List Bytes) × (prog : Bytes) × (words ≡ argv0 ∷ args)
      × (search_program w.search argv0 ≡ some prog)
      × (w.is_file prog ≡ some true)
      × (r.sent ≡ invoke_remote (invocation w s prog argv0 args))

  pub main_lem :
      (name : Bytes) (opts : List Opt) (words : List Bytes) (s : Settings)
      → contains name (codes "invoker") ≡ true
      → parse_options w.numbers opts defaults ≡ parsed s
      → main k w sock events runs name opts words ≡ with_settings k w sock events runs s words
  unfolding main
  main_lem name opts words s right e = rw (right, e)

  -- The run has sent nothing, or what the options and the program found for them ask for.
  abbrev pub Justified : List Opt → List Bytes → Run → Type 0
  Justified opts words r =
      (r.sent ≡ [])
      ⊎ ((s : Settings) × (parse_options w.numbers opts defaults ≡ parsed s)
          × Agrees s
          × Checked s words r)
