-- ===== src/Tests/Logs.antt =====
-- The log of the daemon and the signals of the invoker, at concrete calls.
use mapplauncherd.Base.{◌≡◌, true, false, [], ◌∷◌, none, some, codes, pos}
use mapplauncherd.Logger.{Logger, open_call, info, error, set_debug_mode, calls}
use mapplauncherd.Logger.Order.{follows, calls_follow}
use mapplauncherd.Invoker.Signals.{Signals, by_default}

abbrev logger : Logger
logger = record { is_opened = false; debug_mode = false }

calls_follow_example :
    follows false
      (calls
        (open_call none ∷ info (codes "boot") ∷ set_debug_mode true ∷ error (codes "no") ∷ [])
        logger).1
    ≡ some
        (calls
          (open_call none ∷ info (codes "boot") ∷ set_debug_mode true ∷ error (codes "no") ∷ [])
          logger).0.is_opened
calls_follow_example =
    calls_follow
      (open_call none ∷ info (codes "boot") ∷ set_debug_mode true ∷ error (codes "no") ∷ []) logger

abbrev signals : Signals
signals = record { invoked_pid = pos 42; table = λ s. by_default; acts = [] }
