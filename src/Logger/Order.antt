-- ===== src/Logger/Order.antt =====
-- The order in which the log is opened, written and closed.
use mapplauncherd.Base.{
  ◌≡◌, refl, ap, ◌∙◌, Bool, true, false, List, [], ◌∷◌, ◌++◌, Option, none, some, Bytes,
}
use mapplauncherd.Logger.{
  Priority, Write, opens, closes, logs, prints, Logger, open_log, close_log, make_open, write_log,
  log_info_then_close, Call, open_call, close_call, debug, info, warning, error, set_debug_mode,
  call, calls,
}

-- Whether the log is open behind the writes, where it is before; none if it is opened twice, or closed or
-- written while it is not open.
abbrev pub follows : Bool → List Write → Option Bool
follows is_open [] = some is_open
follows true (opens name ∷ ws) = none
follows false (opens name ∷ ws) = follows true ws
follows true (closes ∷ ws) = follows false ws
follows false (closes ∷ ws) = none
follows true (logs p text ∷ ws) = follows true ws
follows false (logs p text ∷ ws) = none
follows is_open (prints text ∷ ws) = follows is_open ws

follows-append :
    (o m : Bool) (ws vs : List Write) → follows o ws ≡ some m → follows o (ws ++ vs) ≡ follows m vs
follows-append o m [] vs h = ap (λ x. follows x vs) (cc)
follows-append true m (opens name ∷ ws) vs h = absurd (cc)
follows-append false m (opens name ∷ ws) vs h = follows-append true m ws vs h
follows-append true m (closes ∷ ws) vs h = follows-append false m ws vs h
follows-append false m (closes ∷ ws) vs h = absurd (cc)
follows-append true m (logs p text ∷ ws) vs h = follows-append true m ws vs h
follows-append false m (logs p text ∷ ws) vs h = absurd (cc)
follows-append true m (prints text ∷ ws) vs h = follows-append true m ws vs h
follows-append false m (prints text ∷ ws) vs h = follows-append false m ws vs h

abbrev logger : Bool → Bool → Logger
logger o d = record { is_opened = o; debug_mode = d }

abbrev Follows : (Logger → Logger × List Write) → Type 0
Follows f = (o d : Bool) → follows o (f (logger o d)).1 ≡ some (f (logger o d)).0.is_opened

close_log-Follows : Follows close_log
unfolding close_log
close_log-Follows true d = refl
close_log-Follows false d = refl

open_log-Follows : (name : Option Bytes) → Follows (open_log name)
unfolding open_log close_log
open_log-Follows name true d = refl
open_log-Follows name false d = refl

write_log-Follows : (p : Priority) (text : Bytes) → Follows (write_log p text)
unfolding write_log make_open open_log close_log
write_log-Follows p text true true = refl
write_log-Follows p text true false = refl
write_log-Follows p text false true = refl
write_log-Follows p text false false = refl

info-Follows : (text : Bytes) → Follows (log_info_then_close text)
unfolding log_info_then_close write_log make_open open_log close_log
info-Follows text true true = refl
info-Follows text true false = refl
info-Follows text false true = refl
info-Follows text false false = refl

call-Follows : (c : Call) → Follows (call c)
unfolding call
call-Follows (open_call name) o d = open_log-Follows name o d
call-Follows close_call o d = close_log-Follows o d
call-Follows (debug text) o true = write_log-Follows _ text o true
call-Follows (debug text) o false = refl
call-Follows (info text) o d = info-Follows text o d
call-Follows (warning text) o d = write_log-Follows _ text o d
call-Follows (error text) o d = write_log-Follows _ text o d
call-Follows (set_debug_mode enable) o d = refl

-- Whatever calls of the class are made, in whatever order: the system's log is never opened while it is
-- open, and never closed or written while it is closed, if the class knows at the start whether it is open;
-- and it knows at the end.
pub calls_follow :
    (cs : List Call) (l : Logger)
    → follows l.is_opened (calls cs l).1 ≡ some (calls cs l).0.is_opened
unfolding calls
calls_follow [] l = refl
calls_follow (c ∷ cs) l =
    let (m, ws) = call c l in
    follows-append l.is_opened m.is_opened ws (calls cs m).1
      (call-Follows c l.is_opened l.debug_mode)
    ∙ calls_follow cs m
