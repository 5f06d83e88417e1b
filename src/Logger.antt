-- ===== src/Logger.antt =====
-- The class `Logger`, src/launcherlib/logger.cpp.
pub mod Order
use mapplauncherd.Base.{
  Bool, true, false, not, List, [], ◌∷◌, ◌++◌, Option, none, some, Bytes, codes, if◌then◌else◌,
}

-- LOG_DEBUG, LOG_INFO, LOG_WARNING and LOG_ERR.
pub data Priority : Type 0 where
  log_debug log_info log_warning log_err : Priority

-- `openlog`, `closelog`, `vsyslog` and `vprintf`.
pub data Write : Type 0 where
  opens : Bytes → Write
  closes : Write
  logs : Priority → Bytes → Write
  prints : Bytes → Write

-- `m_isOpened` and `m_debugMode`.
pub record Logger : Type 0 where
  pub is_opened : Bool
  pub debug_mode : Bool

unfoldable pub close_log : Logger → Logger × List Write
close_log l = if l.is_opened then (record l { is_opened = false }, closes ∷ []) else (l, [])

abbrev pub prog_name : Option Bytes → Bytes
prog_name none = codes "mapplauncherd"
prog_name (some name) = name

-- `openLog`; none is a null pointer, which is also the default.
unfoldable pub open_log : Option Bytes → Logger → Logger × List Write
open_log name l =
    let (closed, ws) = close_log l in
    (record closed { is_opened = true }, ws ++ opens (prog_name name) ∷ [])

unfoldable pub make_open : Logger → Logger × List Write
make_open l = if l.is_opened then (l, []) else open_log none l

-- `writeLog`, with the text that the format makes.
unfoldable pub write_log : Priority → Bytes → Logger → Logger × List Write
write_log p text l =
    let (opened, ws) = make_open l in
    (
      opened,
      (if l.debug_mode then prints text ∷ prints (codes "\n") ∷ [] else [])
          ++ (ws ++ logs p text ∷ []),
    )

unfoldable pub log_info_then_close : Bytes → Logger → Logger × List Write
log_info_then_close text l =
    let (written, ws) = write_log log_info text l in
    let (closed, vs) = close_log written in (closed, ws ++ vs)

-- The calls of the class.
pub data Call : Type 0 where
  open_call : Option Bytes → Call
  close_call : Call
  debug info warning error : Bytes → Call
  set_debug_mode : Bool → Call

-- `openLog`, `closeLog`, `logDebug`, `logInfo`, `logWarning`, `logError` and `setDebugMode`.
unfoldable pub call : Call → Logger → Logger × List Write
unfolding close_log open_log make_open write_log log_info_then_close
call (open_call name) l = open_log name l
call close_call l = close_log l
call (debug text) l = if l.debug_mode then write_log log_debug text l else (l, [])
call (info text) l = log_info_then_close text l
call (warning text) l = write_log log_warning text l
call (error text) l = write_log log_err text l
call (set_debug_mode enable) l = (record l { debug_mode = enable }, [])

unfoldable pub calls : List Call → Logger → Logger × List Write
calls [] l = (l, [])
calls (c ∷ cs) l = let (m, ws) = call c l in let (n, vs) = calls cs m in (n, ws ++ vs)
