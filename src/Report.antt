-- ===== src/Report.antt =====
-- The messages of the invoker, src/common/report.c.
pub mod Direction
use mapplauncherd.Base.{
  ℕ, Bool, true, false, ◌&&◌, ◌||◌, not, List, [], ◌∷◌, ◌++◌, Bytes, codes, if◌then◌else◌,
}

pub data Output : Type 0 where
  console syslog nowhere : Output

pub data Kind : Type 0 where
  debug info warning error fatal : Kind

-- LOG_DEBUG, LOG_INFO, LOG_WARNING and LOG_ERR.
pub data Level : Type 0 where
  log_debug log_info log_warning log_err : Level

-- `openlog`, `closelog`, `syslog` and `printf`, the last two with the text behind the program's name.
pub data Write : Type 0 where
  opens_log closes_log : Write
  logs : Level → Bytes → Write
  prints : Bytes → Write

abbrev pub is_syslog : Output → Bool
is_syslog syslog = true
is_syslog _ = false

abbrev pub same : Output → Output → Bool
same console console = true
same syslog syslog = true
same nowhere nowhere = true
same _ _ = false

-- `report_set_output`, where `output` is set.
unfoldable pub report_set_output : Output → Output → Output × List Write
report_set_output output new = if same output new then (output, []) else (
  new,
  (if is_syslog output then closes_log ∷ [] else [])
      ++ (if is_syslog new then opens_log ∷ [] else []),
)

-- The switch on the type.
unfoldable pub log_type : Kind → Level
log_type debug = log_debug
log_type info = log_info
log_type warning = log_warning
log_type error = log_err
log_type fatal = log_err

unfoldable pub str_type : Kind → Bytes
str_type warning = codes "warning: "
str_type error = codes "error: "
str_type fatal = codes "died: "
str_type _ = []

abbrev pub is_severe : Kind → Bool
is_severe error = true
is_severe fatal = true
is_severe _ = false

-- What is written where the output is set.
unfoldable pub emit : Output → Level → Bytes → List Write
emit console level text = prints text ∷ []
emit syslog level text = logs level text ∷ []
emit nowhere level text = []

-- `vreport`, with the message that `vsnprintf` made.
unfoldable pub vreport : Kind → Bytes → Output → Output × List Write
unfolding log_type str_type emit
vreport kind msg output =
    let text = str_type kind ++ msg in
    let (there, enter) = report_set_output output syslog in
    let (back, leave) = report_set_output there output in
    if not (is_syslog output) && is_severe kind
    then (back, enter ++ (logs (log_type kind) text ∷ (leave ++ emit back (log_type kind) text)))
    else (output, emit output (log_type kind) text)
