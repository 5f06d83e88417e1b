-- ===== src/Report/Direction.antt =====
-- Where messages go.
use mapplauncherd.Base.{
  ◌≡◌, refl, ap, ◌∙◌, not, ◌&&◌, Bool-cases, inl, inr, List, [], ◌∷◌, ◌++◌, Bytes,
}
use mapplauncherd.Report.{
  Output, console, syslog, nowhere, Kind, Write, is_syslog, is_severe, report_set_output, vreport,
}

-- A use of the module: a message, or another output.
pub data Use : Type 0 where
  reports : Kind → Bytes → Use
  directs : Output → Use

abbrev step : Use → Output → Output × List Write
step (reports kind msg) output = vreport kind msg output
step (directs new) output = report_set_output output new

abbrev pub uses : List Use → Output → Output × List Write
uses [] output = (output, [])
uses (u ∷ us) output =
    let (next, writes) = step u output in let (last, more) = uses us next in (last, writes ++ more)

-- The direction of the last message: the output that was chosen last.
abbrev pub chosen : List Use → Output → Output
chosen [] output = output
chosen (reports kind msg ∷ us) output = chosen us output
chosen (directs new ∷ us) output = chosen us new

set_output_sets : (output new : Output) → (report_set_output output new).0 ≡ new
unfolding report_set_output
set_output_sets console console = refl
set_output_sets console syslog = refl
set_output_sets console nowhere = refl
set_output_sets syslog console = refl
set_output_sets syslog syslog = refl
set_output_sets syslog nowhere = refl
set_output_sets nowhere console = refl
set_output_sets nowhere syslog = refl
set_output_sets nowhere nowhere = refl

vreport_keeps : (kind : Kind) (msg : Bytes) (output : Output) → (vreport kind msg output).0 ≡ output
unfolding vreport
vreport_keeps kind msg output = elim (Bool-cases (not (is_syslog output) && is_severe kind)) [
  | inl through ↦ rw through (set_output_sets (report_set_output output syslog).0 output)
  | inr straight ↦ rw straight refl
]

-- Errors and deaths are logged on the way whatever the output is, and yet after any use of the module
-- the output is the one that was chosen last.
pub uses-chosen : (us : List Use) (output : Output) → (uses us output).0 ≡ chosen us output
uses-chosen [] output = refl
uses-chosen (reports kind msg ∷ us) output =
    uses-chosen us (vreport kind msg output).0 ∙ ap (chosen us) (vreport_keeps kind msg output)
uses-chosen (directs new ∷ us) output =
    uses-chosen us (report_set_output output new).0 ∙ ap (chosen us) (set_output_sets output new)
