-- ===== src/AppData.antt =====
-- src/launcherlib/appdata.cpp: what a booster knows of the application that it will launch.
use mapplauncherd.Base.{ℕ, Bool, not, List, [], Option, none, Bytes, ◌==◌, bit_and}
use mapplauncherd.Protocol.{
  option_dlopen_global, option_dlopen_deep, option_single_instance, option_oom_adj_disable,
}

-- Integers that came as words of the protocol keep their bit patterns.
pub record AppData : Type 0 where
  pub options : ℕ
  pub argc : ℕ
  pub argv : Option (List Bytes)
  pub app_name : Bytes
  pub file_name : Bytes
  pub priority : ℕ
  pub delay : ℕ
  pub entry : Option ℕ
  pub io_descriptors : List (Option ℕ)
  pub gid : ℕ
  pub uid : ℕ

unfoldable pub empty : AppData
empty = record {
  options = 0;
  argc = 0;
  argv = none;
  app_name = [];
  file_name = [];
  priority = 0;
  delay = 0;
  entry = none;
  io_descriptors = [];
  gid = 0;
  uid = 0;
}

-- The setters; the getters are the fields.
abbrev pub set_options : ℕ → AppData → AppData
set_options new a = record a { options = new }

abbrev pub set_argc : ℕ → AppData → AppData
set_argc new a = record a { argc = new }

abbrev pub set_argv : Option (List Bytes) → AppData → AppData
set_argv new a = record a { argv = new }

abbrev pub set_app_name : Bytes → AppData → AppData
set_app_name new a = record a { app_name = new }

abbrev pub set_file_name : Bytes → AppData → AppData
set_file_name new a = record a { file_name = new }

abbrev pub set_priority : ℕ → AppData → AppData
set_priority new a = record a { priority = new }

abbrev pub set_delay : ℕ → AppData → AppData
set_delay new a = record a { delay = new }

abbrev set_entry : Option ℕ → AppData → AppData
set_entry new a = record a { entry = new }

abbrev pub set_io_descriptors : List (Option ℕ) → AppData → AppData
set_io_descriptors new a = record a { io_descriptors = new }

abbrev pub set_ids : ℕ → ℕ → AppData → AppData
set_ids user group a = record a { uid = user; gid = group }

unfoldable pub has_option : ℕ → AppData → Bool
has_option o a = not (bit_and a.options o == 0)

unfoldable pub dlopen_global : AppData → Bool
unfolding has_option
dlopen_global = has_option option_dlopen_global

unfoldable pub dlopen_deep : AppData → Bool
unfolding has_option
dlopen_deep = has_option option_dlopen_deep

unfoldable pub single_instance : AppData → Bool
unfolding has_option
single_instance = has_option option_single_instance

unfoldable pub disable_out_of_mem_adj : AppData → Bool
unfolding has_option
disable_out_of_mem_adj = has_option option_oom_adj_disable
