-- ===== src/Protocol.antt =====
-- src/common/protocol.h: the words that the invoker and the boosters exchange.
use mapplauncherd.Base.{ℕ}

abbrev pub magic : ℕ
magic = 0xb0070000

abbrev pub magic_version_mask : ℕ
magic_version_mask = 0x0000ff00

abbrev pub magic_version : ℕ
magic_version = 0x00000300

abbrev pub option_mask : ℕ
option_mask = 0x000000ff

abbrev pub option_wait : ℕ
option_wait = 0x00000001

abbrev pub option_dlopen_global : ℕ
option_dlopen_global = 0x00000002

abbrev pub option_dlopen_deep : ℕ
option_dlopen_deep = 0x00000004

abbrev pub option_single_instance : ℕ
option_single_instance = 0x00000008

abbrev pub option_oom_adj_disable : ℕ
option_oom_adj_disable = 0x00000020

abbrev pub msg_mask : ℕ
msg_mask = 0xffff0000

abbrev pub msg_name : ℕ
msg_name = 0x5a5e0000

abbrev pub msg_exec : ℕ
msg_exec = 0xe8ec0000

abbrev pub msg_args : ℕ
msg_args = 0xa4650000

abbrev pub msg_env : ℕ
msg_env = 0xe5710000

abbrev pub msg_prio : ℕ
msg_prio = 0xa1ce0000

abbrev pub msg_delay : ℕ
msg_delay = 0xb2de0012

abbrev pub msg_ids : ℕ
msg_ids = 0xb2df4000

abbrev pub msg_io : ℕ
msg_io = 0x10fd0000

abbrev pub msg_end : ℕ
msg_end = 0xdead0000

abbrev pub msg_pid : ℕ
msg_pid = 0x1d1d0000

abbrev pub msg_splash : ℕ
msg_splash = 0x5b1a0000

abbrev pub msg_landscape_splash : ℕ
msg_landscape_splash = 0x5b120000

abbrev pub msg_exit : ℕ
msg_exit = 0xe4170000

abbrev pub msg_ack : ℕ
msg_ack = 0x600d0000
