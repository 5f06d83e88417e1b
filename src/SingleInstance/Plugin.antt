-- ===== src/SingleInstance/Plugin.antt =====
-- The plugin's registration in the daemon, src/launcherlib/singleinstance.cpp.
use mapplauncherd.Base.{ℕ, Bool, true, false, List, [], ◌∷◌, ◌++◌, Option, none, some, Bytes, codes}

-- `SingleInstancePluginEntry`
pub record Entry : Type 0 where
  pub handle : ℕ
  pub lock_func : ℕ
  pub unlock_func : ℕ
  pub activate_func : ℕ

-- `m_pluginEntry`, and the handles that `dlclose` was called on.
pub record Plugins : Type 0 where
  pub entry : Option Entry
  pub closed : List ℕ

-- What the loader finds: a library's handle, and the address of a symbol in it, none where `dlerror`
-- reports one.
pub record Linker : Type 0 where
  pub dlopen : Bytes → Option ℕ
  pub dlsym : ℕ → Bytes → Option ℕ

abbrev bind {ℓ κ} : {A : Type ℓ} {B : Type κ} → Option A → (A → Option B) → Option B
bind none f = none
bind (some a) f = f a

-- The checks of `validateAndRegisterPlugin`, in order.
unfoldable pub read_entry : Linker → ℕ → Option Entry
read_entry l handle = bind (l.dlsym handle (codes "lock")) λ lock.
    bind (l.dlsym handle (codes "unlock")) λ unlock.
      bind (l.dlsym handle (codes "activateExistingInstance")) λ activate. some (record {
        handle = handle;
        lock_func = lock;
        unlock_func = unlock;
        activate_func = activate;
      })

unfoldable pub validate_and_register : Linker → ℕ → Plugins → Bool × Plugins
unfolding read_entry
validate_and_register l handle p = elim (read_entry l handle) [
  | none ↦ (false, p)
  | some e ↦ (true, record p { entry = some e })
]

unfoldable pub close_plugin : Plugins → Plugins
close_plugin p = elim p.entry [
  | none ↦ p
  | some e ↦ record { entry = none; closed = p.closed ++ e.handle ∷ [] }
]

-- `Daemon::loadSingleInstancePlugin` of daemon.cpp.
unfoldable pub load_single_instance_plugin : Linker → Bytes → Plugins → Plugins
load_single_instance_plugin l path p = elim (l.dlopen path) [
  | none ↦ p
  | some handle ↦ (validate_and_register l handle p).1
]
