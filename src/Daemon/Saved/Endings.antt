-- ===== src/Daemon/Saved/Endings.antt =====
-- `restoreState` always ends.
use mapplauncherd.Base.{
  ℕ, zero, suc, ◌≤◌, ◌<◌, ◌≡◌, refl, inl, inr, List, [], ◌∷◌, some, Bytes, codes, bytes_eq, arith,
  ℤ, int_eq, length, Option-cases, Bool-cases,
}
use mapplauncherd.Daemon.State.{Daemon}
use mapplauncherd.Daemon.Saved.{
  Streams, Reading, complete, failure, more, read_entry, read_entries, Restored, restored, exits_1,
  uncaught, restore_state, finish_reading,
}

module _ (st : Streams) where
  read_entry-le :
      (w : Bytes) (ws ws' : List Bytes) (d e : Daemon)
      → read_entry st w ws d ≡ more e ws'
      → length ws' ≤ length ws
  unfolding read_entry
  read_entry-le w ws ws' d e h = ground arith

  -- The loop ends with the end word or a failure of the stream.
  read_entries_total :
      (n : ℕ) (ws : List Bytes) (d : Daemon)
      → length ws < n
      → (r : Restored) × (finish_reading st (read_entries st n ws d) ≡ some r)
  unfolding read_entries
  read_entries_total zero ws d h = elim h [ ]
  read_entries_total (suc n) [] d h = (exits_1 d, refl)
  read_entries_total (suc n) (w ∷ ws) d h =
      go (read_entry st w ws d) refl (λ ws' e le. read_entries_total n ws' e (omega arith))
    where
      go :
          (r : Reading)
          → read_entry st w ws d ≡ r
          → ((ws' : List Bytes) (e : Daemon)
              → length ws' ≤ length ws
              → (r : Restored) × (finish_reading st (read_entries st n ws' e) ≡ some r))
          → (r : Restored) × (finish_reading st (read_entries st (suc n) (w ∷ ws) d) ≡ some r)
      go (complete e) q rec = (restored e, rw (q, read_entries))
      go (failure e) q rec = (exits_1 e, rw (q, read_entries))
      go (more e ws') q rec = rw (q, read_entries) (rec ws' e (read_entry-le w ws ws' d e q))

  -- Whatever the state file holds, restoring it ends.
  pub restore_state_total :
      (my_pid : ℤ) (ws : List Bytes) (d : Daemon)
      → (r : Restored) × (restore_state st my_pid ws d ≡ some r)
  unfolding restore_state
  restore_state_total my_pid [] d = (exits_1 d, refl)
  restore_state_total my_pid (w ∷ []) d = elim (Bool-cases (bytes_eq w (codes "my-pid"))) [
    | inl e ↦ (exits_1 d, ground arith)
    | inr e ↦ (uncaught, ground arith)
  ]
  restore_state_total my_pid (w ∷ p ∷ ws) d =
      let (r, read) = read_entries_total (suc (length ws)) ws d (omega arith) in
      elim (Bool-cases (bytes_eq w (codes "my-pid"))) [
        | inr e ↦ (uncaught, ground arith)
        | inl e ↦ elim (Option-cases (st.parse p)) [
          | inl bad ↦ (exits_1 d, ground arith)
          | inr (z, num) ↦ elim (Bool-cases (int_eq z my_pid)) [
            | inl same ↦ (r, ground arith)
            | inr other ↦ (uncaught, ground arith)
          ]
        ]
      ]
