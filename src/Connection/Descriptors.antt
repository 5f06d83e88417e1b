-- ===== src/Connection/Descriptors.antt =====
-- The descriptors of a connection, and its destructor, in src/launcherlib/connection.cpp.
use mapplauncherd.Base.{
  ℕ, ◌≡◌, refl, ap, Bool, false, List, [], ◌∷◌, ◌++◌, Option, none, some, Bytes, if◌then◌else◌, ◌≤◌,
  arith,
}
use mapplauncherd.Wire.{Kernel, IsReliable, Item, rights}
use mapplauncherd.Connection.State.{Connection, close}
use mapplauncherd.Connection.Receive.{receive_io}
use mapplauncherd.AppData.{AppData}
use mapplauncherd.Invoker.Send.{Invocation, invoke_remote}
use mapplauncherd.Connection.Actions.{receive_application_data}
use mapplauncherd.Connection.Delivery.{at}
use mapplauncherd.Connection.Invocation.{IsSendable, receive_application_data-invoke_remote}

-- The number that `close` hands to `::close`.
unfoldable pub close_fd : Bool → Option ℕ → List ℕ
close_fd test_mode none = []
close_fd test_mode (some fd) = if test_mode then [] else fd ∷ []

close_fd-open : (fd : Option ℕ) (n : ℕ) → fd ≡ some n → close_fd false fd ≡ n ∷ []
unfolding close_fd
close_fd-open fd n h = ground arith

-- The numbers that a loop over `m_io` hands to `::close`.
unfoldable pub close_io : List (Option ℕ) → List ℕ
close_io [] = []
close_io (none ∷ io) = close_io io
close_io (some fd ∷ io) = fd ∷ close_io io

abbrev emptied : List (Option ℕ) → List (Option ℕ)
emptied [] = []
emptied (_ ∷ io) = none ∷ emptied io

close_io-emptied : (io : List (Option ℕ)) → close_io (emptied io) ≡ []
unfolding close_io
close_io-emptied [] = refl
close_io-emptied (x ∷ io) = close_io-emptied io

module _ {k : Kernel} where
  unfoldable pub closed_by_close : Connection k → List ℕ
  unfolding close_fd
  closed_by_close c = close_fd c.test_mode c.fd

  -- The destructor, with the numbers that it hands to `::close`.
  unfoldable pub destroy : Connection k → List ℕ × Connection k
  destroy c = (closed_by_close c ++ close_io c.io, record (close c) { io = emptied c.io })

  -- A connection that was destroyed has nothing left to close.
  destroyed_once : (c : Connection k) → (destroy (destroy c).1).0 ≡ []
  unfolding destroy closed_by_close close
  destroyed_once c = close_io-emptied c.io

module _ {k : Kernel} {stream : List Item → Bytes → k.Sock} {dup : ℕ → ℕ}
    (r : IsReliable k stream dup) where
  -- A connection that has received what `invoke_remote` sent, over the descriptor `fd`, closes in its
  -- destructor that descriptor and the three that it received, each once, unless it was closed before,
  -- and then the three alone; and a second time it has nothing to close. The invocation must be one that
  -- the protocol carries.
  pub destroy-invoke_remote :
      (v : Invocation) (n fd : ℕ) (a : AppData) (c : Connection k) (rest : List Item) (out : Bytes)
      → IsSendable v
      → 8 ≤ n
      → c.fd ≡ some fd
      → let d = (receive_application_data n a (at r c (invoke_remote v ++ rest) out)).1 in
        ((destroy d).0 ≡ fd ∷ dup 0 ∷ dup 1 ∷ dup 2 ∷ [])
        × (closed_by_close d ≡ fd ∷ [])
        × ((destroy (close d)).0 ≡ dup 0 ∷ dup 1 ∷ dup 2 ∷ [])
        × ((destroy (destroy d).1).0 ≡ [])
  unfolding destroy closed_by_close close_fd close close_io
  destroy-invoke_remote v n fd a c rest out s h at_fd =
      let closed : close_fd false c.fd ≡ fd ∷ [] = close_fd-open c.fd fd at_fd in
      rw (receive_application_data-invoke_remote r v n a c rest out s h)
        (ap (λ l. l ++ dup 0 ∷ dup 1 ∷ dup 2 ∷ []) closed, closed, refl, refl)

  receive_io-rights :
      (x y z : ℕ) (c : Connection k) (rest : List Item) (out : Bytes)
      → (receive_io (at r c (rights x y z ∷ rest) out)).1
        ≡ at r (record c { io = some (dup x) ∷ some (dup y) ∷ some (dup z) ∷ [] }) rest out
  unfolding receive_io
  receive_io-rights x y z c rest out = rw (r.recvmsg_lem x y z rest out) (ground arith)

  -- Where an invoker sends its descriptors a second time, the destructor closes only those of the second
  -- message, whatever the connection held before: the first three stay open.
  pub destroy-receive_io_again :
      (x y z x' y' z' : ℕ) (c : Connection k) (rest : List Item) (out : Bytes)
      → (destroy
          (receive_io (receive_io (at r c (rights x y z ∷ rights x' y' z' ∷ rest) out)).1).1).0
        ≡ close_fd false c.fd ++ dup x' ∷ dup y' ∷ dup z' ∷ []
  unfolding destroy closed_by_close close_io
  destroy-receive_io_again x y z x' y' z' c rest out =
      rw (receive_io-rights x y z c (rights x' y' z' ∷ rest) out) (
        rw
          (receive_io-rights x' y' z'
            (record c { io = some (dup x) ∷ some (dup y) ∷ some (dup z) ∷ [] }) rest out)
          refl)
