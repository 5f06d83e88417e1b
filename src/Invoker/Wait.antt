-- ===== src/Invoker/Wait.antt =====
-- What the invoker reads from the socket, and how it waits for the application that it launched:
-- `invoke_recv_msg` of src/invoker/invokelib.c, and `invoke_recv_ack`, `invoker_recv_pid`,
-- `invoker_recv_exit` and `wait_for_launched_process_to_exit` of src/invoker/invoker.c.
use mapplauncherd.Base.{
  ℕ, Bool, true, false, not, ◌||◌, List, [], ◌∷◌, Option, none, some, Bytes, length, ltb, ◌==◌,
  if◌then◌else◌, decode_word,
}
use mapplauncherd.Wire.{Kernel}
use mapplauncherd.Protocol.{msg_ack, msg_pid, msg_exit}
use mapplauncherd.Booster.Launch.{to_int}
use mapplauncherd.Invoker.Signals.{Signals, by_default, sigs_init, ends_on}

-- A step of the invoker returns, or the process dies with a status.
pub data Step (A : Type 0) : Type 0 where
  goes : A → Step A
  dies : ℕ → Step A

infixl 5 ◌>>=◌
abbrev pub ◌>>=◌ : {A B : Type 0} → Step A → (A → Step B) → Step B
goes a >>= f = f a
dies n >>= f = dies n

-- A short read counts as a failed one here, other than in `Connection::recvMsg`.
unfoldable pub msg_read : Option Bytes → Bool × ℕ
msg_read none = (false, 0)
msg_read (some bs) = if ltb (length bs) 4 then (false, 0) else (true, decode_word bs)

-- What waiting met: readiness of the socket, or a signal that comes to the process. One signal is dealt
-- with, up to the byte in the pipe, before the next one comes.
pub data Event : Type 0 where
  socket_ready : Event
  signal_comes : ℕ → Event

-- How waiting ends: with a status, by a signal, by killing an application that outlived the launcher and
-- the invoker itself, or not yet.
pub data Waiting : Type 0 where
  status : ℕ → Waiting
  killed_by : ℕ → Waiting
  kills_both : ℕ → Waiting
  waiting : Waiting

-- The signals of an invoker that waits for the process `pid`, behind `sigs_init`.
abbrev pub forwarding : ℕ → Signals
forwarding pid =
    sigs_init (record { invoked_pid = to_int pid; table = λ sig. by_default; acts = [] })

module _ (k : Kernel) where
  unfoldable pub recv_msg : k.Sock → (Bool × ℕ) × k.Sock
  recv_msg s = let (r, s') = k.read 4 s in (msg_read r, s')

  unfoldable pub recv_ack : k.Sock → Step k.Sock
  recv_ack s =
      let ((_, action), s') = recv_msg s in if not (action == msg_ack) then dies 1 else goes s'

  unfoldable pub recv_pid : k.Sock → Step (ℕ × k.Sock)
  recv_pid s =
      let ((_, action), s') = recv_msg s in
      let ((_, pid), s'') = recv_msg s' in
      if not (action == msg_pid) then dies 1 else if pid == 0 then dies 1 else goes (pid, s'')

  -- The status, or none where the connection was lost.
  unfoldable pub recv_exit : k.Sock → Option ℕ × k.Sock
  recv_exit s =
      let ((res, action), s') = recv_msg s in
      let ((res', value), s'') = recv_msg s' in
      if not res || not (action == msg_exit)
      then (none, s')
      else (if res' then some value else none, s'')

  -- The loop over the events; `runs` tells whether the application is still in /proc when the connection
  -- is lost. A signal is passed on by `sig_forwarder`, which raises it again by default; where the process
  -- outlives that, the loop reads the byte from the pipe and calls `sigs_init` again.
  unfoldable pub wait_loop : Bool → ℕ → List Event → k.Sock → Waiting
  wait_loop runs pid [] s = waiting
  wait_loop runs pid (signal_comes sig ∷ es) s =
      let rest = wait_loop runs pid es s in
      if ends_on sig (forwarding pid) then killed_by sig else rest
  wait_loop runs pid (socket_ready ∷ es) s = elim (recv_exit s).0 [
    | some value ↦ status value
    | none ↦ if runs then kills_both pid else status 1
  ]

  -- The application's exit status, where the invoker was asked to wait for it.
  unfoldable pub wait_for_exit : Bool → Bool → List Event → k.Sock → Step Waiting
  wait_for_exit false runs es s = goes (status 0)
  wait_for_exit true runs es s = recv_pid s >>= λ r. goes (wait_loop runs r.0 es r.1)

  -- The end of `invoke_remote`, behind the messages that it sent: the acknowledgement, and the wait.
  unfoldable pub finish_invocation : Bool → Bool → List Event → k.Sock → Step Waiting
  finish_invocation wait_term runs es s = recv_ack s >>= wait_for_exit wait_term runs es
