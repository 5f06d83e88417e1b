-- ===== src/Booster/Patience.antt =====
-- A booster outlasts the invokers that it turns away.
use mapplauncherd.Base.{
  ℕ, ◌≤◌, ◌≡◌, refl, ap, ◌∙◌, Bool, true, false, List, [], ◌∷◌, ◌++◌, none, some, encode_word,
  Bytes, map, if◌then◌else◌, All, Bool-cases, inl, inr,
}
use mapplauncherd.Wire.{Kernel, IsReliable, Item}
use mapplauncherd.AppData.{AppData}
use mapplauncherd.Protocol.{msg_exit}
use mapplauncherd.Connection.State.{Connection, connected, close}
use mapplauncherd.Connection.Delivery.{at, assignments}
use mapplauncherd.Connection.Rounds.{acknowledgement}
use mapplauncherd.Connection.Invocation.{IsSendable, delivered, waits}
use mapplauncherd.Invoker.Send.{Invocation}
use mapplauncherd.Booster.Launch.{
  Waited, launches, Arrival, reply, turn_away, is_refused, keeps_plugin, wait_for_launch,
}
use mapplauncherd.Booster.Handover.{
  arrival, served, kept, served_lem, refuse_lem, wait_for_launch-launches, wait_for_launch_refuses,
}

-- An invoker, with what it sent behind its invocation, what was written to it before, and how the
-- plugin answers.
pub record Client : Type 0 where
  pub invocation : Invocation
  pub rest : List Item
  pub out : Bytes
  pub lock : Bytes → Bool
  pub activate : Bytes → Bool

-- The environment that a crowd leaves behind.
abbrev pub left : List Bytes → List Client → List Bytes
left env [] = env
left env (c ∷ crowd) = left (assignments c.invocation.environ) crowd

module _ {k : Kernel} {stream : List Item → Bytes → k.Sock} {dup : ℕ → ℕ}
    (r : IsReliable k stream dup) where
  abbrev pub arrives : Client → Arrival k
  arrives c = arrival r c.invocation c.rest c.out c.lock c.activate

  -- The client's application runs already.
  abbrev pub IsBusy : AppData → Client → Type 0
  IsBusy a c =
      IsSendable c.invocation × (is_refused true (delivered dup c.invocation a) (arrives c) ≡ true)

  -- What was written to a client that was turned away: the acknowledgement, and where it waits, whether the
  -- running instance was activated, as an exit status.
  abbrev pub answer : List Bytes → ℕ → Client → Bytes
  answer env fd c =
      let told = c.out ++ acknowledgement (served r c.invocation c.rest c.out env fd) in
      if waits c.invocation
      then told
        ++ (encode_word msg_exit ++ encode_word (if c.activate c.invocation.argv0 then 0 else 1))
      else told

  -- The connection to it, which is closed.
  abbrev pub dismissed : List Bytes → ℕ → Client → Connection k
  dismissed env fd c =
      at r (record (served r c.invocation c.rest c.out env fd) { fd = none }) c.rest
        (answer env fd c)

  -- The connections to a crowd, each made in the environment that the one before it left.
  abbrev pub all_dismissed : List Bytes → ℕ → List Client → List (Connection k)
  all_dismissed env fd [] = []
  all_dismissed env fd (c ∷ crowd) =
      dismissed env fd c ∷ all_dismissed (assignments c.invocation.environ) fd crowd

  -- A client that does not wait was disconnected before.
  turn_away_closed :
      (activated : Bool) (c : Connection k) → turn_away activated (close c) ≡ record c { fd = none }
  unfolding turn_away reply connected close
  turn_away_closed activated c = refl

  refused_lem :
      (c : Client) (n fd : ℕ) (a : AppData) (env : List Bytes) (xs : List (Arrival k))
      → 8 ≤ n
      → k.accept ≡ some fd
      → IsBusy a c
      → let later =
          wait_for_launch n true
            (delivered dup c.invocation a)
            (assignments c.invocation.environ)
            xs in
        wait_for_launch n true a env (arrives c ∷ xs) ≡ (later.0, dismissed env fd c ∷ later.1)
  unfolding close
  refused_lem c n fd a env xs h acc (s, busy) = elim (Bool-cases (waits c.invocation)) [
    | inl wait ↦
        wait_for_launch_refuses r c.invocation n fd true a env c.rest c.out c.lock c.activate xs s h
          acc wait busy
        ∙ rw wait refl
    | inr go ↦
        refuse_lem n true a (delivered dup c.invocation a) env (arrives c) xs
          (close (served r c.invocation c.rest c.out env fd))
          (served_lem r c.invocation n fd a env c.rest c.out s h acc ∙ rw go refl) busy
        ∙ ap
            (λ (x : Connection k). (
              (wait_for_launch n true (delivered dup c.invocation a)
                  (assignments c.invocation.environ) xs).0,
              x
                  ∷ (wait_for_launch n true (delivered dup c.invocation a)
                      (assignments c.invocation.environ) xs).1,
            ))
            (turn_away_closed (c.activate c.invocation.argv0)
                (served r c.invocation c.rest c.out env fd)
              ∙ rw go refl)
  ]

  -- However many invokers come whose applications run already, a booster with the single-instance plugin
  -- turns them all away, in their
  -- order, and launches the first invocation that is not refused, exactly as its invoker sent it. Each that
  -- is turned away is acknowledged, is sent the exit status 0 if its running instance was activated and 1 if
  -- not, where it waits, and nothing else; and its connection is closed. The invocations must be ones that
  -- the protocol carries, and all connections are accepted.
  pub wait_for_launch_eventually :
      (crowd : List Client) (c : Client) (n fd : ℕ) (a : AppData) (env : List Bytes)
      (xs : List (Arrival k))
      → 8 ≤ n
      → k.accept ≡ some fd
      → All (IsBusy a) crowd
      → IsSendable c.invocation
      → is_refused true (delivered dup c.invocation a) (arrives c) ≡ false
      → wait_for_launch n true a env (map arrives crowd ++ arrives c ∷ xs) ≡ (
        launches
            (keeps_plugin true (delivered dup c.invocation a))
            (delivered dup c.invocation a)
            (kept r c.invocation c.rest c.out (left env crowd) fd),
        all_dismissed env fd crowd,
      )
  wait_for_launch_eventually [] c n fd a env xs h acc busy s free =
      wait_for_launch-launches r c.invocation n fd true a env c.rest c.out c.lock c.activate xs s h
        acc free
  wait_for_launch_eventually (b ∷ crowd) c n fd a env xs h acc busy s free =
      refused_lem b n fd a env (map arrives crowd ++ arrives c ∷ xs) h acc busy.0
      ∙ ap (λ (x : Waited k × List (Connection k)). (x.0, dismissed env fd b ∷ x.1))
          (wait_for_launch_eventually crowd c n fd (delivered dup b.invocation a)
            (assignments b.invocation.environ) xs h acc busy.1 s free)
