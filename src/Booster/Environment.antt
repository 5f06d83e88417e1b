-- ===== src/Booster/Environment.antt =====
-- `Booster::setEnvironmentBeforeLaunch`: the system calls by which the booster becomes the application's
-- process, and what they leave in its table of descriptors.
use mapplauncherd.Base.{
  ℕ, zero, suc, ◌≤◌, ◌≡◌, ◌≢◌, refl, ap, ◌∙◌, Bool, true, false, not, List, [], ◌∷◌, ◌++◌, Option,
  none, some, Bytes, if◌then◌else◌, ◌==◌, arith, ℤ, int_lt,
}
use mapplauncherd.AppData.{AppData, disable_out_of_mem_adj}
use mapplauncherd.Connection.Invocation.{delivered}
use mapplauncherd.Invoker.Send.{Invocation}
use mapplauncherd.Booster.Launch.{to_int}

pub data Call : Type 0 where
  setpriority : ℤ → Call
  setuid setgid setegid : ℕ → Call
  reset_oom_adj set_dumpable : Call
  dup2 : ℕ → ℕ → Call
  close : ℕ → Call
  chdir : Bytes → Call

-- What the process asks the system: `getpriority`, of which none is an error, `getuid`, `getgid`,
-- `getegid` after the ids were set, and PWD; and the group that the booster found in its constructor.
pub record Process : Type 0 where
  pub priority : Option ℤ
  pub uid : ℕ
  pub gid : ℕ
  pub egid : ℕ
  pub boosted_gid : ℕ
  pub pwd : Option Bytes

abbrev pub when : Bool → List Call → List Call
when b calls = if b then calls else []

unfoldable pub priority_calls : Option ℤ → ℤ → List Call
priority_calls none p = []
priority_calls (some cur) p = when (int_lt cur p) (setpriority p ∷ [])

-- The loop over the descriptors from index `i` on: those above 0 are duplicated to `i`.
unfoldable pub io_calls : ℕ → List (Option ℕ) → List Call
io_calls i [] = []
io_calls i (none ∷ fds) = io_calls (suc i) fds
io_calls i (some zero ∷ fds) = io_calls (suc i) fds
io_calls i (some (suc fd) ∷ fds) = dup2 (suc fd) i ∷ close (suc fd) ∷ io_calls (suc i) fds

unfoldable pub pwd_calls : Option Bytes → List Call
pwd_calls none = []
pwd_calls (some dir) = chdir dir ∷ []

-- The calls before the descriptors are duplicated.
unfoldable pub id_calls : Process → AppData → List Call
unfolding priority_calls
id_calls p a =
    priority_calls p.priority (to_int a.priority)
    ++ (when (not (p.uid == a.uid)) (setuid a.uid ∷ [])
        ++ (when (not (p.gid == a.gid)) (setgid a.gid ∷ [])
            ++ (setegid p.boosted_gid
                ∷ setegid p.egid
                ∷ (when (not (disable_out_of_mem_adj a)) (reset_oom_adj ∷ [])
                    ++ set_dumpable ∷ []))))

unfoldable pub set_environment_before_launch : Process → AppData → List Call
set_environment_before_launch p a = id_calls p a ++ (io_calls 0 a.io_descriptors ++ pwd_calls p.pwd)

-- The files that the descriptors of a process stand for.
abbrev pub Table : Type 0
Table = ℕ → Option ℕ

-- What a call does to the table. `dup2` of a descriptor that is not open fails.
unfoldable pub apply : Call → Table → Table
apply (dup2 a b) t x = elim (t a) [ none ↦ t x | some f ↦ if x == b then some f else t x ]
apply (close a) t x = if x == a then none else t x
apply _ t x = t x

unfoldable pub apply_all : List Call → Table → Table
apply_all [] t = t
apply_all (c ∷ cs) t = apply_all cs (apply c t)

apply_all-append :
    (cs ds : List Call) (t : Table) → apply_all (cs ++ ds) t ≡ apply_all ds (apply_all cs t)
unfolding apply_all
apply_all-append [] ds t = refl
apply_all-append (c ∷ cs) ds t = apply_all-append cs ds (apply c t)

-- The calls leave every descriptor as it was.
abbrev Keeps : List Call → Type 0
Keeps cs = (t : Table) → apply_all cs t ≡ t

Keeps-append : (cs ds : List Call) → Keeps cs → Keeps ds → Keeps (cs ++ ds)
Keeps-append cs ds h h' t = apply_all-append cs ds t ∙ ap (apply_all ds) (h t) ∙ h' t

Keeps-when : (b : Bool) (cs : List Call) → Keeps cs → Keeps (when b cs)
unfolding apply_all
Keeps-when true cs h t = h t
Keeps-when false cs h t = refl

Keeps-priority_calls : (cur : Option ℤ) (p : ℤ) → Keeps (priority_calls cur p)
unfolding priority_calls apply_all apply
Keeps-priority_calls none p t = refl
Keeps-priority_calls (some cur) p t = Keeps-when (int_lt cur p) _ (λ u. refl) t

Keeps-id_calls : (p : Process) (a : AppData) → Keeps (id_calls p a)
unfolding id_calls apply_all apply
Keeps-id_calls p a =
    Keeps-append (priority_calls p.priority (to_int a.priority)) _
      (Keeps-priority_calls p.priority _)
      (Keeps-append (when (not (p.uid == a.uid)) _) _
        (Keeps-when (not (p.uid == a.uid)) _ (λ t. refl))
        (Keeps-append (when (not (p.gid == a.gid)) _) _
          (Keeps-when (not (p.gid == a.gid)) _ (λ t. refl))
          (Keeps-append (setegid p.boosted_gid ∷ setegid p.egid ∷ [])
            (when (not (disable_out_of_mem_adj a)) (reset_oom_adj ∷ []) ++ set_dumpable ∷ [])
            (λ t. refl)
            (Keeps-append (when (not (disable_out_of_mem_adj a)) (reset_oom_adj ∷ []))
              (set_dumpable ∷ []) (Keeps-when (not (disable_out_of_mem_adj a)) _ (λ t. refl))
              (λ t. refl)))))

Keeps-pwd_calls : (d : Option Bytes) → Keeps (pwd_calls d)
unfolding pwd_calls apply_all apply
Keeps-pwd_calls none t = refl
Keeps-pwd_calls (some d) t = refl

-- Three descriptors above 2 that are open and differ become the standard ones.
apply_all-io_calls :
    (a b c : ℕ) (t : Table)
    → 3 ≤ a
    → 3 ≤ b
    → 3 ≤ c
    → a ≢ b
    → a ≢ c
    → b ≢ c
    → t a ≢ none
    → t b ≢ none
    → t c ≢ none
    → let after = apply_all (io_calls 0 (some a ∷ some b ∷ some c ∷ [])) t in
      (after 0 ≡ t a) × (after 1 ≡ t b) × (after 2 ≡ t c)
unfolding io_calls apply_all apply
apply_all-io_calls (suc a) (suc b) (suc c) t la lb lc ab ac bc oa ob oc = ground arith
apply_all-io_calls zero b c t la lb lc ab ac bc oa ob oc = absurd (omega arith)
apply_all-io_calls (suc a) zero c t la lb lc ab ac bc oa ob oc = absurd (omega arith)
apply_all-io_calls (suc a) (suc b) zero t la lb lc ab ac bc oa ob oc = absurd (omega arith)

-- The application that is launched for an invocation has the invoker's standard input, output and error
-- as its own, if they came through three different descriptors above 2: descriptor 0 is the file that
-- the invoker sent as 0, and so with 1 and 2, whatever ids and priority are set.
pub set_environment_before_launch-delivered :
    (p : Process) (v : Invocation) (a : AppData) (dup : ℕ → ℕ) (t : Table)
    → 3 ≤ dup 0
    → 3 ≤ dup 1
    → 3 ≤ dup 2
    → dup 0 ≢ dup 1
    → dup 0 ≢ dup 2
    → dup 1 ≢ dup 2
    → t (dup 0) ≢ none
    → t (dup 1) ≢ none
    → t (dup 2) ≢ none
    → (apply_all (set_environment_before_launch p (delivered dup v a)) t 0 ≡ t (dup 0))
      × (apply_all (set_environment_before_launch p (delivered dup v a)) t 1 ≡ t (dup 1))
      × (apply_all (set_environment_before_launch p (delivered dup v a)) t 2 ≡ t (dup 2))
unfolding set_environment_before_launch
set_environment_before_launch-delivered p v a dup t l0 l1 l2 n1 n2 n3 o0 o1 o2 =
    let b = delivered dup v a in
    let io = io_calls 0 b.io_descriptors in
    let e : apply_all (set_environment_before_launch p b) t ≡ apply_all io t =
      apply_all-append (id_calls p b) (io ++ pwd_calls p.pwd) t
      ∙ ap (apply_all (io ++ pwd_calls p.pwd)) (Keeps-id_calls p b t)
      ∙ apply_all-append io (pwd_calls p.pwd) t
      ∙ Keeps-pwd_calls p.pwd (apply_all io t) in
    let (r0, r1, r2) = apply_all-io_calls (dup 0) (dup 1) (dup 2) t l0 l1 l2 n1 n2 n3 o0 o1 o2 in
    (ap (λ f. f 0) e ∙ r0, ap (λ f. f 1) e ∙ r1, ap (λ f. f 2) e ∙ r2)
