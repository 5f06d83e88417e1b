-- ===== src/Booster/Process/Restored.antt =====
-- The priority of a booster behind `pushPriority` and `popPriority` of src/launcherlib/booster.cpp.
use mapplauncherd.Base.{
  ◌≡◌, ◌⊎◌, inl, inr, refl, ap, ◌∙◌, true, false, none, some, negsuc, ℤ, arith,
}
use mapplauncherd.Booster.Process.{Scheduler, Priority, set_nice, push_priority, pop_priority}

unread_lem :
    (s : Scheduler) (n : ℤ) (p : Priority)
    → s.getpriority ≡ none
    → (push_priority s n p).1 ≡ record p { old = negsuc 0; old_ok = false }
unfolding push_priority
unread_lem s n p h = rw h

push_lem :
    (s : Scheduler) (n : ℤ) (p : Priority)
    → s.getpriority ≡ some p.nice
    → push_priority s n p ≡ set_nice s n (record p { old = p.nice; old_ok = true })
unfolding push_priority
push_lem s n p h = rw h

pop_lem :
    (s : Scheduler) (n : ℤ) (p : Priority)
    → s.setpriority p.nice ≡ true
    → (pop_priority s (set_nice s n (record p { old = p.nice; old_ok = true })).1).1.nice ≡ p.nice
unfolding pop_priority set_nice
pop_lem s n p h = ground arith

-- A booster that lowers its priority while it loads its libraries has its old one back when it waits,
-- whether or not the priority could be read and lowered, if it was read as it is and may be set again.
pub pop_priority-push_priority :
    (s : Scheduler) (n : ℤ) (p : Priority)
    → (s.getpriority ≡ none) ⊎ (s.getpriority ≡ some p.nice)
    → s.setpriority p.nice ≡ true
    → (pop_priority s (push_priority s n p).1).1.nice ≡ p.nice
pop_priority-push_priority s n p (inl none_read) h =
    ap (λ q. (pop_priority s q).1.nice) (unread_lem s n p none_read) ∙ (unfold pop_priority in refl)
pop_priority-push_priority s n p (inr read) h =
    ap (λ q. (pop_priority s q.1).1.nice) (push_lem s n p read) ∙ pop_lem s n p h
