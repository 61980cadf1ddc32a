-- ===== src/Daemon/Orders.antt =====
-- The order in which the ends of the processes come does not matter (taskmasterd/src/jobs/JobManager.cpp).
use mathlib.Core.List.{Permᴰ}
use task_master.Base.{List, ◌∷◌, ◌≡◌, refl, subst, ◌∙◌, arith, All}
use task_master.Base.Int.{int_key}
use task_master.Base.Text.{Text, text_key}
use task_master.Base.Assoc.{lookup}
use task_master.Daemon.{Hub}
use task_master.Daemon.Ending.{IsStopping}
use task_master.Daemon.Coming.{Exit, IsComing, IsApart, AreApart, Left, ends_of}
use task_master.Process.{Process}

All_reordered : {A : Type 0} (P : A → Type 0) (xs ys : List A) → Permᴰ xs ys → All P xs → All P ys
All_reordered P _ _ Permᴰ.nil h = tt
All_reordered P (x ∷ xs) (y ∷ ys) (Permᴰ.cons e d) h = (subst P e h.0, All_reordered P xs ys d h.1)
All_reordered P _ _ (Permᴰ.swap e f) h = (subst P f h.1.0, (subst P e h.0, h.1.1))
All_reordered P xs ys (Permᴰ.trans {l₂ = zs} d e) h =
    All_reordered P zs ys e (All_reordered P xs zs d h)

turned-IsApart : (p q : Process) → IsApart p q → IsApart q p
turned-IsApart p q h = record {
  names = ground (arith, text_key.same_iff p.name q.name, text_key.same_iff q.name p.name, h.names);
  pidfds = ground (arith, int_key.same_iff p.fd q.fd, int_key.same_iff q.fd p.fd, h.pidfds);
  timers = h.timers_back;
  timers_back = h.timers;
}

reordered-AreApart : (es fs : List Exit) → Permᴰ es fs → AreApart es → AreApart fs
reordered-AreApart _ _ Permᴰ.nil h = tt
reordered-AreApart (e ∷ es) (f ∷ fs) (Permᴰ.cons p d) h = (
  All_reordered (λ (x : Exit). IsApart f.1 x.1) es fs d
      (subst (λ (y : Exit). All (λ (x : Exit). IsApart y.1 x.1) es) p h.0),
  reordered-AreApart es fs d h.1,
)
reordered-AreApart (a ∷ b ∷ l) (a' ∷ b' ∷ _) (Permᴰ.swap p q) h =
    subst (λ (y : Exit). AreApart (y ∷ b' ∷ l)) q
      (subst (λ (y : Exit). AreApart (b ∷ y ∷ l)) p
        ((turned-IsApart a.1 b.1 h.0.0, h.1.0), (h.0.1, h.1.1)))
reordered-AreApart es fs (Permᴰ.trans {l₂ = gs} d e) h =
    reordered-AreApart gs fs e (reordered-AreApart es gs d h)

ends_of_reordered :
    (name : Text) (es fs : List Exit) → Permᴰ es fs → ends_of name es ≡ ends_of name fs
ends_of_reordered name _ _ Permᴰ.nil = refl
ends_of_reordered name (e ∷ es) (f ∷ fs) (Permᴰ.cons p d) =
    rw (p, ends_of_reordered name es fs d) refl
ends_of_reordered name (a ∷ b ∷ l) (a' ∷ b' ∷ _) (Permᴰ.swap p q) = rw (p, q) (ground arith)
ends_of_reordered name es fs (Permᴰ.trans {l₂ = gs} d e) =
    ends_of_reordered name es gs d ∙ ends_of_reordered name gs fs e

-- The daemon waits for the same ends in any order.
pub reordered-IsStopping :
    (h : Hub) (es fs : List Exit) → Permᴰ es fs → IsStopping h es → IsStopping h fs
reordered-IsStopping h es fs d s = record {
  coming = All_reordered (IsComing h) es fs d s.coming;
  apart = reordered-AreApart es fs d s.apart;
  left = λ name.
      subst (λ n. Left h.manager.config n (lookup name h.manager.jobs))
        (ends_of_reordered name es fs d) (s.left name);
}
