-- ===== src/Projects/Recurrence/Sweep/Fresh.antt =====
-- Ids that no project has yet, in recurrence.ts.
use amc_system.Base.{
  ℕ, suc, ◌≤◌, ◌<◌, ◌≡◌, refl, ap, sym, subst, false, List, [], ◌∷◌, push, All, All-append, arith,
}
use amc_system.Base.Text.{Text, eq_text}
use amc_system.Projects.Project.State.{ProjectSnapshot}
use amc_system.Projects.Recurrence.Sweep.{Tables, put_project}

-- The generator never gives the same id again.
abbrev pub AreDistinct : (ℕ → Text) → Type 0
AreDistinct id_at = (m n : ℕ) → m < n → eq_text (id_at m) (id_at n) ≡ false

-- No project has an id that is still to be given out.
abbrev pub IsFresh : (ℕ → Text) → Tables → Type 0
IsFresh id_at t = (n : ℕ) → t.issued ≤ n → All (λ p. eq_text p.id (id_at n) ≡ false) t.projects

-- A project with a new id is added behind the others.
pub put_project-push :
    (p : ProjectSnapshot) (ps : List ProjectSnapshot)
    → All (λ q. eq_text q.id p.id ≡ false) ps
    → put_project p ps ≡ push ps p
unfolding put_project
put_project-push p [] h = refl
put_project-push p (q ∷ qs) h = rw h.0 (ap (λ rest. q ∷ rest) (put_project-push p qs h.1))

pub push-IsFresh :
    (id_at : ℕ → Text) (p : ProjectSnapshot) (t : Tables)
    → AreDistinct id_at
    → p.id ≡ id_at t.issued
    → IsFresh id_at t
    → IsFresh id_at (record t { projects = push t.projects p; issued = suc t.issued })
push-IsFresh id_at p t distinct e fresh = λ n h.
    All-append (λ q. eq_text q.id (id_at n) ≡ false) t.projects (p ∷ []) (fresh n (omega arith))
      (subst (λ i. eq_text i (id_at n) ≡ false) (sym e) (distinct t.issued n (omega arith)), tt)
