-- ===== src/Hrc/System/Current.antt =====
-- The current task of a worker, through the steps of all.
use my_lpel.Common.{
  ℕ, ◌<◌, ◌≡◌, ◌≢◌, refl, ◌∙◌, true, ◌==◌, update, update-all, Bool-cases, ==-true, inl, inr, Ptr,
}
use my_lpel.Hrc.Threads.{Context}
use my_lpel.Hrc.System.{Phase}
use my_lpel.Hrc.System.Sound.{is_inside, task_on, Currents}

-- a worker moves, and its context only changes
pub Currents-move :
    {n : ℕ} {context context' : Ptr → Context} {workers : ℕ → Ptr} {phase : ℕ → Phase}
    → (i : ℕ) (p : Phase) → i < n
    → ((j l : ℕ) → j < n → l < n → workers j ≡ workers l → j ≡ l)
    → ((q : Ptr) → q ≢ workers i → (context' q).current_task ≡ (context q).current_task)
    → (is_inside p ≡ true → (context' (workers i)).current_task ≡ task_on p)
    → Currents n context workers phase
    → Currents n context' workers (update phase i p)
Currents-move {n} {context} {context'} {workers} {phase} i p inside apart other here v = record {
  task =
      update-all
        (λ j q. j < n → is_inside q ≡ true → (context' (workers j)).current_task ≡ task_on q) phase
        i p (λ h. here)
        λ j ne h a. other (workers j) (λ e. ne (apart j i h inside e)) ∙ v.task j h a;
}

-- contexts with the same current tasks
pub Currents-same :
    {n : ℕ} {context context' : Ptr → Context} {workers : ℕ → Ptr} {phase : ℕ → Phase}
    → ((q : Ptr) → (context' q).current_task ≡ (context q).current_task)
    → Currents n context workers phase
    → Currents n context' workers phase
Currents-same {workers} same v = record { task = λ i h a. same (workers i) ∙ v.task i h a }

-- one context changes, but not its current task
pub same_current :
    (context : Ptr → Context) (p : Ptr) (x : Context)
    → x.current_task ≡ (context p).current_task
    → (q : Ptr) → (update context p x q).current_task ≡ (context q).current_task
same_current context p x same q = elim (Bool-cases (q == p)) [
  | inl e ↦ rw (e, ==-true q p e) same
  | inr ne ↦ rw ne refl
]
