-- ===== src/Daemon/Finish.antt =====
-- The end of `run` of daemon/flipper_indicator/daemon.py: when a task is done or the process is told to
-- stop, the tasks are cancelled, a failure is raised again and the socket server is stopped.
use flipper_agent_indicator.Prelude.{
  ◌≡◌, ◌↔◌, refl, ap, Bool, true, List, [], ◌∷◌, ◌++◌, Option, none, some, All,
}

-- A member of `done`: the task of the stop event, or one that returned or raised. `E` is the type of
-- exceptions.
pub data Done {ℓ} (E : Type ℓ) : Type ℓ where
  stop_task returned : Done E
  raised : E → Done E

-- The loop over `done`, in the order of its iteration.
unfoldable pub surfaced {ℓ} : {E : Type ℓ} → List (Done E) → Option E
surfaced [] = none
surfaced (stop_task ∷ done) = surfaced done
surfaced (returned ∷ done) = surfaced done
surfaced (raised e ∷ done) = some e

-- What `run` raises in the end, and whether `server.stop` was awaited.
pub record RunEnd {ℓ} (E : Type ℓ) : Type ℓ where
  pub raises : Option E
  pub server_stopped : Bool

unfoldable pub run_end {ℓ} : {E : Type ℓ} → List (Done E) → RunEnd E
unfolding surfaced
run_end done = record { raises = surfaced done; server_stopped = true }

-- A task that did not fail.
abbrev pub HasNotFailed {ℓ} : {E : Type ℓ} → Done E → Type 0
HasNotFailed stop_task = Unit
HasNotFailed returned = Unit
HasNotFailed (raised e) = ⊥

module _ {ℓ} {E : Type ℓ} (e : E) where
  -- The exception of the first failed task of a list.
  abbrev pub IsFirst : List (Done E) → Type ℓ
  IsFirst done =
      (xs : List (Done E)) × (ys : List (Done E)) × (done ≡ xs ++ raised e ∷ ys)
      × All HasNotFailed xs

  later-IsFirst :
      (t : Done E) (done : List (Done E)) → HasNotFailed t → IsFirst done → IsFirst (t ∷ done)
  later-IsFirst t done calm (xs, ys, same, quiet) =
      (t ∷ xs, ys, ap (λ l. t ∷ l) same, (calm, quiet))

  surfaced-IsFirst : (done : List (Done E)) → surfaced done ≡ some e → IsFirst done
  unfolding surfaced
  surfaced-IsFirst [] h = cc
  surfaced-IsFirst (stop_task ∷ done) h = later-IsFirst stop_task done tt (surfaced-IsFirst done h)
  surfaced-IsFirst (returned ∷ done) h = later-IsFirst returned done tt (surfaced-IsFirst done h)
  surfaced-IsFirst (raised f ∷ done) h =
      let same : f ≡ e = cc in ([], done, ap (λ g. raised g ∷ done) same, tt)

  surfaced-append :
      (xs ys : List (Done E)) → All HasNotFailed xs → surfaced (xs ++ raised e ∷ ys) ≡ some e
  unfolding surfaced
  surfaced-append [] ys h = refl
  surfaced-append (stop_task ∷ xs) ys h = surfaced-append xs ys h.1
  surfaced-append (returned ∷ xs) ys h = surfaced-append xs ys h.1
  surfaced-append (raised f ∷ xs) ys h = absurd h.0

  pub surfaced_iff : (done : List (Done E)) → (surfaced done ≡ some e) ↔ IsFirst done
  surfaced_iff done =
      (surfaced-IsFirst done, λ (xs, ys, same, quiet). rw same (surfaced-append xs ys quiet))

pub surfaced-none_iff {ℓ} :
    {E : Type ℓ} (done : List (Done E)) → (surfaced done ≡ none) ↔ All HasNotFailed done
unfolding surfaced
surfaced-none_iff [] = ((λ h. tt), (λ h. refl))
surfaced-none_iff (stop_task ∷ done) =
    let (to, from) = surfaced-none_iff done in ((λ h. (tt, to h)), (λ h. from h.1))
surfaced-none_iff (returned ∷ done) =
    let (to, from) = surfaced-none_iff done in ((λ h. (tt, to h)), (λ h. from h.1))
surfaced-none_iff (raised e ∷ done) = ((λ h. cc), (λ h. absurd h.0))

-- In the end `run` raises an exception exactly if it is that of the first done task that failed, the
-- stop event not counted, and the socket server is stopped in every case.
pub run_end_iff {ℓ} :
    {E : Type ℓ} (done : List (Done E)) (e : E)
    → (((run_end done).raises ≡ some e) ↔ IsFirst e done) × ((run_end done).server_stopped ≡ true)
unfolding run_end
run_end_iff done e = (surfaced_iff e done, refl)
