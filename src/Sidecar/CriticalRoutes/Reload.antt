-- ===== src/Sidecar/CriticalRoutes/Reload.antt =====
-- Which set the loop of `Watch` serves (services/sidecar/criticalroutes/criticalroutes.go).
use rate_cap.Prelude.{
  List, [], ◌∷◌, none, some, ◌≡◌, ◌⊎◌, refl, ◌∙◌, sym, subst, Bool-cases, inl, inr, arith,
}
use rate_cap.Sidecar.CriticalRoutes.{
  Routes, Event, file_event, timer_fired, watch_error, closed, stopped, Watcher, receive, step, run,
}

-- The sets that a load at the timer gave.
abbrev pub Loads : Routes → List Event → Type 0
Loads r [] = ⊥
Loads r (timer_fired none ∷ es) = Loads r es
Loads r (timer_fired (some routes) ∷ es) = (routes ≡ r) ⊎ Loads r es
Loads r (_ ∷ es) = Loads r es

later : (r : Routes) (e : Event) (es : List Event) → Loads r es → Loads r (e ∷ es)
later r (file_event ours) es h = h
later r (timer_fired none) es h = h
later r (timer_fired (some routes)) es h = inr h
later r watch_error es h = h
later r closed es h = h
later r stopped es h = h

step-Loads :
    (e : Event) (es : List Event) (w : Watcher)
    → ((step e w).routes ≡ w.routes) ⊎ Loads (step e w).routes (e ∷ es)
unfolding step receive
step-Loads (file_event ours) es w = inl (ground arith)
step-Loads (timer_fired none) es w = inl (ground arith)
step-Loads (timer_fired (some routes)) es w = elim (Bool-cases w.returned) [
  | inl e ↦ inl (ground arith)
  | inr e ↦ elim (Bool-cases w.timer_runs) [
    | inl t ↦ inr (inl (ground arith))
    | inr t ↦ inl (ground arith)
  ]
]
step-Loads watch_error es w = inl (ground arith)
step-Loads closed es w = inl (ground arith)
step-Loads stopped es w = inl (ground arith)

-- Whatever the loop receives, the set that it serves is the one loaded at the start or one that a
-- later load gave as a whole: a failed load, another file and an error keep the last good set.
pub run-Loads :
    (es : List Event) (w : Watcher) → ((run es w).routes ≡ w.routes) ⊎ Loads (run es w).routes es
unfolding run
run-Loads [] w = inl refl
run-Loads (e ∷ es) w = elim (run-Loads es (step e w)) [
  | inl q ↦ elim (step-Loads e es w) [
    | inl p ↦ inl (q ∙ p)
    | inr p ↦ inr (subst (λ r. Loads r (e ∷ es)) (sym q) p)
  ]
  | inr l ↦ inr (later (run es (step e w)).routes e es l)
]
