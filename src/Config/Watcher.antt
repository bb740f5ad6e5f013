-- ===== src/Config/Watcher.antt =====
-- services/core/config/watcher.go, with the callback of services/core/main.go: the loop is driven by
-- what it receives. The file system, the parser of YAML and the timer are not part of the repository.
use rate_cap.Prelude.{
  Bool, true, false, not, ◌&&◌, String, List, [], ◌∷◌, if◌then◌else◌, ◌≡◌, ◌∙◌, sym, ap, subst,
  refl, ◌⊎◌, Bool-cases, inl, inr,
}
use rate_cap.Limiter.Pipeline.{Tiers}
use rate_cap.Config.{Config, build_tiers, Loaded, on_change}
use rate_cap.Config.Validity.{IsValid}
use rate_cap.Config.Reload.{on_change_lem}

-- An event for this file or another, the timer, with what `Load` gives then, an error, the closing
-- of a channel, or the call of `stop`.
pub data Event : Type 0 where
  file_event : Bool → Event
  timer_fired : Loaded → Event
  watch_error closed stopped : Event

-- The limiters, the labels counted, newest first, whether the timer runs, and whether the
-- goroutine has returned.
pub record Watcher : Type 0 where
  pub tiers : Tiers
  pub labels : List String
  pub timer_runs : Bool
  pub returned : Bool

abbrev pub is_timer : Event → Bool
is_timer (timer_fired _) = true
is_timer _ = false

receive : Event → Watcher → Watcher
receive (file_event ours) w = if ours then record w { timer_runs = true } else w
receive (timer_fired l) w =
    let (tiers, label) = on_change l w.tiers in
    record w { tiers = tiers; labels = label ∷ w.labels; timer_runs = false }
receive watch_error w = w
receive closed w = record w { returned = true }
receive stopped w = record w { timer_runs = false; returned = true }

-- The timer sends only if it runs, and nothing is received after the return.
unfoldable pub step : Event → Watcher → Watcher
unfolding receive
step e w = if w.returned then w else (if is_timer e && not w.timer_runs then w else receive e w)

unfoldable pub run : List Event → Watcher → Watcher
run [] w = w
run (e ∷ es) w = run es (step e w)

-- The limiters are those of some valid configuration.
abbrev pub Served : Tiers → Type 0
Served t = (c : Config) × IsValid c × (t ≡ build_tiers c)

receive-Served : (e : Event) (w : Watcher) → Served w.tiers → Served (receive e w).tiers
unfolding receive
receive-Served (file_event true) w s = s
receive-Served (file_event false) w s = s
receive-Served (timer_fired l) w (c, v, e) = elim (on_change_lem l w.tiers) [
  | inl (d, f, u, q) ↦ (d, u, ap (λ p. p.0) q)
  | inr (rejected, q) ↦ (c, v, ap (λ p. p.0) q ∙ e)
]
receive-Served watch_error w s = s
receive-Served closed w s = s
receive-Served stopped w s = s

step_cases : (e : Event) (w : Watcher) → (step e w ≡ w) ⊎ (step e w ≡ receive e w)
unfolding step
step_cases e w = elim (Bool-cases w.returned) [
  | inl r ↦ inl (simp r refl)
  | inr r ↦ elim (Bool-cases (is_timer e && not w.timer_runs)) [
    | inl t ↦ inl (simp (r, t) refl)
    | inr t ↦ inr (simp (r, t) refl)
  ]
]

-- Whatever the loop receives, the limiters are at all times those that a start with some valid
-- configuration builds, if they were so at the beginning.
pub run-Served : (es : List Event) (w : Watcher) → Served w.tiers → Served (run es w).tiers
unfolding run
run-Served [] w s = s
run-Served (e ∷ es) w s = run-Served es (step e w) (elim (step_cases e w) [
  | inl q ↦ subst (λ x. Served x.tiers) (sym q) s
  | inr q ↦ subst (λ x. Served x.tiers) (sym q) (receive-Served e w s)
])
