-- ===== src/Handler/Stopping.antt =====
-- Stop of policy/handler.go: a handler's `doneCh` is closed once at most.
use nomad_autoscaler.Prelude.{◌≤◌, ◌≡◌, ◌↔◌, true, false, none, some, arith}
use nomad_autoscaler.Handler.{Handler, stop}

-- A running handler has an open `doneCh`.
pub record IsSound (h : Handler) : Type 0 where
  pub once : h.closed ≤ 1
  pub open_while_running : h.running ≡ true → h.closed ≡ 0

-- `Stop` of a sound handler panics exactly if the handler is marked as running and has no ticker yet.
pub stop-eq-none_iff :
    (h : Handler) → IsSound h → (stop h ≡ none) ↔ ((h.running ≡ true) × (h.ticker ≡ none))
unfolding stop
stop-eq-none_iff h sound =
    (λ e. ground (arith, sound.open_while_running), λ e. ground (arith, sound.open_while_running))

pub stop-IsSound : (h h' : Handler) → IsSound h → stop h ≡ some h' → IsSound h'
unfolding stop
stop-IsSound h h' sound e = ground (arith, sound.open_while_running)

pub stop-not_running : (h h' : Handler) → stop h ≡ some h' → h'.running ≡ false
unfolding stop
stop-not_running h h' e = ground arith
