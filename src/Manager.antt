-- ===== src/Manager.antt =====
-- policy/manager.go: the manager's handlers and the goroutines that run them. Metrics and logging are
-- left out. `handlers` maps a policy ID to a pointer, an index into `routines`; a goroutine keeps its
-- handler when the map has lost it. Each source is stored under its own name. `none` is a panic.
pub mod Pointers
pub mod Validity
pub mod View
pub mod Listing
pub mod Ensure
pub mod Refinement
pub mod Panics
pub mod Reachability
pub mod Races
mod Tests
use nomad_autoscaler.Prelude.{
  ℕ, ◌<◌, String, str_eq, Bool, true, false, not, ◌&&◌, List, [], ◌∷◌, ◌++◌, length, get_elem?, set,
  Option, none, some, Map, lookup, insert, delete, is_some, if◌then◌else◌, ◌>>=◌, ◌≡◌, ◌≢◌,
}
use nomad_autoscaler.Handler.{
  Handler, new_handler, stop, mark_running, make_ticker, Event, done_closed, tick,
  cooldown_requested, stopped, Round, goes_on, returns, run_round,
}

-- Where the goroutine of a handler is: not scheduled yet; past the assignment of `running`; past the
-- creation of the ticker; after the loop, before the deferred `Stop`; and after `Run`, before it has
-- taken its entry out of the map.
pub data Phase : Type 0 where
  starting marked looping leaving left finished : Phase

pub record Routine : Type 0 where
  pub phase : Phase
  pub handler : Handler

pub record Manager : Type 0 where
  pub handlers : Map ℕ
  pub keep : Map Bool
  pub routines : List Routine

unfoldable pub new_manager : Manager
new_manager = record { handlers = []; keep = []; routines = [] }

unfoldable pub create : String → String → Manager → Manager
unfolding new_handler
create id source m = record m {
  handlers = insert id (length m.routines) m.handlers;
  routines = m.routines ++ record { phase = starting; handler = new_handler id source } ∷ [];
}

-- The body of the loop over the listed IDs.
unfoldable pub ensure : String → String → Manager → Manager
unfolding create
ensure source id m =
    let m' : Manager = record m { keep = insert id true m.keep } in
    if is_some (lookup id m'.handlers) then m' else create id source m'

unfoldable pub ensure_all : String → List String → Manager → Manager
ensure_all source [] m = m
ensure_all source (id ∷ ids) m = ensure_all source ids (ensure source id m)

unfoldable pub stop_handler : ℕ → Manager → Option Manager
unfolding stop
stop_handler a m = do
  r ← get_elem? m.routines a
  h ← stop r.handler
  some (record m {
    routines = set m.routines a (record r { handler = h });
    handlers = delete h.policy_id m.handlers;
  })

unfoldable pub kept : String → Manager → Bool
kept id m = is_some (lookup id m.keep)

-- The body of the loop over the entries of `handlers`. An entry that was removed is not visited.
unfoldable pub visit_entry : String → String → ℕ → Manager → Option Manager
unfolding kept stop_handler
visit_entry source k a m = do
  r ← get_elem? m.routines a
  if not (kept k m) && str_eq r.handler.source source then stop_handler a m else some m

unfoldable pub visit : String → String → Manager → Option Manager
unfolding visit_entry
visit source k m = elim (lookup k m.handlers) [ none ↦ some m | some a ↦ visit_entry source k a m ]

unfoldable pub visit_all : String → List String → Manager → Option Manager
visit_all source [] m = some m
visit_all source (k ∷ ks) m = visit source k m >>= (λ m'. visit_all source ks m')

unfoldable pub keys {ℓ} : {V : Type ℓ} → Map V → List String
keys [] = []
keys ((k, v) ∷ rest) = k ∷ keys rest

-- The manager receives the policy IDs of a source.
unfoldable pub reconcile : String → List String → Manager → Option Manager
unfolding ensure_all visit_all keys
reconcile source ids m =
    let m' = ensure_all source ids (record m { keep = [] }) in
    visit_all source (keys m'.handlers) m'

unfoldable pub stop_entry : String → Manager → Option Manager
unfolding stop_handler
stop_entry k m = elim (lookup k m.handlers) [ none ↦ some m | some a ↦ stop_handler a m ]

unfoldable pub stop_entries : List String → Manager → Option Manager
unfolding stop_entry
stop_entries [] m = some m
stop_entries (k ∷ ks) m = stop_entry k m >>= (λ m'. stop_entries ks m')

unfoldable pub stop_handlers : Manager → Option Manager
unfolding stop_entries keys
stop_handlers m = stop_entries (keys m.handlers) m

-- After an unrecoverable error, before the manager runs again.
unfoldable pub restart : Manager → Option Manager
unfolding stop_handlers
restart m = stop_handlers m >>= (λ m'. some (record m' { handlers = [] }))

unfoldable pub after_round : Round × Handler → Routine
after_round (goes_on sent, h) = record { phase = looping; handler = h }
after_round (returns, h) = record { phase = leaving; handler = h }

-- One step of `Run` in the handler's goroutine.
unfoldable pub advance : Event → Phase → Handler → Option Routine
unfolding mark_running make_ticker run_round after_round stop
advance e starting h = some (record { phase = marked; handler = mark_running h })
advance e marked h = some (record { phase = looping; handler = make_ticker h })
advance e looping h = run_round e h >>= (λ w. some (after_round w))
advance e leaving h = stop h >>= (λ h'. some (record { phase = left; handler = h' }))
advance e left h = none
advance e finished h = none

-- What a handler cannot receive: a signal of `doneCh` while that is open.
abbrev pub CanReceive : Event → Handler → Type 0
CanReceive done_closed h = 0 < h.closed
CanReceive (tick env now stopped) h = 0 < h.closed
CanReceive (cooldown_requested t stopped) h = 0 < h.closed
CanReceive _ h = Unit

-- The goroutine's last lines: it takes the entry of its ID out of the map.
unfoldable pub forget : ℕ → Routine → Manager → Manager
forget a r m = record m {
  routines = set m.routines a (record r { phase = finished });
  handlers = delete r.handler.policy_id m.handlers;
}

-- The manager's loop and the goroutines, in any order. The lock makes each case one step.
pub data Step (m m' : Manager) : Type 0 where
  listed : (source : String) (ids : List String) → reconcile source ids m ≡ some m' → Step m m'
  restarted : restart m ≡ some m' → Step m m'
  advanced :
      (a : ℕ) (r r' : Routine) (e : Event)
      → get_elem? m.routines a ≡ some r
      → CanReceive e r.handler
      → advance e r.phase r.handler ≡ some r'
      → m' ≡ record m { routines = set m.routines a r' }
      → Step m m'
  forgotten :
      (a : ℕ) (r : Routine)
      → get_elem? m.routines a ≡ some r
      → r.phase ≡ left
      → m' ≡ forget a r m
      → Step m m'

pub data Reach : Manager → Type 0 where
  fresh : Reach new_manager
  next : {m m' : Manager} → Reach m → Step m m' → Reach m'
