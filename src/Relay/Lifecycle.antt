-- ===== src/Relay/Lifecycle.antt =====
-- Start, Stop and Wait of internal/outbox/relay.go.
use arvan.Prelude.{
  ℕ, suc, ◌-◌, ◌+◌, ◌≡◌, ◌⊎◌, refl, Bool, true, false, Option, none, some, List, [], ◌∷◌, ◌==◌,
  arith, if◌then◌else◌,
}

-- The counter of wg, and whether stopCh is closed.
pub record Lifecycle : Type 0 where
  pub running : ℕ
  pub stopped : Bool

-- NewRelay
unfoldable pub new_lifecycle : Lifecycle
new_lifecycle = record { running = 0; stopped = false }

unfoldable pub start : Lifecycle → Lifecycle
start r = record r { running = suc r.running }

-- The loop of a goroutine returned: wg.Done().
unfoldable pub loop_returned : Lifecycle → Lifecycle
loop_returned r = record r { running = r.running - 1 }

-- A channel that is closed already cannot be closed: the second Stop panics.
unfoldable pub stop : Lifecycle → Option Lifecycle
stop r = if r.stopped then none else some (record r { stopped = true })

-- Wait returns where no goroutine is left.
unfoldable pub wait_returns : Lifecycle → Bool
wait_returns r = r.running == 0

-- What happens to a relay, a return of the loop only where one runs.
pub data Event : Type 0 where
  starts stops returns : Event

unfoldable pub step : Event → Lifecycle → Option Lifecycle
unfolding start stop loop_returned
step starts r = some (start r)
step stops r = stop r
step returns r = if r.running == 0 then none else some (loop_returned r)

abbrev pub then_run : (Lifecycle → Option Lifecycle) → Option Lifecycle → Option Lifecycle
then_run rest none = none
then_run rest (some r) = rest r

abbrev pub run : List Event → Lifecycle → Option Lifecycle
run [] r = some r
run (e ∷ es) r = then_run (run es) (step e r)

-- How many loops were started and have not returned, by the events.
abbrev pub starts_of : List Event → ℕ
starts_of [] = 0
starts_of (starts ∷ es) = suc (starts_of es)
starts_of (_ ∷ es) = starts_of es

abbrev pub returns_of : List Event → ℕ
returns_of [] = 0
returns_of (returns ∷ es) = suc (returns_of es)
returns_of (_ ∷ es) = returns_of es

then_run-step :
    (e : Event) (es : List Event) (r u : Lifecycle) (o : Option Lifecycle)
    → step e r ≡ o
    → then_run (run es) o ≡ some u
    → (q : Lifecycle) × (step e r ≡ some q) × (run es q ≡ some u)
then_run-step e es r u none h k = absurd (ground (arith, k))
then_run-step e es r u (some q) h k = (q, h, k)

-- In every run, wg counts the loops that were started and have not returned.
pub run-running :
    (es : List Event) (r u : Lifecycle)
    → run es r ≡ some u
    → u.running + returns_of es ≡ r.running + starts_of es
unfolding step start stop loop_returned
run-running [] r u h = ground (arith, h)
run-running (starts ∷ es) r u h =
    let (q, s, k) = then_run-step starts es r u (step starts r) refl h in
    ground (arith, s, run-running es q u k)
run-running (stops ∷ es) r u h =
    let (q, s, k) = then_run-step stops es r u (step stops r) refl h in
    ground (arith, s, run-running es q u k)
run-running (returns ∷ es) r u h =
    let (q, s, k) = then_run-step returns es r u (step returns r) refl h in
    ground (arith, s, run-running es q u k)

-- Wait returns exactly where every loop that was started has returned.
pub run-waits :
    (es : List Event) (u : Lifecycle)
    → run es new_lifecycle ≡ some u
    → ((wait_returns u ≡ true) × (returns_of es ≡ starts_of es))
      ⊎ ((wait_returns u ≡ false) × (u.running + returns_of es ≡ starts_of es))
unfolding wait_returns new_lifecycle
run-waits es u h = ground (arith, run-running es new_lifecycle u h)
