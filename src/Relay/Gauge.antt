-- ===== src/Relay/Gauge.antt =====
-- internal/observability/outbox_metrics.go: the gauge of the pending events.
use arvan.Prelude.{ℕ, ◌≡◌, refl, List, [], ◌∷◌, if◌then◌else◌}
use arvan.Prelude.Int.{ℤ, pos, leb_ℤ}
use arvan.Prelude.Lists.{count}
use arvan.Domain.{Result, ok, err}
use arvan.Database.{done, Env, Session, Exec, pure, attempt, ◌>>=◌}
use arvan.Repository.OutboxRelay.{count_pending}
use arvan.Relay.{Woken, ticked}
use arvan.Relay.Drain.Rows.{is_open}
use arvan.Relay.Drain.Event.{statement-done}

-- NewOutboxMetricsReporter: an interval that is not positive is replaced.
unfoldable pub reporter_interval : ℤ → ℤ
reporter_interval interval = if leb_ℤ interval (pos 0) then pos 15000000000 else interval

-- The gauge, behind what CountPending answered.
unfoldable pub gauge_after : ℕ → Result ℕ → ℕ
gauge_after gauge (ok n) = n
gauge_after gauge (err e) = gauge

module _ (env : Env) where
  -- reportOnce, from one value of the gauge to the next.
  unfoldable pub report_once : ℕ → Exec ℕ
  report_once gauge = attempt (count_pending env) >>= λ r. pure (gauge_after gauge r)

  -- Run, by what its select receives after each report.
  unfoldable pub run : List Woken → ℕ → Exec ℕ
  run [] gauge = report_once gauge
  run (ticked ∷ rest) gauge = report_once gauge >>= run rest
  run (_ ∷ rest) gauge = report_once gauge

-- Where the statement is done, the gauge is the number of pending rows.
pub report_once-count :
    (env : Env) (gauge : ℕ) (s : Session)
    → ((n : ℕ) → env.outcome n ≡ done)
    → (report_once env gauge s).0 ≡ ok (count is_open s.tables.outbox_events)
unfolding report_once count_pending gauge_after
report_once-count env gauge s all_done =
    rw (statement-done env all_done (λ t. (ok (count is_open t.outbox_events), t)) s) refl
