-- ===== src/Http1/Connection/Rated.antt =====
-- src/load/http1/http1-connection.ts: the connection as the worker's fixed rate sees it.
use benchkit.Prelude.{ℕ, ◌≡◌, Bool, true, some, ◌++◌, ◌∷◌, [], arith}
use benchkit.Load.Effects.{OwnerView}
use benchkit.Load.Rate.{RateConnection, IsRateConnection}
use benchkit.Http1.Connection.{
  WorkerData, Connection, can_schedule_operation, schedule_operation, flush_scheduled_operations,
}

module _ (d : WorkerData) (view : OwnerView) (now : ℕ) (accepts : ℕ → Bool) where
  abbrev pub rated : RateConnection Connection
  rated = record {
    can_schedule = can_schedule_operation d view now;
    schedule = schedule_operation d view now;
    flush = flush_scheduled_operations d view now accepts;
  }

  schedules :
      (at : ℕ) (c : Connection)
      → can_schedule_operation d view now c ≡ true
      → (c' : Connection) × (schedule_operation d view now at c ≡ some c')
  unfolding schedule_operation
  schedules at c h = (record c { rate_batch = c.rate_batch ++ at ∷ [] }, ground (arith, h))

  pub rated-IsRateConnection : IsRateConnection Connection rated
  rated-IsRateConnection = record { schedules = schedules }
