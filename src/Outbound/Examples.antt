-- ===== src/Outbound/Examples.antt =====
-- A history of the outbound queue.
use at_work_central_factory.Common.{ℕ, ◌≡◌, true, [], ◌∷◌}
use at_work_central_factory.Outbound.{Outbound, idle, enqueue, complete}
use at_work_central_factory.Outbound.Fifo.{
  Run, start, send, written, Fifo, Run-Fifo, drain, Run-drain,
}

abbrev busy : Outbound ℕ
busy = record { queue = 9 ∷ []; active = true }

-- 7, 8 and 9 are sent; the write of 7 completes.
history : Run busy (7 ∷ 8 ∷ 9 ∷ []) (7 ∷ 8 ∷ []) 1
unfolding enqueue complete
history = written (send 9 (send 8 (send 7 start)))

Run-Fifo_example : Fifo busy (7 ∷ 8 ∷ 9 ∷ []) (7 ∷ 8 ∷ []) 1
Run-Fifo_example = Run-Fifo history

Run-drain_example : drain 2 busy (7 ∷ 8 ∷ []) ≡ (idle, 7 ∷ 8 ∷ 9 ∷ [])
Run-drain_example = Run-drain history
