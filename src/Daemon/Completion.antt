-- ===== src/Daemon/Completion.antt =====
-- When the input ends and the last write succeeds, the sink of
-- backend/internal/daemon/transaction_sink.go has written and acknowledged everything.
use expensor.Prelude.{List}
use expensor.Daemon.Sink.{Sink}
