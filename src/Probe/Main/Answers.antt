-- ===== src/Probe/Main/Answers.antt =====
-- internal/probe/probe.go: what the outcome of `Main` says of the network.
use quicshot.Probe.Options.{Options}
