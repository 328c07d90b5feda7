-- ===== src/Connector/Options/Loops.antt =====
-- internal/connector/connector.go: the loops that a command line of `quicshot connector` starts.
use quicshot.Prelude.{ℕ, ◌≡◌, ◌⊎◌, false}
use quicshot.Prelude.Int.{ℤ, pos, ◌≤ℤ◌}
use quicshot.Quiccfg.{client}
use quicshot.Connector.{or_local, register_msg, ping_period}
use quicshot.Connector.Options.{Options, Loop, Env}

-- The keep-alive of the flags, or five seconds where that is not positive.
abbrev pub PingsEvery : ℤ → ℕ → Type 0
PingsEvery keep_alive period =
    ((pos 1 ≤ℤ keep_alive) × (pos period ≡ keep_alive))
    ⊎ ((keep_alive ≤ℤ pos 0) × (period ≡ 5000000000))

-- Each loop by itself: its number among the others, and what the flags say.
pub record IsLoop (env : Env) (o : Options) (k : ℕ) (l : Loop) : Type 0 where
  -- Nothing keeps it from registering, or delays it.
  pub at_once : (l.run.skip_register ≡ false) × (l.run.register_delay ≡ pos 0)
  pub registers : register_msg l.run ≡ record {
    t = "register";
    hostname = or_local (env.text o.server_name);
    ha_id = pos k;
    reason = "";
  }
  pub dials : l.quic ≡ client o.max_idle o.keep_alive
  pub pings : PingsEvery o.keep_alive (ping_period l.ping_every)
  pub serves : (l.edge_addr ≡ o.edge_addr) × (l.origin_url ≡ o.origin_url)

-- At least one loop.
abbrev pub IsCount : ℤ → ℕ → Type 0
IsCount ha n = ((pos 1 ≤ℤ ha) × (pos n ≡ ha)) ⊎ ((ha ≤ℤ pos 0) × (n ≡ 1))
