-- ===== src/Quiccfg.antt =====
-- internal/quiccfg/quiccfg.go and internal/qlogtrace/qlogtrace.go: the QUIC configuration of each hop.
-- Durations are nanoseconds.
use quicshot.Prelude.{
  ℕ, Bool, true, false, List, [], ◌∷◌, Option, none, some, is_empty, if◌then◌else◌,
}
use quicshot.Prelude.Int.{ℤ, pos}

-- RFC 9000 and RFC 9369.
pub data Version : Type 0 where
  version1 version2 : Version

pub record QuicConfig : Type 0 where
  pub max_idle_timeout : ℤ
  pub keep_alive_period : ℤ
  pub enable_datagrams : Bool
  pub versions : List Version
  pub allow_0rtt : Bool
  -- 0 leaves the number to quic-go.
  pub max_incoming_streams : ℤ
  pub traced : Bool

unfoldable pub base : ℤ → ℤ → QuicConfig
base max_idle keep_alive = record {
  max_idle_timeout = max_idle;
  keep_alive_period = keep_alive;
  enable_datagrams = true;
  versions = version1 ∷ version2 ∷ [];
  allow_0rtt = false;
  max_incoming_streams = pos 0;
  traced = false;
}

unfoldable pub client : ℤ → ℤ → QuicConfig
unfolding base
client max_idle keep_alive = record (base max_idle keep_alive) { versions = version1 ∷ [] }

unfoldable pub server : ℤ → ℤ → QuicConfig
unfolding base
server max_idle keep_alive = record (base max_idle keep_alive) { allow_0rtt = true }

-- `Configure`; the first two arguments are whether the directory can be made and the variable be set.
-- `none` is an error.
unfoldable pub configure : Bool → Bool → QuicConfig → List ℕ → Option QuicConfig
configure makes sets conf dir =
    if is_empty dir
    then some conf
    else if makes
    then (if sets then some (record conf { traced = true }) else none)
    else none
