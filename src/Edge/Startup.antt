-- ===== src/Edge/Startup.antt =====
-- internal/edge/edge.go: the waits for the edge's listeners and connectors, and the ticks of
-- `logUDPCounters`.
pub mod Waiting
use quicshot.Prelude.{
  ℕ, zero, suc, ◌+◌, Bool, true, false, not, ◌&&◌, ◌||◌, String, List, [], ◌∷◌, ◌++◌, Option, none,
  some, ltb, leb, str_eq, is_empty, if◌then◌else◌,
}
use quicshot.Prelude.Int.{ℤ, pos, leb_ℤ}
use quicshot.Udpsock.{Counters, sub}
use quicshot.Blast.CfCode.{decimal}
use quicshot.Edge.Registry.{Edge, registered_locked}

-- How a wait ends; `waiting` is that the fuel is used up.
pub data Wait : Type 0 where
  done : Wait
  gave_up : Wait
  waiting : Wait

-- The loop of `WaitRegistered` from its `i`-th round on: the table and the time at the test, and whether
-- the context is done when the round ends.
unfoldable pub wait_registered : ℕ → (ℕ → Edge) → (ℕ → ℕ) → (ℕ → Bool) → ℕ → ℕ → Wait
wait_registered zero edge_at now ctx_done n i = waiting
wait_registered (suc fuel) edge_at now ctx_done n i =
    let rest = wait_registered fuel edge_at now ctx_done n (i + 1) in
    if leb n (registered_locked (edge_at i) (now i))
    then done
    else if ctx_done i
    then gave_up
    else rest

-- The loop of `StartLocal`, on whether the deadline is still ahead, whether both listeners are bound,
-- and whether `Start` has returned an error.
unfoldable pub start_local : ℕ → (ℕ → Bool) → (ℕ → Bool) → (ℕ → Bool) → ℕ → Wait
start_local zero ahead bound start_error i = waiting
start_local (suc fuel) ahead bound start_error i =
    let rest = start_local fuel ahead bound start_error (i + 1) in
    if not (ahead i)
    then gave_up
    else if bound i
    then done
    else if start_error i
    then gave_up
    else rest

-- `tcpAddrForUDP`: the text of an address that is not of UDP; else the IP's text, `none` where the IP
-- is nil or unspecified, and the port. The last argument is `net.JoinHostPort`.
pub data Addr : Type 0 where
  other_addr : List ℕ → Addr
  udp_addr : Option (List ℕ) → ℕ → Addr

abbrev pub or_blank : Option (List ℕ) → List ℕ
or_blank none = []
or_blank (some ip) = ip

unfoldable pub tcp_addr_for_udp : (List ℕ → List ℕ → List ℕ) → Addr → List ℕ
tcp_addr_for_udp join (other_addr text) = text
tcp_addr_for_udp join (udp_addr ip port) = join (or_blank ip) (decimal port)

pub data Level : Type 0 where
  info warn : Level

pub record UdpLog : Type 0 where
  pub level : Level
  pub delta : Counters
  pub total_rcvbuf_errors : ℕ

-- One tick: the line, from the counters before and those that are read, all zero where they cannot be.
unfoldable pub log_udp_tick : Counters → Counters → UdpLog
log_udp_tick prev cur =
    let d = sub cur prev in
    record {
      level =
          if ltb 0 d.rcvbuf_errors || (ltb 0 d.sndbuf_errors || ltb 0 d.in_errors)
          then warn
          else info;
      delta = d;
      total_rcvbuf_errors = cur.rcvbuf_errors;
    }

-- The lines of the ticks after the first read, each with the counters read at it. There are none where
-- the period is not positive, or the counters cannot be read at the start.
unfoldable pub log_udp_ticks : Counters → List Counters → List UdpLog
log_udp_ticks prev [] = []
log_udp_ticks prev (cur ∷ reads) = log_udp_tick prev cur ∷ log_udp_ticks cur reads

unfoldable pub log_udp_counters : ℤ → Option Counters → List Counters → List UdpLog
log_udp_counters stats_every none reads = []
log_udp_counters stats_every (some prev) reads =
    if leb_ℤ stats_every (pos 0) then [] else log_udp_ticks prev reads

-- `newRay`: the argument is the 16 hexadecimal digits of 8 random bytes, `none` where there are none;
-- else the digits of the time.
unfoldable pub new_ray : Option (List ℕ) → List ℕ → List ℕ
new_ray (some digits) time_digits = digits
new_ray none time_digits = time_digits
