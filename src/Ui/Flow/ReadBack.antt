-- ===== src/Ui/Flow/ReadBack.antt =====
-- internal/blast/blast.go and internal/ui/ui.go together: the lines that blast prints for its totals,
-- lost connections and protocols, and what the panel's regexps read from them.
pub mod Lines
use mathlib.Core.List.{append_assoc, append-nil}
use quicshot.Prelude.{
  ℕ, ◌+◌, ◌≤◌, ◌≡◌, ◌≢◌, refl, subst, ap, ◌∙◌, true, false, List, [], ◌∷◌, ◌++◌, Option, none, some,
  length, drop, Option-cases, sym, ◌==◌, Bool-cases, inl, inr, arith,
}
use quicshot.Prelude.Int.{ℤ, pos, negsuc, sub_ℕ}
use quicshot.Prelude.Bytes.{codes, is_digit, is_prefix, bytes_eq}
use quicshot.Prelude.Bytes.{bytes_key}
use quicshot.Prelude.Maps.{insert}
use quicshot.Blast.CfCode.{decimal, itoa, leading_digits, after_prefix, digits_here, max_int, atoi}
use quicshot.Blast.CfCode.RoundTrip.{
  AllDigits, decimal-AllDigits, decimal_nonempty, digits_value-decimal, leading_digits-append,
  digits_here_found,
}
use quicshot.Blast.Config.{trim_space, trim_left, trim_right, keep_front}
use quicshot.Udpsock.{Counters, sub}
use quicshot.Blast.Recorder.{Recorder}
use quicshot.Blast.Summary.{
  Progress, progress_tick, udp_text, progress_text, conn_drops_line, proto_line, count_line,
  pad_right,
}
use quicshot.Ui.Flow.Parse.{
  blast_total, total_here, fail_here, then_digits, paired, number_behind, conn_drops_of,
  protocol_of, skip_blanks,
}
use quicshot.Ui.Flow.{
  FlowState, BlastEvent, totals_seen, drops_or, protocol_seen, observe_blast, observe_blast_line,
}
use Lines.{
  version, blast_total-progress_text, conn_drops_of-line, protocol_of-line,
  conn_drops_of-proto_line,
}

observe_blast-progress_text :
    (unmarshal : List ℕ → Option BlastEvent) (f : FlowState) (req fail : ℕ) (dr df : ℤ) (omit : ℕ)
    (s : List ℕ)
    → req ≤ max_int
    → fail ≤ max_int
    → observe_blast unmarshal f (progress_text dr df req fail omit ++ s)
      ≡ record f { client_req = req; client_fail = fail }
unfolding observe_blast progress_text is_prefix
observe_blast-progress_text unmarshal f req fail dr df omit s h k =
    ap (totals_seen f) (blast_total-progress_text dr df req fail omit s h k)

-- Each line that `progress` prints, with or without the kernel's counters, sets the panel's numbers of
-- requests and failures to those of the recorder at that tick, and nothing else, also where a
-- difference in the line is negative.
pub observe_blast-progress_tick :
    (unmarshal : List ℕ → Option BlastEvent) (f : FlowState) (r : Recorder) (cur : Counters)
    (p : Progress)
    → r.requests ≤ max_int
    → r.failures ≤ max_int
    → observe_blast unmarshal f (progress_tick r cur p).0
      ≡ record f { client_req = r.requests; client_fail = r.failures }
unfolding progress_tick
observe_blast-progress_tick unmarshal f r cur p h k =
    let text =
      progress_text (sub_ℕ r.requests p.prev_req) (sub_ℕ r.failures p.prev_fail) r.requests
        r.failures r.omitted in
    elim (Option-cases p.prev_udp) [
      | inl e ↦ rw e (
          ap (observe_blast unmarshal f) (sym (append-nil text))
          ∙ observe_blast-progress_text unmarshal f r.requests r.failures
              (sub_ℕ r.requests p.prev_req) (sub_ℕ r.failures p.prev_fail) r.omitted [] h k)
      | inr (prev, e) ↦ rw e (
          observe_blast-progress_text unmarshal f r.requests r.failures
            (sub_ℕ r.requests p.prev_req) (sub_ℕ r.failures p.prev_fail) r.omitted
            (udp_text (sub cur prev)) h k)
    ]

-- Of the report's lines, the one of the lost connections sets the panel's number of them, and the one
-- of an HTTP version sets the panel's count of that version, whether it is marked as not HTTP/3 or not.
observe_blast-summary :
    (unmarshal : List ℕ → Option BlastEvent) (f : FlowState) (drops a b n : ℕ)
    → drops ≤ max_int
    → n ≤ max_int
    → is_digit a ≡ true
    → is_digit b ≡ true
    → (observe_blast unmarshal f (conn_drops_line drops) ≡ record f { conn_drops_total = drops })
      × (observe_blast unmarshal f (proto_line (version a b) n)
          ≡ record f { protos = insert (version a b) n f.protos })
unfolding observe_blast observe_blast_line is_prefix conn_drops_line proto_line count_line pad_right
observe_blast-summary unmarshal f drops a b n h k da db = (
  ap (drops_or f (conn_drops_line drops)) (conn_drops_of-line drops h),
  ap (drops_or f (proto_line (version a b) n)) (conn_drops_of-proto_line a b n)
      ∙ ap (protocol_seen f) (protocol_of-line a b n da db k),
)
