-- ===== src/Ui/Streaming.antt =====
-- internal/ui/ui.go: `log` and what feeds it, `scan`, `runStreaming` and `tailLogs`. A line is a list of
-- bytes; the clock is read once for a line.
pub mod Accounts
mod Tests
use quicshot.Prelude.{
  ℕ, ◌+◌, Bool, true, false, String, List, [], ◌∷◌, ◌++◌, map, Option, none, some, ltb, length,
  if◌then◌else◌,
}
use quicshot.Prelude.Bytes.{codes}
use quicshot.Blast.Config.{split}
use quicshot.Udpsock.{drop_cr}
use quicshot.Ui.Flow.{FlowState, BlastEvent, observe}
use quicshot.Ui.RateLimit.{Rate, allow}

-- What a line changes: the counters of the diagram, and the budgets of the sources.
pub record Panel : Type 0 where
  pub flow : FlowState
  pub rate : Rate

-- A message to the browsers: a line, or the number of lines that were suppressed.
pub data Msg : Type 0 where
  line_msg : String → List ℕ → Msg
  note_msg : String → ℕ → Msg

pub record Line : Type 0 where
  pub src : String
  pub text : List ℕ
  pub now : ℕ

abbrev pub note_of : String → Option ℕ → List Msg
note_of src none = []
note_of src (some n) = note_msg src n ∷ []

abbrev pub line_if : Bool → Line → List Msg
line_if true l = line_msg l.src l.text ∷ []
line_if false l = []

-- The first argument is that of `observe`.
unfoldable pub log : (List ℕ → Option BlastEvent) → Panel → Line → Panel × List Msg
log unmarshal p l =
    let (shown, note, rate) = allow p.rate l.src l.now in
    (
      record { flow = observe unmarshal p.flow l.src l.text; rate = rate },
      note_of l.src note ++ line_if shown l,
    )

abbrev pub more_msgs : List Msg → Panel × List Msg → Panel × List Msg
more_msgs ms (p, later) = (p, ms ++ later)

unfoldable pub log_all : (List ℕ → Option BlastEvent) → Panel → List Line → Panel × List Msg
log_all unmarshal p [] = (p, [])
log_all unmarshal p (l ∷ ls) =
    more_msgs (log unmarshal p l).1 (log_all unmarshal (log unmarshal p l).0 ls)

-- The buffer of `scan`'s scanner.
abbrev pub max_line : ℕ
max_line = 1048576

abbrev pub too_long : List (List ℕ)
too_long = codes "scan error: bufio.Scanner: token too long" ∷ []

abbrev pub last_text : List ℕ → List (List ℕ)
last_text [] = []
last_text (c ∷ s) = drop_cr (c ∷ s) ∷ []

-- The texts that `scan` logs, of what stands between the line ends: it gives up at a line that the
-- buffer does not hold. `reader_err` is the error that the reader ends with, if it is not the end of
-- the file.
unfoldable pub scan_texts : Option (List ℕ) → List (List ℕ) → List (List ℕ)
scan_texts reader_err [] = []
scan_texts none (l ∷ []) = if ltb (length l) max_line then last_text l else too_long
scan_texts (some e) (l ∷ []) =
    if ltb (length l) max_line then last_text l ++ ((codes "scan error: " ++ e) ∷ []) else too_long
scan_texts reader_err (l ∷ k ∷ ls) =
    let rest = scan_texts reader_err (k ∷ ls) in
    if ltb (length l) max_line then drop_cr l ∷ rest else too_long

unfoldable pub scan : Option (List ℕ) → List ℕ → List (List ℕ)
scan reader_err output = scan_texts reader_err (split 10 output)

-- What becomes of a child process: the pipe or the start fails, or it writes its output, on which its
-- error output stands, too, and ends with or without an error.
pub data Child : Type 0 where
  no_pipe : List ℕ → Child
  not_started : List ℕ → Child
  ran : List ℕ → Option (List ℕ) → Child

-- `runStreaming`: the texts that are logged, and the error.
unfoldable pub run_streaming : Child → List (List ℕ) × Option (List ℕ)
run_streaming (no_pipe e) = ([], some e)
run_streaming (not_started e) = ([], some e)
run_streaming (ran output wait_err) = (scan none output, wait_err)

-- One round of `tailLogs`.
unfoldable pub tail_round : Child → List (List ℕ)
tail_round (no_pipe e) = []
tail_round (not_started e) = []
tail_round (ran output wait_err) = scan none output
