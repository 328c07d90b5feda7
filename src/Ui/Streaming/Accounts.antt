-- ===== src/Ui/Streaming/Accounts.antt =====
-- internal/ui/ui.go, `log`: the lines of all sources, interleaved, on their way into the diagram and to
-- the browsers.
use quicshot.Prelude.{
  one, ℕ, ◌+◌, ◌≡◌, refl, ◌∙◌, ap, Bool, true, false, String, List, [], ◌∷◌, ◌++◌, Option, none,
  some, eq_iff, str_eq, arith, inl, inr, Bool-cases, if◌then◌else◌,
}
use quicshot.Prelude.Maps.{lookup, insert, lookup-insert, string_key, or_zero}
use quicshot.Ui.Flow.{FlowState, BlastEvent, observe}
use quicshot.Ui.RateLimit.{Bucket, Rate, Allowed, allow, take_line, bucket_or_new}
use quicshot.Ui.RateLimit.Budget.{take_line-adds}
use quicshot.Ui.Streaming.{Panel, Msg, line_msg, note_msg, Line, note_of, line_if, log, log_all}

-- How many lines came from a source, how many messages are its lines, the sum of its notes, and what
-- its bucket holds for the next note.
abbrev pub came : String → List Line → ℕ
came src [] = 0
came src (l ∷ ls) = one (str_eq l.src src) + came src ls

abbrev pub shown : String → List Msg → ℕ
shown src [] = 0
shown src (line_msg s t ∷ ms) = one (str_eq s src) + shown src ms
shown src (note_msg s n ∷ ms) = shown src ms

abbrev pub noted : String → List Msg → ℕ
noted src [] = 0
noted src (line_msg s t ∷ ms) = noted src ms
noted src (note_msg s n ∷ ms) = (if str_eq s src then n else 0) + noted src ms

abbrev pub overflow_of : Option Bucket → ℕ
overflow_of none = 0
overflow_of (some b) = b.suppressed

unfoldable pub pending : String → Rate → ℕ
pending src rate = overflow_of (lookup src rate)

-- The lines with their texts, as the diagram sees them.
unfoldable pub observe_all : (List ℕ → Option BlastEvent) → FlowState → List Line → FlowState
observe_all unmarshal f [] = f
observe_all unmarshal f (l ∷ ls) = observe_all unmarshal (observe unmarshal f l.src l.text) ls

shown-append :
    (src : String) (ms ns : List Msg) → shown src (ms ++ ns) ≡ shown src ms + shown src ns
shown-append src [] ns = omega arith
shown-append src (line_msg s t ∷ ms) ns = omega (arith, shown-append src ms ns)
shown-append src (note_msg s n ∷ ms) ns = shown-append src ms ns

noted-append :
    (src : String) (ms ns : List Msg) → noted src (ms ++ ns) ≡ noted src ms + noted src ns
noted-append src [] ns = omega arith
noted-append src (line_msg s t ∷ ms) ns = noted-append src ms ns
noted-append src (note_msg s n ∷ ms) ns = omega (arith, noted-append src ms ns)

-- The messages of one line.
abbrev msgs_of : Line → Allowed → List Msg
msgs_of l a = note_of l.src a.note ++ line_if a.shown l

msgs_of_same :
    (src : String) (l : Line) (shows : Bool) (note : Option ℕ) (b : Bucket)
    → str_eq l.src src ≡ true
    → let ms = msgs_of l (record { shown = shows; note = note; bucket = b }) in
      shown src ms + noted src ms ≡ one shows + or_zero note
msgs_of_same src l true none b e = ground arith
msgs_of_same src l false none b e = ground arith
msgs_of_same src l true (some n) b e = ground arith
msgs_of_same src l false (some n) b e = ground arith

msgs_of_other :
    (src : String) (l : Line) (shows : Bool) (note : Option ℕ) (b : Bucket)
    → str_eq l.src src ≡ false
    → let ms = msgs_of l (record { shown = shows; note = note; bucket = b }) in
      shown src ms + noted src ms ≡ 0
msgs_of_other src l true none b e = ground arith
msgs_of_other src l false none b e = ground arith
msgs_of_other src l true (some n) b e = ground arith
msgs_of_other src l false (some n) b e = ground arith

fresh_overflow : (o : Option Bucket) (now : ℕ) → (bucket_or_new o now).suppressed ≡ overflow_of o
fresh_overflow none now = refl
fresh_overflow (some b) now = refl

pending-insert :
    (s src : String) (b : Bucket) (rate : Rate)
    → pending src (insert s b rate) ≡ (if str_eq s src then b.suppressed else pending src rate)
unfolding pending
pending-insert s src b rate = rw (lookup-insert s src b rate) (branches (str_eq s src))
  where
    branches :
        (c : Bool)
        → overflow_of (if c then some b else lookup src rate)
          ≡ (if c then b.suppressed else overflow_of (lookup src rate))
    branches true = refl
    branches false = refl

old_overflow :
    (s src : String) (now : ℕ) (rate : Rate)
    → str_eq s src ≡ true
    → (bucket_or_new (lookup s rate) now).suppressed ≡ pending src rate
unfolding pending
old_overflow s src now rate e =
    fresh_overflow (lookup s rate) now ∙ ap (λ k. overflow_of (lookup k rate)) ((eq_iff s src).0 e)

-- One line of any source, in the account of `src`.
log-adds :
    (unmarshal : List ℕ → Option BlastEvent) (src : String) (p : Panel) (l : Line)
    → let (q, ms) = log unmarshal p l in
      shown src ms + noted src ms + pending src q.rate ≡ one (str_eq l.src src) + pending src p.rate
unfolding log allow
log-adds unmarshal src p l =
    let b = bucket_or_new (lookup l.src p.rate) l.now in
    let a = take_line b l.now in
    let now_pending = pending-insert l.src src a.bucket p.rate in
    elim (Bool-cases (str_eq l.src src)) [
      | inl e ↦
          let at_src : pending src (insert l.src a.bucket p.rate) ≡ a.bucket.suppressed =
            now_pending ∙ ap (λ c. if c then a.bucket.suppressed else pending src p.rate) e in
          omega (
            arith,
            msgs_of_same src l a.shown a.note a.bucket e,
            take_line-adds b l.now,
            at_src,
            old_overflow l.src src l.now p.rate e,
            ap one e,
          )
      | inr n ↦
          let as_before : pending src (insert l.src a.bucket p.rate) ≡ pending src p.rate =
            now_pending ∙ ap (λ c. if c then a.bucket.suppressed else pending src p.rate) n in
          omega (arith, msgs_of_other src l a.shown a.note a.bucket n, as_before, ap one n)
    ]

log-observes :
    (unmarshal : List ℕ → Option BlastEvent) (p : Panel) (l : Line)
    → (log unmarshal p l).0.flow ≡ observe unmarshal p.flow l.src l.text
unfolding log
log-observes unmarshal p l = refl

-- Whatever lines come, from however many sources and at whatever times: the diagram has seen them all,
-- in their order, whether the browsers have or not; and of each source's lines every one is shown, or
-- counted in a note, or waits in the source's bucket for the next note.
pub log_all-Accounted :
    (unmarshal : List ℕ → Option BlastEvent) (src : String) (ls : List Line) (p : Panel)
    → let (q, ms) = log_all unmarshal p ls in
      (q.flow ≡ observe_all unmarshal p.flow ls)
      × (shown src ms + noted src ms + pending src q.rate ≡ came src ls + pending src p.rate)
unfolding log_all observe_all
log_all-Accounted unmarshal src [] p = (refl, omega arith)
log_all-Accounted unmarshal src (l ∷ ls) p =
    let (q, ms) = log unmarshal p l in
    let later = (log_all unmarshal q ls).1 in
    let (flow, sums) = log_all-Accounted unmarshal src ls q in
    (
      flow ∙ ap (λ f. observe_all unmarshal f ls) (log-observes unmarshal p l),
      omega (
        arith,
        log-adds unmarshal src p l,
        sums,
        shown-append src ms later,
        noted-append src ms later,
      ),
    )
