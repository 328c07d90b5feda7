-- ===== src/Origin/Handlers.antt =====
-- internal/origin/handlers.go: the handlers whose request has parameters or a body.
use quicshot.Prelude.{
  ℕ, zero, suc, ◌+◌, ◌-◌, min, Bool, true, false, List, [], ◌∷◌, ◌++◌, none, some, ltb, length,
  replicate, take, if◌then◌else◌,
}
use quicshot.Prelude.Bytes.{codes}
use quicshot.Prelude.Int.{ℤ, pos, negsuc, pos_part, ltb_ℤ}
use quicshot.Blast.CfCode.{itoa, decimal}
use quicshot.Origin.{
  Request, Act, set_header, write_header, write_body, write_failed, error_reply, flush, wait,
  cut_short, panic, int_param, duration_param,
}

abbrev pub flush_if : Bool → List Act
flush_if true = flush ∷ []
flush_if false = []

-- A wait of `d` that the client's leaving can end, and what is done after it in either case.
abbrev pub wait_or_gone : Bool → ℤ → List Act → List Act → List Act
wait_or_gone gone d late left = if gone then cut_short ∷ left else wait d ∷ late

-- The argument is `time.Duration.String`.
unfoldable pub handle_slow : (ℤ → List ℕ) → Request → List Act
handle_slow show r =
    let d = duration_param r "ms" (pos 5000000000) in
    wait_or_gone (r.client_gone 0) d
      (set_header (codes "x-origin-delay") (show d)
        ∷ write_body (codes "slept " ++ (show d ++ (10 ∷ [])))
        ∷ [])
      []

-- The loop of `/drip` with so many chunks to go, at the `i`-th.
unfoldable pub drip_loop : Request → ℤ → ℕ → ℕ → ℕ → List Act
drip_loop r gap size zero i = []
drip_loop r gap size (suc left) i =
    let rest = drip_loop r gap size left (i + 1) in
    elim (r.write i size) [
      | none ↦ write_failed ∷ []
      | some m ↦
          write_body (replicate size 0)
          ∷ (flush_if r.is_flusher ++ wait_or_gone (r.client_gone i) gap rest [])
    ]

abbrev pub is_negative : ℤ → Bool
is_negative (pos n) = false
is_negative (negsuc n) = true

-- Whether `make([]byte, size)` panics.
abbrev pub make_panics : ℕ → ℤ → Bool
make_panics limit (pos n) = ltb limit n
make_panics limit (negsuc n) = true

unfoldable pub handle_drip : Request → List Act
handle_drip r =
    let gap = duration_param r "ms" (pos 200000000) in
    let chunks = int_param r "chunks" (pos 10) in
    let size = int_param r "size" (pos 1024) in
    set_header (codes "content-type") (codes "application/octet-stream")
    ∷ write_header (pos 200)
    ∷ (if make_panics r.make_limit size
        then panic ∷ []
        else drip_loop r gap (pos_part size) (pos_part chunks) 0)

-- How a loop on fuel ended.
pub data LoopEnd : Type 0 where
  complete : LoopEnd
  gave_up : LoopEnd
  out_of_fuel : LoopEnd

abbrev pub then_more : Act → List Act × LoopEnd → List Act × LoopEnd
then_more a (acts, e) = (a ∷ acts, e)

abbrev pub buf_size : ℕ
buf_size = 32768

-- The loop of `/bytes`; `written` counts what the writer says it has taken.
unfoldable pub bytes_loop : ℕ → Request → ℕ → ℕ → ℕ → List Act × LoopEnd
bytes_loop zero r n written i = ([], if ltb written n then out_of_fuel else complete)
bytes_loop (suc f) r n written i =
    let chunk = min buf_size (n - written) in
    if ltb written n
    then elim (r.write i chunk) [
      | none ↦ (write_failed ∷ [], gave_up)
      | some m ↦ then_more (write_body (replicate m 0)) (bytes_loop f r n (written + m) (i + 1))
    ]
    else ([], complete)

-- A count that is not positive writes nothing. The fuel is the count.
unfoldable pub handle_bytes : Request → List Act × LoopEnd
handle_bytes r =
    let n = int_param r "n" (pos 1048576) in
    then_more (set_header (codes "content-type") (codes "application/octet-stream")) (
      then_more (set_header (codes "content-length") (itoa n))
        (bytes_loop (pos_part n) r (pos_part n) 0 0))

unfoldable pub handle_status : Request → List Act
handle_status r = write_header (int_param r "code" (pos 200)) ∷ []

unfoldable pub handle_flaky : Request → List Act
handle_flaky r =
    if ltb_ℤ (pos r.draw) (int_param r "pct" (pos 10))
    then write_header (pos 502) ∷ []
    else write_body (codes "ok\n") ∷ []

abbrev pub echo_limit : ℕ
echo_limit = 8388608

-- The argument is the text of the error.
unfoldable pub handle_echo : List ℕ → Request → List Act
handle_echo err r =
    let b = take echo_limit r.body in
    if r.body_fails
    then error_reply 400 err ∷ []
    else set_header (codes "content-type") r.content_type
      ∷ set_header (codes "x-echo-bytes") (decimal (length b))
      ∷ write_body b
      ∷ []

abbrev pub min_ℤ : ℤ → ℤ → ℤ
min_ℤ a b = if ltb_ℤ b a then b else a

-- The headers from the `i`-th on, so many of them.
unfoldable pub stress_headers : ℕ → ℕ → List ℕ → List Act
stress_headers zero i pad = []
stress_headers (suc left) i pad =
    set_header (codes "x-stress-" ++ decimal i) pad ∷ stress_headers left (i + 1) pad

-- `strings.Repeat` panics on a negative count.
unfoldable pub handle_headers : Request → List Act
handle_headers r =
    let n = min_ℤ (int_param r "n" (pos 32)) (pos 256) in
    let size = min_ℤ (int_param r "size" (pos 64)) (pos 2048) in
    if is_negative size
    then panic ∷ []
    else stress_headers (pos_part n) 0 (replicate (pos_part size) b'x')
      ++ (write_body (codes "headers=" ++ (itoa n ++ (codes " size=" ++ (itoa size ++ (10 ∷ [])))))
          ∷ [])

-- `slowReadBody` with so many reads to go that return no error: each is followed by a pause, until the
-- body ends or fails, or the client is gone.
unfoldable pub slow_read_body : Request → ℤ → ℕ → ℕ → List Act
slow_read_body r gap zero i = if r.client_gone i then cut_short ∷ [] else []
slow_read_body r gap (suc left) i =
    let rest = slow_read_body r gap left (i + 1) in
    if r.client_gone i then cut_short ∷ [] else wait gap ∷ rest

unfoldable pub handle_stall : Request → List Act
handle_stall r =
    let gap = duration_param r "ms" (pos 250000000) in
    (if r.has_body then slow_read_body r gap r.reads 0 else wait gap ∷ [])
    ++ (write_body (codes "stalled\n") ∷ [])

unfoldable pub handle_headers_then_hang : Request → List Act
handle_headers_then_hang r =
    let d = duration_param r "ms" (pos 30000000000) in
    set_header (codes "x-origin") (codes "headers-then-hang")
    ∷ write_header (pos 200)
    ∷ (flush_if r.is_flusher
        ++ wait_or_gone (r.client_gone 0) d (write_body (codes "late\n") ∷ []) [])
