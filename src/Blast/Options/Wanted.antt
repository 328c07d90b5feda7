-- ===== src/Blast/Options/Wanted.antt =====
-- internal/ui/ui.go (`runReq`, `buildRunArgs`) and internal/blast/blast.go (`config`): the configuration
-- that a request to the panel means, said without flags.
use quicshot.Prelude.{is_empty, ℕ, Bool, not, ◌&&◌, ◌||◌, List, [], ◌∷◌, if◌then◌else◌}
use quicshot.Prelude.Bytes.{codes, bytes_eq}
use quicshot.Prelude.Int.{ℤ, pos, negsuc, ltb_ℤ}
use quicshot.Flags.Whole.{duration_value}
use quicshot.Blast.Options.{Options, seconds}
use quicshot.Ui.Commands.{zero_duration, clamp}
use quicshot.Ui.Commands.Run.{RunReq, equal_fold}

-- The method is passed on.
abbrev pub names_method : List ℕ → Bool
names_method m = not (is_empty m) && not (equal_fold m (codes "GET"))

-- What the panel asks of blast, said without flags. A duration that is given is its number times its
-- unit; numbers are clamped; what is not given is blast's default.
abbrev pub given : ℤ → List ℕ → ℤ
given d v = if is_empty v then d else pos (duration_value v)

unfoldable pub nonempty : List (List ℕ) → List (List ℕ)
nonempty [] = []
nonempty (h ∷ hs) = if is_empty h then nonempty hs else h ∷ nonempty hs

unfoldable pub wanted : RunReq → List ℕ → Options
wanted req target = record {
  target = target;
  urls = req.urls;
  urls_file = [];
  conns = clamp req.conns (pos 1) (pos 64);
  workers = clamp req.workers (pos 1) (pos 256);
  duration = given (seconds 30) req.duration;
  warmup =
      if is_empty req.warmup || zero_duration req.warmup
      then pos 0
      else pos (duration_value req.warmup);
  requests = pos 0;
  timeout = given (seconds 30) req.timeout;
  max_idle = given (seconds 30) req.max_idle;
  keep_alive = given (pos 0) req.keep_alive;
  recv_buf = pos 0;
  cert_dir = if req.local_certs then codes "/certs" else [];
  server_name = if req.local_certs then codes "edge" else [];
  insecure = req.insecure;
  log_path = [];
  stats_every = seconds 5;
  read_body = req.read_body;
  method = if names_method req.method then req.method else codes "GET";
  host_hdr = [];
  headers = nonempty req.headers;
  body_str = req.body;
  body_file = [];
  content_type = [];
  rps = if ltb_ℤ (pos 0) req.rps_num then (req.rps_num, req.rps_den) else (pos 0, 1);
  mode = if bytes_eq req.mode (codes "open") then codes "open" else codes "closed";
  max_inflight =
      if ltb_ℤ (pos 0) req.max_inflight then clamp req.max_inflight (pos 1) (pos 4096) else pos 0;
  probe_0rtt = req.probe_0rtt;
  max_fail_pct = (negsuc 0, 1);
  max_drops = negsuc 0;
  qlog_dir = [];
}
