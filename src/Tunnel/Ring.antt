-- ===== src/Tunnel/Ring.antt =====
-- The log of a subprocess (internal/tunnel/manager.go, ringBuffer).
use onmi_routers.Base.{
  ℕ, zero, suc, ◌+◌, ◌%◌, String, Bool, none, List, [], ◌∷◌, ltb, leb, if◌then◌else◌,
}
use Prim.Native.String.{len, slice, ◌++◌ as text_append}
use onmi_routers.Tunnel.{RingBuffer, Manager, log_ring_size}

-- A write out of bounds does not occur.
abbrev pub set : List String → ℕ → String → List String
set [] i v = []
set (x ∷ xs) zero v = v ∷ xs
set (x ∷ xs) (suc i) v = x ∷ set xs i v

abbrev pub get_or : List String → ℕ → String
get_or [] i = ""
get_or (x ∷ xs) zero = x
get_or (x ∷ xs) (suc i) = get_or xs i

-- make([]string, n)
abbrev pub blank : ℕ → List String
blank zero = []
blank (suc n) = "" ∷ blank n

unfoldable pub new_ring_buffer : ℕ → RingBuffer
new_ring_buffer size =
    let n = if leb size 0 then 100 else size in
    record { buf = blank n; size = n; start = 0; count = 0 }

pub trim_line : String → String
trim_line line = if ltb 4096 (len line) then text_append (slice line 0 4096) "…" else line

unfoldable pub add : String → RingBuffer → RingBuffer
add line r =
    let line' = trim_line line in
    if ltb r.count r.size
    then record r { buf = set r.buf ((r.start + r.count) % r.size) line'; count = r.count + 1 }
    else record r { buf = set r.buf r.start line'; start = (r.start + 1) % r.size }

-- The loop of `Snapshot` from `i` on, with the rounds left.
unfoldable pub snapshot_from : RingBuffer → ℕ → ℕ → List String
snapshot_from r i zero = []
snapshot_from r i (suc rounds) =
    get_or r.buf ((r.start + i) % r.size) ∷ snapshot_from r (i + 1) rounds

unfoldable pub snapshot : RingBuffer → List String
unfolding snapshot_from
snapshot r = snapshot_from r 0 r.count

unfoldable pub reset : RingBuffer → RingBuffer
reset r = record r { start = 0; count = 0 }

-- NewManager; `rdb` is whether there is a client.
unfoldable pub new_manager : Bool → String → String → Manager
unfolding new_ring_buffer
new_manager rdb cloudflared_path upstream_url = record {
  redis = rdb;
  cloudflared_path = cloudflared_path;
  upstream_url = upstream_url;
  quick_cmd = none;
  quick_log = new_ring_buffer log_ring_size;
  quick_url = "";
  named_cmd = none;
  named_log = new_ring_buffer log_ring_size;
}
