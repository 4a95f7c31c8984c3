-- ===== src/Console.antt =====
-- internal/console/console.go: the ring of recent log lines. A capacity or a number of lines that is
-- not positive is 0 here, as the source treats it. The channels of the subscribers are not modelled.
pub mod Recent
use onmi_routers.Base.{
  ℕ, ◌+◌, ◌-◌, String, ◌||◌, List, [], ◌∷◌, ◌++◌, leb, ltb, if◌then◌else◌, length, drop,
}

pub record Line : Type 0 where
  pub ts : String
  pub lvl : String
  pub msg : String

-- `capacity` is `cap` of the source.
pub record Console : Type 0 where
  pub buf : List Line
  pub capacity : ℕ

pub new_console : ℕ → Console
new_console capacity = record { buf = []; capacity = if leb capacity 0 then 500 else capacity }

pub append : Line → Console → Console
append l c =
    let buf = c.buf ++ l ∷ [] in
    if ltb c.capacity (length buf)
    then record c { buf = drop (length buf - c.capacity) buf }
    else record c { buf = buf }

pub append_raw : String → String → String → Console → Console
unfolding append
append_raw now level msg c = append (record { ts = now; lvl = level; msg = msg }) c

pub recent : ℕ → Console → List Line
recent n c = if leb n 0 || leb (length c.buf) n then c.buf else drop (length c.buf - n) c.buf
