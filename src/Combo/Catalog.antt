-- ===== src/Combo/Catalog.antt =====
-- Which combos may be added, and how they are added and removed (internal/proxy/combo.go, and
-- validateName of internal/proxy/validate.go).
use Prim.Native.Char.{code}
use Prim.Native.String.{len}
use text.Mathlib.Text.{starts_with}
use onmi_routers.Base.{
  ℕ, String, Bool, true, false, not, ◌&&◌, ◌||◌, List, [], ◌∷◌, ltb, leb, ◌==◌, str_eq,
  if◌then◌else◌, length,
}
use onmi_routers.Base.Text.{trim_space}
use onmi_routers.Base.Assoc.{insert, erase}
use onmi_routers.Combo.{Combo, Registry, contains_text, is_smart}

-- A-Z, a-z, 0-9, and the dot, underscore, slash and hyphen.
unfoldable pub name_char : ℕ → Bool
name_char c =
    leb 65 c && leb c 90
    || leb 97 c && leb c 122
    || leb 48 c && leb c 57
    || c == 46
    || c == 95
    || c == 47
    || c == 45

unfoldable pub name_chars : String → Bool
unfolding name_char
name_chars String.[] = true
name_chars (String.◌∷◌ c s) = name_char (code c) && name_chars s

unfoldable pub valid_name : String → Bool
unfolding name_chars
valid_name s = not (str_eq s "") && leb (len s) 64 && not (contains_text s "..") && name_chars s

unfoldable pub known_strategy : String → Bool
unfolding is_smart
known_strategy s =
    str_eq s "fallback"
    || str_eq s "round_robin"
    || is_smart s
    || str_eq s "cost_latency_balanced"
    || str_eq s "throughput"
    || str_eq s "success_rate"

-- Trimmed, and without the empty ones.
unfoldable pub clean_models : List String → List String
clean_models [] = []
clean_models (m ∷ ms) =
    let rest = clean_models ms in if str_eq (trim_space m) "" then rest else trim_space m ∷ rest

unfoldable pub tidy : Combo → Combo
unfolding clean_models
tidy c =
    let strategy = trim_space c.strategy in
    record {
      name = trim_space c.name;
      models = clean_models c.models;
      strategy = if str_eq strategy "" then "fallback" else strategy;
      description = trim_space c.description;
      compression_mode = c.compression_mode;
    }

unfoldable pub accepts : Combo → Bool
unfolding valid_name known_strategy
accepts c =
    valid_name c.name
    && not (starts_with c.name "combo/")
    && known_strategy c.strategy
    && leb (length c.models) 32
    && ltb 0 (length c.models)

-- `saves` says whether the store, where there is one, takes the combo. The answer is whether the
-- combo was added.
unfoldable pub add_combo : (Combo → Bool) → Combo → Registry → Registry × Bool
unfolding tidy accepts
add_combo saves given r =
    let c = tidy given in
    if accepts c && saves c
    then (record r { combos = insert c.name c r.combos }, true)
    else (r, false)

unfoldable pub delete_combo : (String → Bool) → String → Registry → Registry × Bool
delete_combo deletes given r =
    let name = trim_space given in
    if not (str_eq name "") && deletes name
    then (record r { combos = erase name r.combos }, true)
    else (r, false)
