-- ===== src/Memory/Tests.antt =====
-- Examples of the memory (internal/memory/memory.go).
use onmi_routers.Base.{ℕ, ◌≡◌, String, some, List, arith, keep, take}
use onmi_routers.Memory.{Store, new_store, add, itoa, search, is_hit}
use onmi_routers.Memory.Ids.{value, itoa-value}
use onmi_routers.Memory.Recall.{newest_first, search-hits}
use onmi_routers.Base.Text.{trim_space}

itoa-value_example : (r : List ℕ) × (itoa 2048 ≡ some r) × (value 0 r ≡ 2048)
itoa-value_example = itoa-value 2048 (omega arith)

abbrev same : String → String
same s = s

-- A store for two items, to which three are added.
abbrev remembered : Store
remembered =
    let first = (add "20260101" 1 "colour" "blue" (new_store 2)).0 in
    let second = (add "20260101" 2 "city" "Bandung" first).0 in
    (add "20260101" 3 "food" "rice" second).0

search-hits_example :
    search same "city" 0 remembered
    ≡ take 10 (keep (is_hit same (same (trim_space "city"))) (newest_first remembered.items))
search-hits_example = search-hits same "city" 0 remembered
