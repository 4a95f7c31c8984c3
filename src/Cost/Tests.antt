-- ===== src/Cost/Tests.antt =====
-- Examples of prices (internal/cost/cost.go).
use onmi_routers.Cost.{table, price_for}
use onmi_routers.Cost.Prefixes.{IsPrice, price_for-IsPrice}

price_for-IsPrice_example :
    IsPrice "grok-3-mini-fast" table (price_for (λ s. s) table "grok-3-mini-fast")
price_for-IsPrice_example = price_for-IsPrice (λ s. s) table "grok-3-mini-fast"
