-- ===== src/Base/Int.antt =====
-- Go's signed integers, as far as the program uses them.
use Prim.Native.Nat.{ℕ, zero, suc, ◌+◌, ◌-◌, ◌%◌, ◌<◌}
use native.Mathlib.Omega.{arith}
use onmi_routers.Base.Tests.{◌==◌, if◌then◌else◌}

-- `negsuc n` is -(n + 1).
pub data ℤ : Type 0 where
  pos : ℕ → ℤ
  negsuc : ℕ → ℤ

-- -m modulo n, in the range of indices.
wrap_index : ℕ → ℕ → ℕ
wrap_index m n = if m % n == 0 then 0 else n - m % n

-- idx := int((v - 1) % n); if idx < 0 { idx += n }
unfoldable pub index_mod : ℤ → ℕ → ℕ
unfolding wrap_index
index_mod (pos zero) n = wrap_index 1 n
index_mod (pos (suc k)) n = k % n
index_mod (negsuc k) n = wrap_index (k + 2) n

wrap_index-lt : (m n : ℕ) → 0 < n → wrap_index m n < n
unfolding wrap_index
wrap_index-lt m n h = grind arith

pub index_mod-lt : (v : ℤ) (n : ℕ) → 0 < n → index_mod v n < n
unfolding index_mod
index_mod-lt (pos zero) n h = wrap_index-lt 1 n h
index_mod-lt (pos (suc k)) n h = grind arith
index_mod-lt (negsuc k) n h = wrap_index-lt (k + 2) n h
