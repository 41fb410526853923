-- ===== src/Core/Word.antt =====
-- `u64` and `u32` with their saturating sums, and `HeadId`, which is a `u64`.
use msgbus.Prelude.{ℕ, ◌+◌, ◌-◌, ◌^◌, ◌≤◌, ◌≡◌, arith, min}

abbrev pub u64_max : ℕ
u64_max = 2 ^ 64 - 1

abbrev pub u32_max : ℕ
u32_max = 2 ^ 32 - 1

unfoldable pub saturating_add : ℕ → ℕ → ℕ
saturating_add a b = min (a + b) u64_max

unfoldable pub saturating_add32 : ℕ → ℕ → ℕ
saturating_add32 a b = min (a + b) u32_max

abbrev pub HeadId : Type 0
HeadId = ℕ

-- `HeadId::next`
unfoldable pub next : HeadId → HeadId
unfolding saturating_add
next h = saturating_add h 1

pub saturating_add_exact : (a b : ℕ) → a + b ≤ u64_max → saturating_add a b ≡ a + b
unfolding saturating_add
saturating_add_exact a b h = omega arith
