-- ===== src/Soroban/I128.antt =====
-- Rust's `i128`: an integer with checked operations that answer `none` out of range.
use stellar_upshift_vault_co.Base.{ℕ, ◌-◌, ◌^◌, Bool, ◌&&◌, Option, none, some, if◌then◌else◌}
use stellar_upshift_vault_co.Base.Int.{ℤ, pos, negsuc, ◌+ℤ◌, ◌-ℤ◌, ◌*ℤ◌, leb_ℤ, ltb_ℤ}

-- `i128::MAX`
unfoldable pub i128_max : ℤ
i128_max = pos (2 ^ 127 - 1)

-- `i128::MIN`
unfoldable pub i128_min : ℤ
i128_min = negsuc (2 ^ 127 - 1)

unfoldable pub fits : ℤ → Bool
unfolding i128_max i128_min
fits a = leb_ℤ i128_min a && leb_ℤ a i128_max

unfoldable pub checked : ℤ → Option ℤ
checked a = if fits a then some a else none

unfoldable pub checked_add : ℤ → ℤ → Option ℤ
unfolding checked
checked_add a b = checked (a +ℤ b)

unfoldable pub checked_sub : ℤ → ℤ → Option ℤ
unfolding checked
checked_sub a b = checked (a -ℤ b)

unfoldable pub checked_mul : ℤ → ℤ → Option ℤ
unfolding checked
checked_mul a b = checked (a *ℤ b)

-- `10_i128.checked_pow(n)`
unfoldable pub checked_pow10 : ℕ → Option ℤ
unfolding checked
checked_pow10 n = checked (pos (10 ^ n))

-- `a.saturating_sub(b)`
unfoldable pub saturating_sub : ℤ → ℤ → ℤ
saturating_sub a b = if fits (a -ℤ b) then a -ℤ b else if ltb_ℤ a b then i128_min else i128_max
