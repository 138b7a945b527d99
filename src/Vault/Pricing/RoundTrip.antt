-- ===== src/Vault/Pricing/RoundTrip.antt =====
-- The conversions of contracts/august-vault/src/contract.rs there and back, with the vault library's
-- `mul_div` rounding as its documentation says.
use stellar_upshift_vault_co.Base.{ℕ, suc, ◌+◌, ◌*◌, ◌^◌, ◌≤◌, ◌<◌, ◌≡◌, some, arith}
use stellar_upshift_vault_co.Base.Int.{ℤ, pos, ◌+ℤ◌, ◌≤ℤ◌}
use native.Mathlib.Nat.{le_of_mul-le-mul_right, one-le-pow}
use stellar_upshift_vault_co.Soroban.{ok}
use stellar_upshift_vault_co.Soroban.I128.{checked_add, checked, checked_pow10}
use stellar_upshift_vault_co.Vault.State.{Env, World, floor, ceil}
use stellar_upshift_vault_co.Vault.Pricing.{
  convert_to_shares_with_total, convert_to_assets_with_total,
}

-- Documented of `mul_div` rounding down: on numbers it answers the quotient of the product.
abbrev pub RoundsDown : {X : Type 0} → Env X → Type 0
RoundsDown e =
    (x y d : ℕ) (r : ℤ)
    → 0 < d
    → e.mul_div (pos x) (pos y) (pos d) floor ≡ some r
    → (q : ℕ) × (r ≡ pos q) × (q * d ≤ x * y) × (x * y < suc q * d)

-- Documented of `mul_div` rounding up: on numbers it answers a number that is large enough.
abbrev pub RoundsUp : {X : Type 0} → Env X → Type 0
RoundsUp e =
    (x y d : ℕ) (r : ℤ)
    → 0 < d
    → e.mul_div (pos x) (pos y) (pos d) ceil ≡ some r
    → (q : ℕ) × (r ≡ pos q) × (x * y ≤ q * d) × (q * d < x * y + d)

pos_add : (m n : ℕ) → pos m +ℤ pos n ≡ pos (m + n)
unfolding ◌+ℤ◌
pos_add m n = ground arith

-- The arithmetic of a round trip: `p` is the supply with its offset, `t` the total plus 1.
no_gain : (a q b p t : ℕ) → 0 < p → q * t ≤ a * p → b * (p + q) ≤ q * (t + a) → b ≤ a
no_gain a q b p t h k l =
    le_of_mul-le-mul_right {m = b} {n = a} {k = p + q} (omega arith) (omega arith)

module _ {X : Type 0} (e : Env X) (down : RoundsDown e) where
  shares_floor :
      (a t n o : ℕ) (sh : ℤ) (w w' : World X)
      → e.total_supply w.ext ≡ pos n
      → e.get_decimals_offset w.ext ≡ o
      → convert_to_shares_with_total e (pos a) (pos t) floor w ≡ ok sh w'
      → (q : ℕ) × (sh ≡ pos q) × (q * (t + 1) ≤ a * (n + 10 ^ o))
  unfolding convert_to_shares_with_total checked_pow10 checked_add checked
  shares_floor a t n o sh w w' supply offset returned = ground (
    arith,
    pos_add n (10 ^ o),
    pos_add t 1,
    supply,
    offset,
    returned,
    down a (n + 10 ^ o) (t + 1) sh,
  )

  assets_floor :
      (q t n o : ℕ) (back : ℤ) (w w' : World X)
      → e.total_supply w.ext ≡ pos n
      → e.get_decimals_offset w.ext ≡ o
      → convert_to_assets_with_total e (pos q) (pos t) floor w ≡ ok back w'
      → (b : ℕ) × (back ≡ pos b) × (b * (n + 10 ^ o) ≤ q * (t + 1))
  unfolding convert_to_assets_with_total checked_pow10 checked_add checked
  assets_floor q t n o back w w' supply offset returned = ground (
    arith,
    pos_add n (10 ^ o),
    pos_add t 1,
    supply,
    offset,
    returned,
    down q (t + 1) (n + 10 ^ o) back,
    one-le-pow o 10,
  )

  -- Assets `a` converted to shares while the total is `t` and the supply `n`, and these shares
  -- converted back while the total is `t + a` and the supply has grown by them, both rounding down,
  -- are worth at most `a`, if both conversions return, `mul_div` rounds down as documented, and both
  -- see the same decimals offset.
  pub no_free_assets :
      (a t n o : ℕ) (shares back : ℤ) (w₀ w₁ w₂ w₃ : World X)
      → e.total_supply w₀.ext ≡ pos n
      → e.get_decimals_offset w₀.ext ≡ o
      → convert_to_shares_with_total e (pos a) (pos t) floor w₀ ≡ ok shares w₁
      → e.total_supply w₂.ext ≡ pos n +ℤ shares
      → e.get_decimals_offset w₂.ext ≡ o
      → convert_to_assets_with_total e shares (pos (t + a)) floor w₂ ≡ ok back w₃
      → back ≤ℤ pos a
  no_free_assets a t n o shares back w₀ w₁ w₂ w₃ supply offset converted supply' offset' redeemed =
      let (q, shares_eq, low) = shares_floor a t n o shares w₀ w₁ supply offset converted in
      let supply_eq : e.total_supply w₂.ext ≡ pos (n + q) =
        ground (arith, supply', shares_eq, pos_add n q) in
      let (b, back_eq, high) =
        assets_floor q (t + a) (n + q) o back w₂ w₃ supply_eq offset' (rw shares_eq at redeemed) in
      let bound =
        no_gain a q b (n + 10 ^ o) (t + 1) (grind (arith, one-le-pow o 10)) low
          (omega (arith, high)) in
      ground (arith, back_eq, bound)

module _ {X : Type 0} (e : Env X) (down : RoundsDown e) (up : RoundsUp e) where
  assets_ceil :
      (q t n o : ℕ) (cost : ℤ) (w w' : World X)
      → e.total_supply w.ext ≡ pos n
      → e.get_decimals_offset w.ext ≡ o
      → convert_to_assets_with_total e (pos q) (pos t) ceil w ≡ ok cost w'
      → (a : ℕ) × (cost ≡ pos a) × (q * (t + 1) ≤ a * (n + 10 ^ o))
  unfolding convert_to_assets_with_total checked_pow10 checked_add checked
  assets_ceil q t n o cost w w' supply offset returned = ground (
    arith,
    pos_add n (10 ^ o),
    pos_add t 1,
    supply,
    offset,
    returned,
    up q (t + 1) (n + 10 ^ o) cost,
    one-le-pow o 10,
  )

  -- Shares `q` priced rounding up while the total is `t` and the supply `n`, and converted back
  -- rounding down while the total has grown by their price and the supply is `n + q`, are worth at
  -- most their price, if both conversions return, `mul_div` rounds as documented, and both see the
  -- same decimals offset.
  pub no_free_shares :
      (q t n o : ℕ) (cost back : ℤ) (w₀ w₁ w₂ w₃ : World X)
      → e.total_supply w₀.ext ≡ pos n
      → e.get_decimals_offset w₀.ext ≡ o
      → convert_to_assets_with_total e (pos q) (pos t) ceil w₀ ≡ ok cost w₁
      → e.total_supply w₂.ext ≡ pos (n + q)
      → e.get_decimals_offset w₂.ext ≡ o
      → convert_to_assets_with_total e (pos q) (pos t +ℤ cost) floor w₂ ≡ ok back w₃
      → back ≤ℤ cost
  no_free_shares q t n o cost back w₀ w₁ w₂ w₃ supply offset priced supply' offset' redeemed =
      let (a, cost_eq, low) = assets_ceil q t n o cost w₀ w₁ supply offset priced in
      let (b, back_eq, high) =
        assets_floor e down q (t + a) (n + q) o back w₂ w₃ supply' offset'
          (rw (cost_eq, pos_add t a) at redeemed) in
      let bound =
        no_gain a q b (n + 10 ^ o) (t + 1) (grind (arith, one-le-pow o 10)) low
          (omega (arith, high)) in
      ground (arith, back_eq, cost_eq, bound)
