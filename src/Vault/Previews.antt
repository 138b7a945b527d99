-- ===== src/Vault/Previews.antt =====
-- The previews of contracts/august-vault/src/contract.rs, and the entry points that they announce.
pub mod Prices
pub mod Errors
pub mod Success
use stellar_upshift_vault_co.Base.{◌≢◌, ◌⊎◌, refl, true, false, Bool, some, ◌==◌}
use stellar_upshift_vault_co.Base.Int.{pos, ◌≤ℤ◌, ◌<ℤ◌, ltb_ℤ}
use stellar_upshift_vault_co.Soroban.{Outcome, panic, Returns}
use stellar_upshift_vault_co.Soroban.I128.{i128_max}
use stellar_upshift_vault_co.Vault.Errors.{
  error, token_error, vault_paused, vault_exceeded_max_withdraw, vault_exceeded_max_redeem,
}
use stellar_upshift_vault_co.Vault.Storage.{is_paused}
use stellar_upshift_vault_co.Vault.State.{Env, World, Rounding}
use stellar_upshift_vault_co.Vault.Pricing.{local_balance}
use stellar_upshift_vault_co.Vault.Shares.{max_withdraw, max_redeem}
use stellar_upshift_vault_co.Vault.Previews.Prices.{raised, raise}

module _ {X : Type 0} (e : Env X) where
  abbrev bumped : World X → World X
  bumped w = raised (e.extend_ttl e.instance_ttl_threshold e.instance_extend_amount w.ttl) w
