-- ===== src/Vault/Batch.antt =====
-- contracts/august-vault/src/contract.rs: `update_wallet_deployed_batch`.
use stellar_upshift_vault_co.Base.{Bool, false, ◌&&◌, ◌||◌, List, [], ◌∷◌, ltb, ◌==◌, length}
use stellar_upshift_vault_co.Base.Int.{ℤ, pos, ltb_ℤ}
use stellar_upshift_vault_co.Soroban.{Address, ◌>>=◌, ◌>>◌, pure, panic_if, or_panic}
use stellar_upshift_vault_co.Soroban.I128.{checked_add, checked_sub}
use stellar_upshift_vault_co.Vault.Errors.{
  error, math_overflow, invalid_amount, deployed_assets_underflow, empty_batch,
  max_subaccounts_reached, duplicate_subaccount_in_batch, vault_paused,
}
use stellar_upshift_vault_co.Vault.Storage.{
  get_deployed_assets, get_wallet_net_deployed, is_paused, max_subaccounts,
}
use stellar_upshift_vault_co.Vault.Emit.{
  emit_wallet_deployed_batch_applied, emit_wallet_deployed_updated,
}
use stellar_upshift_vault_co.Vault.State.{
  Env, Action, load, set_wallet_net_deployed, bump_instance, require_operator,
}
use stellar_upshift_vault_co.Vault.Limits.{apply_deployed_assets_change}
use stellar_upshift_vault_co.Vault.Wallets.{require_wallet}

-- `updates: Vec<(Address, i128)>`
abbrev pub Updates : Type 0
Updates = List (Address × ℤ)

-- The inner loop of the duplicate scan: whether an address occurs in the rest of the batch.
abbrev pub occurs : Address → Updates → Bool
occurs a [] = false
occurs a (u ∷ updates) = a == u.0 || occurs a updates

abbrev pub has_duplicates : Updates → Bool
has_duplicates [] = false
has_duplicates (u ∷ updates) = occurs u.0 updates || has_duplicates updates

module _ {X : Type 0} (e : Env X) where
  -- One round of the first pass: the checks of an entry, and its delta.
  unfoldable pub validate_entry : Bool → Address → ℤ → Action X ℤ
  validate_entry paused a new_tracked = do
    panic_if (ltb_ℤ new_tracked (pos 0)) (error invalid_amount)
    require_wallet e a
    old_tracked ← load (λ s. get_wallet_net_deployed s a)
    delta ← or_panic (checked_sub new_tracked old_tracked) (error math_overflow)
    panic_if (paused && ltb_ℤ (pos 0) delta) (error vault_paused)
    pure delta

  -- The first pass, with the running `net_delta`.
  unfoldable pub validate_entries : Bool → Updates → ℤ → Action X ℤ
  validate_entries paused [] net_delta = pure net_delta
  validate_entries paused ((a, new_tracked) ∷ updates) net_delta = do
    delta ← validate_entry paused a new_tracked
    net_delta' ← or_panic (checked_add net_delta delta) (error math_overflow)
    validate_entries paused updates net_delta'

  -- One round of the second pass.
  unfoldable pub commit_entry : Address → Address → ℤ → Action X (Unit {0})
  commit_entry operator a new_tracked = do
    old_tracked ← load (λ s. get_wallet_net_deployed s a)
    delta ← or_panic (checked_sub new_tracked old_tracked) (error math_overflow)
    set_wallet_net_deployed a new_tracked
    emit_wallet_deployed_updated operator a old_tracked new_tracked delta

  unfoldable pub commit_entries : Address → Updates → Action X (Unit {0})
  commit_entries operator [] = pure tt
  commit_entries operator ((a, new_tracked) ∷ updates) = do
    commit_entry operator a new_tracked
    commit_entries operator updates

  -- What follows the first pass: the aggregate moves, then the trackers.
  unfoldable pub apply_batch : Address → Updates → ℤ → Action X (Unit {0})
  apply_batch operator updates net_delta = do
    old_deployed ← load get_deployed_assets
    new_deployed ← or_panic (checked_add old_deployed net_delta) (error math_overflow)
    panic_if (ltb_ℤ new_deployed (pos 0)) (error deployed_assets_underflow)
    apply_deployed_assets_change e operator old_deployed new_deployed
    commit_entries operator updates
    emit_wallet_deployed_batch_applied operator (length updates) net_delta

  unfoldable pub update_wallet_deployed_batch : Address → Updates → Action X (Unit {0})
  update_wallet_deployed_batch operator updates = do
    bump_instance e
    require_operator e operator
    panic_if (length updates == 0) (error empty_batch)
    panic_if (ltb max_subaccounts (length updates)) (error max_subaccounts_reached)
    panic_if (has_duplicates updates) (error duplicate_subaccount_in_batch)
    paused ← load is_paused
    net_delta ← validate_entries paused updates (pos 0)
    apply_batch operator updates net_delta
