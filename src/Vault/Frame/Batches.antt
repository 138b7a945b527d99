-- ===== src/Vault/Frame/Batches.antt =====
-- `update_wallet_deployed_batch` (contracts/august-vault/src/contract.rs): the settings stay, and
-- the window stays within its limits.
use stellar_upshift_vault_co.Base.{◌≡◌, refl, Bool, [], ◌∷◌, arith}
use stellar_upshift_vault_co.Base.Int.{ℤ}
use stellar_upshift_vault_co.Soroban.{Address, Ensures}
use stellar_upshift_vault_co.Vault.Storage.{Storage}
use stellar_upshift_vault_co.Vault.State.{
  Env, World, set_wallet_net_deployed, bump_instance, require_operator,
}
use stellar_upshift_vault_co.Vault.Limits.Window.{IsWithinWindow, apply-Window}
use stellar_upshift_vault_co.Vault.Subaccounts.{require_whitelisted}
use stellar_upshift_vault_co.Vault.Wallets.{require_wallet}
use stellar_upshift_vault_co.Vault.Batch.{
  Updates, validate_entry, validate_entries, commit_entry, commit_entries, apply_batch,
  update_wallet_deployed_batch,
}
use stellar_upshift_vault_co.Vault.Frame.{SameSettings}
use stellar_upshift_vault_co.Vault.Frame.Settings.{apply-Settings}

-- All but the trackers stays.
pub record OnlyTrackers (s s' : Storage) : Type 0 where
  pub rest : s' ≡ record s { wallet_net_deployed = s'.wallet_net_deployed }

module _ {X : Type 0} (e : Env X) where
  validate_entry-same :
      (paused : Bool) (a : Address) (v : ℤ) (w : World X)
      → Ensures (λ _ w'. w' ≡ w) (validate_entry e paused a v w)
  unfolding validate_entry require_wallet require_whitelisted
  validate_entry-same paused a v w = ground arith

  pub validate-same :
      (paused : Bool) (updates : Updates) (acc : ℤ) (w : World X)
      → Ensures (λ _ w'. w' ≡ w) (validate_entries e paused updates acc w)
  unfolding validate_entries
  validate-same paused [] acc w = refl
  validate-same paused ((a, v) ∷ updates) acc w =
      grind (arith, validate_entry-same, validate-same paused updates)

  commit_entry-OnlyTrackers :
      (operator a : Address) (v : ℤ) (w : World X)
      → Ensures (λ _ w'. OnlyTrackers w.store w'.store) (commit_entry e operator a v w)
  unfolding commit_entry set_wallet_net_deployed
  commit_entry-OnlyTrackers operator a v w = ground arith

  pub commit-OnlyTrackers :
      (operator : Address) (updates : Updates) (w : World X)
      → Ensures (λ _ w'. OnlyTrackers w.store w'.store) (commit_entries e operator updates w)
  unfolding commit_entries
  commit-OnlyTrackers operator [] w = record { rest = refl }
  commit-OnlyTrackers operator ((a, v) ∷ updates) w =
      grind (arith, commit_entry-OnlyTrackers, commit-OnlyTrackers operator updates)

  apply_batch-Settings :
      (operator : Address) (updates : Updates) (d : ℤ) (w : World X)
      → Ensures (λ _ w'. SameSettings w.store w'.store) (apply_batch e operator updates d w)
  unfolding apply_batch
  apply_batch-Settings operator updates d w = grind (arith, apply-Settings, commit-OnlyTrackers)

  pub batch-Settings :
      (operator : Address) (updates : Updates) (w : World X)
      → Ensures
          (λ _ w'. SameSettings w.store w'.store)
          (update_wallet_deployed_batch e operator updates w)
  unfolding update_wallet_deployed_batch bump_instance require_operator
  batch-Settings operator updates w = grind (arith, apply_batch-Settings, validate-same)

  apply_batch-Window :
      (operator : Address) (updates : Updates) (d : ℤ) (w : World X)
      → IsWithinWindow w.store
      → Ensures (λ _ w'. IsWithinWindow w'.store) (apply_batch e operator updates d w)
  unfolding apply_batch
  apply_batch-Window operator updates d w h = grind (arith, apply-Window, commit-OnlyTrackers)

  pub batch-Window :
      (operator : Address) (updates : Updates) (w : World X)
      → IsWithinWindow w.store
      → Ensures
          (λ _ w'. IsWithinWindow w'.store)
          (update_wallet_deployed_batch e operator updates w)
  unfolding update_wallet_deployed_batch bump_instance require_operator
  batch-Window operator updates w h = grind (arith, apply_batch-Window, validate-same)
