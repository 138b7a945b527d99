-- ===== src/Vault/Tests/Roles.antt =====
-- Roles and the removal of subaccounts (contracts/august-vault/src/contract.rs) on concrete inputs.
use stellar_upshift_vault_co.Base.{◌≡◌, refl, none, some, [], ◌∷◌, arith}
use stellar_upshift_vault_co.Base.Int.{pos}
use stellar_upshift_vault_co.Soroban.{◌>>◌, Returns}
use stellar_upshift_vault_co.Vault.Storage.{get_wallet_net_deployed}
use stellar_upshift_vault_co.Vault.State.{World, bump_instance, require_auth, require_admin}
use stellar_upshift_vault_co.Vault.Admin.{propose_admin, accept_admin, set_vault_operator}
use stellar_upshift_vault_co.Vault.Subaccounts.{
  find_subaccount_index, subaccounts_without_index, remove_subaccount,
}
use stellar_upshift_vault_co.Vault.Entry.{Request, execute}
use stellar_upshift_vault_co.Vault.Access.{IsAdmin}
use stellar_upshift_vault_co.Vault.Access.Requests.{execute-IsPermitted}
use stellar_upshift_vault_co.Vault.Handover.{AdminStep, execute-AdminStep, propose-accept}
use stellar_upshift_vault_co.Vault.Removal.{remove-Returns}
use stellar_upshift_vault_co.Vault.Tests.Bank.{Bank, env, store, world}

execute-IsPermitted_example : IsAdmin env store 1
unfolding execute set_vault_operator bump_instance require_auth require_admin
execute-IsPermitted_example = execute-IsPermitted env (Request.set_operator 1 9) world

execute-AdminStep_example :
    AdminStep env store
      (record store { admin = some 3; pending_admin = none; admin_proposal_expiry = none })
unfolding execute accept_admin bump_instance require_auth
execute-AdminStep_example = execute-AdminStep env Request.accept_admin world

propose-accept_example :
    Returns
      (λ _ w'.
        (w'.store.admin ≡ some 4)
        × (w'.store.pending_admin ≡ none)
        × (w'.store.admin_proposal_expiry ≡ none))
      ((propose_admin env 1 4 1000001 >> accept_admin env) world)
propose-accept_example =
    propose-accept env env 1 4 1000001 world refl refl refl (omega arith) (omega arith)
      (omega arith)

-- A whitelist that begins with the strategy that cannot be reached.
abbrev stuck : World Bank
stuck = record world { store = record store { subaccounts = some (6 ∷ 7 ∷ 8 ∷ []) } }

remove-Returns_example :
    Returns
      (λ _ w'.
        (w'.store.subaccounts ≡ some (subaccounts_without_index (6 ∷ 7 ∷ 8 ∷ []) 0))
        × (w'.store.deployed_assets ≡ some (pos 1500))
        × (get_wallet_net_deployed w'.store 6 ≡ pos 0))
      (remove_subaccount env 1 6 stuck)
unfolding find_subaccount_index
remove-Returns_example =
    remove-Returns env 1 6 0 stuck refl refl refl refl (omega arith) (λ h. absurd (no_asset h))
  where
    no_asset : env.query_asset (stuck.ext) ≡ none → ⊥
    no_asset h = ground (arith, h)
