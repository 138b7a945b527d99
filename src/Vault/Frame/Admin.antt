-- ===== src/Vault/Frame/Admin.antt =====
-- The admin functions of contracts/august-vault/src/contract.rs leave the books alone.
use stellar_upshift_vault_co.Base.{ℕ, arith}
use stellar_upshift_vault_co.Soroban.{Address, Ensures}
use stellar_upshift_vault_co.Vault.State.{
  Env, World, bump_instance, require_admin, require_auth, set_aum_limits as store_aum_limits,
  set_aum_window_limits as store_aum_window_limits,
}
use stellar_upshift_vault_co.Vault.Admin.{
  extend_ttl, propose_admin, accept_admin, cancel_admin_proposal, set_vault_operator,
  set_aum_limits, set_aum_window_limits, pause, unpause,
}
use stellar_upshift_vault_co.Vault.Frame.{SameBooks}

module _ {X : Type 0} (e : Env X) (w : World X) where
  abbrev Same : World X → Type 0
  Same w' = SameBooks w.store w'.store

  pub extend_ttl-SameBooks : Ensures (λ _ w'. Same w') (extend_ttl e w)
  unfolding extend_ttl bump_instance
  extend_ttl-SameBooks = ground arith

  pub propose-SameBooks :
      (admin new : Address) (deadline : ℕ)
      → Ensures (λ _ w'. Same w') (propose_admin e admin new deadline w)
  unfolding propose_admin bump_instance require_admin
  propose-SameBooks admin new deadline = ground arith

  pub accept-SameBooks : Ensures (λ _ w'. Same w') (accept_admin e w)
  unfolding accept_admin bump_instance require_auth
  accept-SameBooks = ground arith

  pub cancel-SameBooks :
      (admin : Address) → Ensures (λ _ w'. Same w') (cancel_admin_proposal e admin w)
  unfolding cancel_admin_proposal bump_instance require_admin
  cancel-SameBooks admin = ground arith

  pub operator-SameBooks :
      (admin new : Address) → Ensures (λ _ w'. Same w') (set_vault_operator e admin new w)
  unfolding set_vault_operator bump_instance require_admin
  operator-SameBooks admin new = ground arith

  pub limits-SameBooks :
      (admin : Address) (inc dec : ℕ) → Ensures (λ _ w'. Same w') (set_aum_limits e admin inc dec w)
  unfolding set_aum_limits bump_instance require_admin store_aum_limits
  limits-SameBooks admin inc dec = ground arith

  pub window_limits-SameBooks :
      (admin : Address) (duration inc dec : ℕ)
      → Ensures (λ _ w'. Same w') (set_aum_window_limits e admin duration inc dec w)
  unfolding set_aum_window_limits bump_instance require_admin store_aum_window_limits
  window_limits-SameBooks admin duration inc dec = ground arith

  pub pause-SameBooks : (admin : Address) → Ensures (λ _ w'. Same w') (pause e admin w)
  unfolding pause bump_instance require_admin
  pause-SameBooks admin = ground arith

  pub unpause-SameBooks : (admin : Address) → Ensures (λ _ w'. Same w') (unpause e admin w)
  unfolding unpause bump_instance require_admin
  unpause-SameBooks admin = ground arith
