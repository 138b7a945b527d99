-- ===== src/Vault/Books/Single.antt =====
-- A batch of one update (contracts/august-vault/src/contract.rs) against the single update.
use stellar_upshift_vault_co.Base.{◌≡◌, Option, none, some, [], ◌∷◌, arith, Option-cases, inl, inr}
use stellar_upshift_vault_co.Base.Int.{zero_+ℤ, ℤ, pos, ◌+ℤ◌, +ℤ_parts}
use stellar_upshift_vault_co.Soroban.{Address, Outcome, ok, panic}
use stellar_upshift_vault_co.Soroban.I128.{checked_add, checked_sub, checked}
use stellar_upshift_vault_co.Vault.Storage.{Storage, get_deployed_assets, get_wallet_net_deployed}
use stellar_upshift_vault_co.Vault.Errors.{Panic}
use stellar_upshift_vault_co.Vault.State.{
  Env, World, bump_instance, require_operator, set_wallet_net_deployed,
}
use stellar_upshift_vault_co.Vault.Limits.Effect.{apply-Applied}
use stellar_upshift_vault_co.Vault.Limits.Rate.{apply-NoRise}
use stellar_upshift_vault_co.Vault.Subaccounts.{require_whitelisted}
use stellar_upshift_vault_co.Vault.Wallets.{require_wallet, update_wallet_deployed}
use stellar_upshift_vault_co.Vault.Batch.{
  validate_entry, validate_entries, commit_entry, commit_entries, apply_batch,
  update_wallet_deployed_batch,
}

-- The storage after a call that returns.
abbrev pub stored : {X A : Type 0} → Outcome Panic (World X) A → Option Storage
stored (ok a w) = some (w.store)
stored (panic p) = none

-- A delta that is in range is in range added to 0.
zero_add : (v t d : ℤ) → checked_sub v t ≡ some d → checked_add (pos 0) d ≡ some d
unfolding checked_sub checked_add checked
zero_add v t d h = ground (arith, zero_+ℤ d)

-- A checked sum is the sum.
checked_sum : (a b c : ℤ) → checked_add a b ≡ some c → c ≡ a +ℤ b
unfolding checked_add checked
checked_sum a b c h = ground arith

module _ {X : Type 0} (e : Env X) where
  -- A batch with one entry returns exactly when the single update does, and writes the same.
  pub one-stored :
      (operator a : Address) (v : ℤ) (w : World X)
      → stored (update_wallet_deployed_batch e operator ((a, v) ∷ []) w)
        ≡ stored (update_wallet_deployed e operator a v w)
  unfolding update_wallet_deployed_batch update_wallet_deployed validate_entries validate_entry
      apply_batch commit_entries commit_entry require_wallet require_whitelisted require_operator
      bump_instance set_wallet_net_deployed
  one-stored operator a v w =
      let w' = record w {
        ttl = e.extend_ttl e.instance_ttl_threshold e.instance_extend_amount w.ttl;
      } in
      let old = get_deployed_assets w.store in
      elim (Option-cases (checked_sub v (get_wallet_net_deployed w.store a))) [
        | inl overflow ↦ ground (arith, overflow)
        | inr (delta, valid) ↦ elim (Option-cases (checked_add old delta)) [
          | inl overflow ↦
              ground
                (arith, valid, overflow, zero_add v (get_wallet_net_deployed w.store a) delta valid)
          | inr (new, summed) ↦ ground (
            arith,
            valid,
            summed,
            zero_add v (get_wallet_net_deployed w.store a) delta valid,
            checked_sum old delta new summed,
            +ℤ_parts old delta,
            apply-NoRise e operator old new w',
            apply-Applied e operator old new w',
          )
        ]
      ]
