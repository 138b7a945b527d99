-- ===== src/Vault/Limits/Tally/Counted.antt =====
-- What a report leaves of the window's counters (contracts/august-vault/src/contract.rs).
use stellar_upshift_vault_co.Base.{ℕ, ◌≡◌, refl}
use stellar_upshift_vault_co.Base.Int.{ℤ}
use stellar_upshift_vault_co.Soroban.{Address, Ensures, Ensures-mono, Ensures-both}
use stellar_upshift_vault_co.Vault.Storage.{Storage, get_deployed_assets, get_aum_window_duration}
use stellar_upshift_vault_co.Vault.State.{Env, World}
use stellar_upshift_vault_co.Vault.Limits.{apply_deployed_assets_change}
use stellar_upshift_vault_co.Vault.Limits.Tally.{Tally, counted, IsTallied, apply-IsTallied}
use stellar_upshift_vault_co.Vault.Limits.Tally.Reports.{
  update_deployed_reports, update_wallet_reports, batch_reports, reconcile_reports,
}
use stellar_upshift_vault_co.Vault.Subaccounts.{do_remove_subaccount}
use stellar_upshift_vault_co.Vault.Wallets
use stellar_upshift_vault_co.Vault.Batch.{Updates, update_wallet_deployed_batch}
use stellar_upshift_vault_co.Vault.Books.Whitelist.{do_remove-Delisted}
use stellar_upshift_vault_co.Vault.Frame.Settings.{Kept, do_remove-Kept}
use stellar_upshift_vault_co.Vault.Frame.Batches.{OnlyTrackers}

-- The tally after a report: the aggregate has gone from its value in `s` to its value in `s'`.
abbrev pub reported : ℕ → Storage → Storage → Tally → Tally
reported timestamp s s' =
    counted timestamp (get_aum_window_duration s) (get_deployed_assets s) (get_deployed_assets s')

pub Kept-IsTallied : {g : Tally} {s s' : Storage} → Kept s s' → IsTallied g s → IsTallied g s'
Kept-IsTallied k h = record {
  start_eq = rw k.window.aum_window_start h.start_eq;
  base_eq = rw k.window.aum_window_base_deployed h.base_eq;
  rises_eq = rw k.window.aum_cumulative_increase h.rises_eq;
  falls_eq = rw k.window.aum_cumulative_decrease h.falls_eq;
}

do_remove-IsTallied :
    {X : Type 0} (e : Env X) (r a : Address) (g : Tally) (w : World X)
    → IsTallied g w.store
    → Ensures (λ _ w'. IsTallied g w'.store) (do_remove_subaccount e r a w)
do_remove-IsTallied e r a g w h =
    Ensures-mono (do_remove_subaccount e r a w) (do_remove-Kept e r a w)
      (λ _ w' k. Kept-IsTallied k h)

do_remove_deployed :
    {X : Type 0} (e : Env X) (r a : Address) (w : World X)
    → Ensures
        (λ _ w'. get_deployed_assets w'.store ≡ get_deployed_assets w.store)
        (do_remove_subaccount e r a w)
do_remove_deployed e r a w =
    Ensures-mono (do_remove_subaccount e r a w) (do_remove-Delisted e r a w)
      (λ _ w' l. rw l.deployed_assets refl)

module _ {X : Type 0} (e : Env X) (w : World X) (g : Tally) (h : IsTallied g w.store) where
  -- The counters after a report, for a storage after it.
  unfoldable pub Counted : Storage → Type 0
  Counted s' = IsTallied (reported e.timestamp w.store s' g) s'

  moved-Counted :
      (v : ℤ) (s' : Storage)
      → get_deployed_assets s' ≡ v
      → IsTallied
          (counted e.timestamp (get_aum_window_duration w.store) (get_deployed_assets w.store) v g)
          s'
      → Counted s'
  unfolding Counted
  moved-Counted v s' moved tallied_eq = rw moved tallied_eq

  apply-moved :
      (o : Address) (v : ℤ) (w₁ : World X)
      → w₁.store ≡ w.store
      → Ensures
          (λ _ w'.
            (get_deployed_assets w'.store ≡ v)
            × IsTallied
                (counted e.timestamp
                  (get_aum_window_duration w.store)
                  (get_deployed_assets w.store)
                  v
                  g)
                w'.store)
          (apply_deployed_assets_change e o (get_deployed_assets w.store) v w₁)
  apply-moved o v w₁ same =
      rw (← same) (apply-IsTallied e g o (get_deployed_assets w₁.store) v w₁ (rw same h))

  apply-Counted :
      (o : Address) (v : ℤ) (w₁ : World X)
      → w₁.store ≡ w.store
      → Ensures
          (λ _ w'. Counted w'.store)
          (apply_deployed_assets_change e o (get_deployed_assets w.store) v w₁)
  apply-Counted o v w₁ same =
      Ensures-mono (apply_deployed_assets_change e o (get_deployed_assets w.store) v w₁)
        (apply-moved o v w₁ same) (λ _ w' m. moved-Counted v w'.store m.0 m.1)

  trackers-Counted : (s s' : Storage) → OnlyTrackers s s' → Counted s → Counted s'
  unfolding Counted
  trackers-Counted s s' t c = rw t.rest (record {
    start_eq = c.start_eq;
    base_eq = c.base_eq;
    rises_eq = c.rises_eq;
    falls_eq = c.falls_eq;
  })

  removed-Counted :
      (a b : Address) (w₁ : World X)
      → Counted w₁.store
      → Ensures (λ _ w'. Counted w'.store) (do_remove_subaccount e a b w₁)
  unfolding Counted
  removed-Counted a b w₁ c =
      Ensures-mono (do_remove_subaccount e a b w₁)
        (Ensures-both _ _ (do_remove_subaccount e a b w₁)
          (do_remove-IsTallied e a b (reported e.timestamp w.store w₁.store g) w₁ c)
          (do_remove_deployed e a b w₁))
        (λ _ w' r. rw r.1 r.0)

  pub reports-Counted :
      (o a b : Address) (v : ℤ) (u : Updates)
      → Ensures (λ _ w'. Counted w'.store) (Wallets.update_deployed_assets e o v w)
        × Ensures (λ _ w'. Counted w'.store) (Wallets.update_wallet_deployed e o a v w)
        × Ensures (λ _ w'. Counted w'.store) (update_wallet_deployed_batch e o u w)
        × Ensures (λ _ w'. Counted w'.store) (Wallets.remove_wallet_and_reconcile e a o b v w)
  reports-Counted o a b v u = (
    update_deployed_reports e w Counted o (apply-Counted o) v,
    update_wallet_reports e w Counted o (apply-Counted o) trackers-Counted a v,
    batch_reports e w Counted o (apply-Counted o) trackers-Counted u,
    reconcile_reports e w Counted o (apply-Counted o) removed-Counted a b v,
  )
