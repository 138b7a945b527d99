-- ===== src/Linked/Withdrawal.antt =====
-- What a withdrawal of the vault leaves of contracts/xlm-strategy/src/lib.rs, where the strategy is
-- set up and its tracker is covered by its tokens.
use stellar_upshift_vault_co.Base.{◌≡◌, ◌≢◌, ◌⊎◌, sym, ◌∙◌, inl, inr, some, arith}
use stellar_upshift_vault_co.Base.Int.{ℤ, pos, ◌≤ℤ◌, ◌<ℤ◌, ◌+ℤ◌, ◌-ℤ◌, min_ℤ, int_laws}
use stellar_upshift_vault_co.Soroban.{Address, value, Ensures}
use stellar_upshift_vault_co.Soroban.I128.{checked_sub}
use stellar_upshift_vault_co.Vault.State.{Env}
use stellar_upshift_vault_co.Strategy.State.{
  World as StrategyWorld, get_local_balance, get_deployed_total,
}
use stellar_upshift_vault_co.Strategy.Helpers.{bump_instance, require_auth, require_vault}
use stellar_upshift_vault_co.Strategy.Funds.{withdraw, send}
use stellar_upshift_vault_co.Linked.{strategy_env}
use stellar_upshift_vault_co.Linked.Laws.{Exact, value_inj}
use stellar_upshift_vault_co.Linked.Covered.{IsCovered, Kept}

rest_nonneg : (amount l : ℤ) → pos 0 ≤ℤ l -ℤ min_ℤ amount l
rest_nonneg amount l = grind int_laws

minus_monotone : (l a q : ℤ) → l ≤ℤ a → l -ℤ q ≤ℤ a -ℤ q
minus_monotone l a q h = omega int_laws

unmoved_range :
    (before after amount : ℤ)
    → after ≡ before
    → pos 0 ≤ℤ amount
    → (pos 0 ≤ℤ after -ℤ before) × (after -ℤ before ≤ℤ amount)
unmoved_range before after amount same h = rw same (omega int_laws, omega int_laws)

moved_range :
    (amount l before after : ℤ)
    → after ≡ before +ℤ min_ℤ amount l
    → pos 0 <ℤ min_ℤ amount l
    → (pos 0 ≤ℤ after -ℤ before) × (after -ℤ before ≤ℤ amount)
moved_range amount l before after moved h = rw moved (grind int_laws, grind int_laws)

module _ {T : Type 0} (b : Env T) (s asset : Address) where
  -- What a withdrawal of the vault leaves: it pays the smaller of the amount and the tracker, if that
  -- is positive, or nothing.
  pub Pays : ℤ → StrategyWorld T → StrategyWorld T → Type 0
  Pays q y y' =
      ((y'.ext ≡ y.ext) × (get_local_balance y'.store ≡ get_local_balance y.store))
      ⊎ ((b.token_transfer asset s b.current_contract_address q y.ext ≡ some y'.ext)
          × (pos 0 <ℤ q)
          × (get_local_balance y'.store ≡ get_local_balance y.store -ℤ q))

  pub withdraw_parts :
      (amount : ℤ) (y : StrategyWorld T)
      → IsCovered b s asset y
      → Ensures
          (λ _ y'. Kept y y' × Pays (min_ℤ amount (get_local_balance y.store)) y y')
          (withdraw (strategy_env b s) b.current_contract_address amount y)
  unfolding withdraw send bump_instance require_auth require_vault checked_sub Kept Pays
  withdraw_parts amount y c = ground (arith, c.asset_eq, c.vault_eq)

  module _ (apart : b.current_contract_address ≢ s) (exact : Exact b asset) where
    pub withdraw-IsCovered :
        (amount : ℤ) (y y' : StrategyWorld T)
        → IsCovered b s asset y
        → Kept y y'
        → Pays (min_ℤ amount (get_local_balance y.store)) y y'
        → IsCovered b s asset y' × (get_deployed_total y'.store ≡ get_deployed_total y.store)
    unfolding Kept Pays
    withdraw-IsCovered amount y y' c (same_asset, same_vault, deployed) paid =
        let l = get_local_balance y.store in
        let q = min_ℤ amount l in
        let held = c.local_held in
        let nonneg = c.local_nonneg in
        elim paid [
          | inl (ext, local) ↦ (
            record {
              asset_eq = rw same_asset c.asset_eq;
              vault_eq = rw same_vault c.vault_eq;
              actual = c.actual;
              actual_eq = rw ext c.actual_eq;
              local_nonneg = rw local nonneg;
              local_held = rw local held;
              deployed_nonneg = rw deployed c.deployed_nonneg;
            },
            deployed,
          )
          | inr (moved, positive, local) ↦ (
            record {
              asset_eq = rw same_asset c.asset_eq;
              vault_eq = rw same_vault c.vault_eq;
              actual = c.actual -ℤ q;
              actual_eq =
                  exact.debits s b.current_contract_address q c.actual y.ext y'.ext
                    (λ e. apart (sym e)) moved c.actual_eq;
              local_nonneg = rw local (rest_nonneg amount l);
              local_held = rw local (minus_monotone l c.actual q held);
              deployed_nonneg = rw deployed c.deployed_nonneg;
            },
            deployed,
          )
        ]

    pub paid_range :
        (amount before after : ℤ) (y y' : StrategyWorld T)
        → pos 0 ≤ℤ amount
        → b.token_balance asset b.current_contract_address y.ext ≡ value before
        → Pays (min_ℤ amount (get_local_balance y.store)) y y'
        → b.token_balance asset b.current_contract_address y'.ext ≡ value after
        → (pos 0 ≤ℤ after -ℤ before) × (after -ℤ before ≤ℤ amount)
    unfolding Pays
    paid_range amount before after y y' nonneg had paid has =
        let me = b.current_contract_address in
        let l = get_local_balance y.store in
        let q = min_ℤ amount l in
        elim paid [
          | inl (ext, local) ↦
              let same : after ≡ before = value_inj after before (sym has ∙ rw ext had) in
              unmoved_range before after amount same nonneg
          | inr (moved, positive, local) ↦
              let at_vault : after ≡ before +ℤ q = value_inj after (before +ℤ q) (
                sym has
                ∙ exact.credits s me q before y.ext y'.ext (λ e. apart (sym e)) moved had) in
              moved_range amount l before after at_vault positive
        ]
