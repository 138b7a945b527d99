-- ===== src/Vault/Interface.antt =====
-- contracts/august-vault/src/strategy.rs: the interface of a strategy, as what the vault relies on,
-- and what it relies on of the token.
pub mod Total
pub mod Solvent
pub mod Legs
pub mod Shifts
pub mod Transfers
use stellar_upshift_vault_co.Base.{◌≡◌, ◌≢◌, ◌==◌, Bool, true, Option, some}
use stellar_upshift_vault_co.Base.Int.{ℤ, pos, ◌<ℤ◌, ◌≤ℤ◌, ◌+ℤ◌, ◌-ℤ◌}
use stellar_upshift_vault_co.Soroban.{Address, value}
use stellar_upshift_vault_co.Vault.State.{Env}

module _ {X : Type 0} (e : Env X) where
  -- What of the vault's surroundings a step from `x` to `x'` leaves: the asset of the vault, and the
  -- reports of all strategies but the one at `a`.
  pub record Aside (a : Address) (x x' : X) : Type 0 where
    pub asset : e.query_asset x' ≡ e.query_asset x
    pub reports : (c : Address) → c ≢ a → e.strategy_balance c x' ≡ e.strategy_balance c x

  -- Transfers between the vault and `a` concern nobody else.
  pub record Token (asset a : Address) : Type 0 where
    pub transferred :
        (amount : ℤ) (x x' : X)
        → e.token_transfer asset e.current_contract_address a amount x ≡ some x'
        → Aside a x x'
    pub transferred_from :
        (amount : ℤ) (x x' : X)
        → e.token_transfer_from asset e.current_contract_address a e.current_contract_address amount
            x
          ≡ some x'
        → Aside a x x'

  -- How transfers go through the reports of `IStrategy`, at the address `a`. `deposit` comes after the
  -- transfer that it notifies of, with the amount that left the vault; `withdraw` pays the vault;
  -- `get_balance`, where it answers, moves by what left or reached the vault. The laws are asked where
  -- `get_asset` answers the asset.
  pub record Accounts (asset a : Address) : Type 0 where
    pub deposited :
        (amount before after balance balance' : ℤ) (x x₁ x₂ : X)
        → e.strategy_asset a x ≡ some asset
        → e.token_balance asset e.current_contract_address x ≡ value before
        → e.strategy_balance a x ≡ value balance
        → e.token_transfer asset e.current_contract_address a amount x ≡ some x₁
        → e.token_balance asset e.current_contract_address x₁ ≡ value after
        → e.strategy_deposit a e.current_contract_address (before -ℤ after) x₁ ≡ some x₂
        → e.strategy_balance a x₂ ≡ value balance'
        → balance' ≡ balance +ℤ (before -ℤ after)
    pub deposit_notifies :
        (amount : ℤ) (x x' : X)
        → e.strategy_deposit a e.current_contract_address amount x ≡ some x'
        → e.token_balance asset e.current_contract_address x'
          ≡ e.token_balance asset e.current_contract_address x
    pub deposit_aside :
        (amount : ℤ) (x x' : X)
        → e.strategy_deposit a e.current_contract_address amount x ≡ some x'
        → Aside a x x'
    pub withdrawn :
        (amount before after balance balance' : ℤ) (x x' : X)
        → e.strategy_asset a x ≡ some asset
        → e.token_balance asset e.current_contract_address x ≡ value before
        → e.strategy_balance a x ≡ value balance
        → e.strategy_withdraw a e.current_contract_address amount x ≡ some x'
        → e.token_balance asset e.current_contract_address x' ≡ value after
        → e.strategy_balance a x' ≡ value balance'
        → balance' ≡ balance -ℤ (after -ℤ before)
    pub withdraw_aside :
        (amount : ℤ) (x x' : X)
        → e.strategy_asset a x ≡ some asset
        → e.strategy_withdraw a e.current_contract_address amount x ≡ some x'
        → Aside a x x'

  -- A call that changed nothing that the token or the strategy shows.
  pub record IsNoOp (a : Address) (x x' : X) : Type 0 where
    pub holdings : (asset c : Address) → e.token_balance asset c x' ≡ e.token_balance asset c x
    pub report : e.strategy_balance a x' ≡ e.strategy_balance a x
    pub local : e.strategy_local_balance a x' ≡ e.strategy_local_balance a x

  -- What the documentation of `IStrategy` demands of the strategy at `a` for this vault, in the states
  -- where it is set up: `IsSetUp` says which these are, `estimate` is its estimate of the capital
  -- outside, and `deposit_as`, `withdraw_as` are its two functions in a frame with the given
  -- authorizations, whoever calls. The value that `withdraw` returns, which the vault ignores, is not
  -- represented.
  pub record IStrategy (asset a : Address) (IsSetUp : X → Type 0) (estimate : X → ℤ)
      (deposit_as withdraw_as : (Address → Bool) → Address → ℤ → X → Option X) : Type 0 where
    pub accounts : Accounts asset a
    -- The vault's client calls them, as the direct caller, whose `require_auth` the host grants.
    pub deposit_called :
        (from : Address) (amount : ℤ) (x : X)
        → e.strategy_deposit a from amount x
          ≡ deposit_as (λ c. c == e.current_contract_address) from amount x
    pub withdraw_called :
        (to : Address) (amount : ℤ) (x : X)
        → e.strategy_withdraw a to amount x
          ≡ withdraw_as (λ c. c == e.current_contract_address) to amount x
    -- Authorization: both authenticate the call, and only the vault's goes through.
    pub deposit_restricted :
        (auth : Address → Bool) (from : Address) (amount : ℤ) (x x' : X)
        → IsSetUp x
        → pos 0 <ℤ amount
        → deposit_as auth from amount x ≡ some x'
        → (from ≡ e.current_contract_address) × (auth e.current_contract_address ≡ true)
    pub withdraw_restricted :
        (auth : Address → Bool) (to : Address) (amount : ℤ) (x x' : X)
        → IsSetUp x
        → pos 0 <ℤ amount
        → withdraw_as auth to amount x ≡ some x'
        → (to ≡ e.current_contract_address) × (auth e.current_contract_address ≡ true)
    -- Zero-amount calls of the vault return and are no-ops.
    pub deposit_zero :
        (x : X)
        → IsSetUp x
        → (x' : X) × (e.strategy_deposit a e.current_contract_address (pos 0) x ≡ some x')
          × IsNoOp a x x'
    pub withdraw_zero :
        (x : X)
        → IsSetUp x
        → (x' : X) × (e.strategy_withdraw a e.current_contract_address (pos 0) x ≡ some x')
          × IsNoOp a x x'
    -- `withdraw` pays up to the amount.
    pub withdraw_up_to :
        (amount before after : ℤ) (x x' : X)
        → IsSetUp x
        → pos 0 ≤ℤ amount
        → e.token_balance asset e.current_contract_address x ≡ value before
        → e.strategy_withdraw a e.current_contract_address amount x ≡ some x'
        → e.token_balance asset e.current_contract_address x' ≡ value after
        → (pos 0 ≤ℤ after -ℤ before) × (after -ℤ before ≤ℤ amount)
    pub managed : (x : X) → IsSetUp x → e.strategy_asset a x ≡ some asset
    -- `get_balance` is not negative: it is the local balance and the estimate.
    pub balance_nonneg :
        (balance : ℤ) (x : X)
        → IsSetUp x
        → e.strategy_balance a x ≡ value balance
        → pos 0 ≤ℤ balance
    pub balance_sum :
        (balance tracked : ℤ) (x : X)
        → IsSetUp x
        → e.strategy_local_balance a x ≡ some tracked
        → e.strategy_balance a x ≡ value balance
        → balance ≡ tracked +ℤ estimate x
    -- `get_local_balance` is not negative: it is what the vault deposited and has not taken back.
    pub local_nonneg :
        (tracked : ℤ) (x : X)
        → IsSetUp x
        → e.strategy_local_balance a x ≡ some tracked
        → pos 0 ≤ℤ tracked
    pub deposited_local :
        (amount tracked : ℤ) (x x' : X)
        → e.strategy_asset a x ≡ some asset
        → e.strategy_local_balance a x ≡ some tracked
        → e.strategy_deposit a e.current_contract_address amount x ≡ some x'
        → e.strategy_local_balance a x' ≡ some (tracked +ℤ amount)
    pub withdrawn_local :
        (amount before after tracked : ℤ) (x x' : X)
        → e.strategy_asset a x ≡ some asset
        → e.token_balance asset e.current_contract_address x ≡ value before
        → e.strategy_local_balance a x ≡ some tracked
        → e.strategy_withdraw a e.current_contract_address amount x ≡ some x'
        → e.token_balance asset e.current_contract_address x' ≡ value after
        → e.strategy_local_balance a x' ≡ some (tracked -ℤ (after -ℤ before))
    -- Tokens that reach the strategy by a transfer are in neither the local balance nor the estimate.
    pub donation_ignored :
        (from : Address) (amount : ℤ) (x x' : X)
        → IsSetUp x
        → from ≢ a
        → pos 0 ≤ℤ amount
        → e.token_transfer asset from a amount x ≡ some x'
        → IsSetUp x'
          × (e.strategy_local_balance a x' ≡ e.strategy_local_balance a x)
          × (estimate x' ≡ estimate x)
    -- The vault's calls leave the estimate and the strategy set up.
    pub deposit_keeps :
        (amount : ℤ) (x x' : X)
        → IsSetUp x
        → e.strategy_deposit a e.current_contract_address amount x ≡ some x'
        → IsSetUp x' × (estimate x' ≡ estimate x)
    pub withdraw_keeps :
        (amount : ℤ) (x x' : X)
        → IsSetUp x
        → e.strategy_withdraw a e.current_contract_address amount x ≡ some x'
        → IsSetUp x' × (estimate x' ≡ estimate x)
