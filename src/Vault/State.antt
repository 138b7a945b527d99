-- ===== src/Vault/State.antt =====
-- What an invocation of the vault sees and changes: the environment of the call, which holds all code
-- outside this repository as parameters, the world, and the storage functions that may panic.
use stellar_upshift_vault_co.Base.{
  ℕ, Bool, not, ◌||◌, Option, none, some, List, ◌∷◌, ltb, ◌==◌, length,
}
use stellar_upshift_vault_co.Base.Int.{ℤ, pos, ltb_ℤ}
use stellar_upshift_vault_co.Soroban.{
  Address, ok, panic, Call, Probe, ◌>>=◌, ◌>>◌, panic_if, or_panic,
}
use stellar_upshift_vault_co.Vault.Errors.{
  Panic, error, trap, unauthorized, vault_paused, invalid_amount, invalid_aum_limits,
  max_subaccounts_reached,
}
use stellar_upshift_vault_co.Vault.Events.{Event}
use stellar_upshift_vault_co.Vault.Storage.{
  Storage, is_paused, with_entry, contains, min_aum_limit_bps, max_aum_limit_bps,
  min_aum_window_duration, max_aum_window_duration, max_subaccounts,
}

-- `stellar_contract_utils::math::Rounding`
pub data Rounding : Type 0 where
  floor ceil : Rounding

-- `X` is the state of everything outside the vault's own instance storage: the share ledger of the
-- vault library, the tokens and the strategies. A call that may trap answers `none` then. Views
-- (balances and the like) read `X`; what they do to the callee's own TTL or log is not represented.
pub record Env (X : Type 0) : Type 0 where
  -- the host
  pub current_contract_address : Address
  pub timestamp : ℕ
  pub authorized : Address → Bool
  pub extend_ttl : ℕ → ℕ → ℕ → ℕ
  -- stellar_tokens::vault::Vault and stellar_tokens::fungible::Base
  pub instance_ttl_threshold : ℕ
  pub instance_extend_amount : ℕ
  pub set_asset : Address → X → Option X
  pub set_decimals_offset : ℕ → X → Option X
  pub set_metadata : ℕ → ℕ → ℕ → X → Option X
  pub query_asset : X → Option Address
  pub get_decimals_offset : X → ℕ
  pub decimals : X → Option ℕ
  pub total_supply : X → ℤ
  pub share_balance : X → Address → ℤ
  pub transfer : Address → Address → ℤ → X → Option X
  pub transfer_from : Address → Address → Address → ℤ → X → Option X
  pub approve : Address → Address → ℤ → ℕ → X → Option X
  pub deposit_internal : Address → ℤ → ℤ → Address → Address → X → Option X
  pub withdraw_internal : Address → Address → ℤ → ℤ → Address → X → Option X
  pub mul_div : ℤ → ℤ → ℤ → Rounding → Option ℤ
  -- soroban_sdk::token::Client, at a token's address
  pub token_decimals : Address → X → Option ℕ
  pub token_balance : Address → Address → X → Probe
  pub token_transfer : Address → Address → Address → ℤ → X → Option X
  pub token_transfer_from : Address → Address → Address → Address → ℤ → X → Option X
  -- StrategyClient (contracts/august-vault/src/strategy.rs), at a strategy's address
  pub strategy_deposit : Address → Address → ℤ → X → Option X
  pub strategy_withdraw : Address → Address → ℤ → X → Option X
  pub strategy_balance : Address → X → Probe
  pub strategy_local_balance : Address → X → Option ℤ
  pub strategy_asset : Address → X → Option Address

pub record World (X : Type 0) : Type 0 where
  pub store : Storage
  pub ext : X
  pub ttl : ℕ
  pub events : List Event

-- A call of the vault.
abbrev pub Action : Type 0 → Type 0 → Type 0
Action X A = Call Panic (World X) A

module _ {X : Type 0} where
  -- Reads of the storage and of the state outside.
  abbrev pub load : {A : Type 0} → (Storage → A) → Action X A
  load f w = ok (f w.store) w

  abbrev pub view : {A : Type 0} → (X → A) → Action X A
  view f w = ok (f w.ext) w

  -- A view that may trap.
  abbrev pub try_view : {A : Type 0} → (X → Option A) → Action X A
  try_view f w = or_panic (f w.ext) trap w

  -- A storage write that cannot fail.
  abbrev pub save : (Storage → Storage) → Action X (Unit {0})
  save f w = ok tt (record w { store = f w.store })

  -- A call of other code that changes its state or traps.
  abbrev pub invoke : (X → Option X) → Action X (Unit {0})
  invoke f w = elim (f w.ext) [ none ↦ panic trap | some x ↦ ok tt (record w { ext = x }) ]

  -- `publish`: the newest event stands first.
  abbrev pub emit : Event → Action X (Unit {0})
  emit ev w = ok tt (record w { events = ev ∷ w.events })

  unfoldable pub set_deployed_assets : ℤ → Action X (Unit {0})
  set_deployed_assets amount = do
    panic_if (ltb_ℤ amount (pos 0)) (error invalid_amount)
    save (λ s. record s { deployed_assets = some amount })

  unfoldable pub set_subaccounts : List Address → Action X (Unit {0})
  set_subaccounts subs = do
    panic_if (ltb max_subaccounts (length subs)) (error max_subaccounts_reached)
    save (λ s. record s { subaccounts = some subs })

  unfoldable pub set_wallet_net_deployed : Address → ℤ → Action X (Unit {0})
  set_wallet_net_deployed a amount = do
    panic_if (ltb_ℤ amount (pos 0)) (error invalid_amount)
    save (λ s. record s { wallet_net_deployed = with_entry s.wallet_net_deployed a amount })

  unfoldable pub require_not_paused : Action X (Unit {0})
  require_not_paused = do panic_if (← load is_paused) (error vault_paused)

  unfoldable pub set_aum_limits : ℕ → ℕ → Action X (Unit {0})
  set_aum_limits increase_bps decrease_bps = do
    panic_if
        (not (contains min_aum_limit_bps max_aum_limit_bps increase_bps)
          || not (contains min_aum_limit_bps max_aum_limit_bps decrease_bps))
        (error invalid_aum_limits)
    save (λ s. record s {
      aum_increase_limit = some increase_bps;
      aum_decrease_limit = some decrease_bps;
    })

  unfoldable pub set_aum_window_limits : ℕ → ℕ → ℕ → Action X (Unit {0})
  set_aum_window_limits window_duration increase_bps decrease_bps = do
    panic_if
        (not (contains min_aum_window_duration max_aum_window_duration window_duration)
          || not (contains min_aum_limit_bps max_aum_limit_bps increase_bps)
          || not (contains min_aum_limit_bps max_aum_limit_bps decrease_bps))
        (error invalid_aum_limits)
    save (λ s. record s {
      aum_window_duration = some window_duration;
      aum_cumulative_increase_limit = some increase_bps;
      aum_cumulative_decrease_limit = some decrease_bps;
    })

module _ {X : Type 0} (e : Env X) where
  -- `bump_instance`
  unfoldable pub bump_instance : Action X (Unit {0})
  bump_instance w =
      ok tt
        (record w { ttl = e.extend_ttl e.instance_ttl_threshold e.instance_extend_amount w.ttl })

  -- `address.require_auth()`
  unfoldable pub require_auth : Address → Action X (Unit {0})
  require_auth a = panic_if (not (e.authorized a)) trap

  unfoldable pub require_admin : Address → Action X (Unit {0})
  unfolding require_auth
  require_admin caller = do
    require_auth caller
    admin ← or_panic (← load (λ s. s.admin)) (error unauthorized)
    panic_if (not (caller == admin)) (error unauthorized)

  unfoldable pub require_operator : Address → Action X (Unit {0})
  unfolding require_auth
  require_operator caller = do
    require_auth caller
    operator ← or_panic (← load (λ s. s.operator)) (error unauthorized)
    panic_if (not (caller == operator)) (error unauthorized)
