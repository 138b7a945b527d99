-- ===== src/Vault/Subaccounts.antt =====
-- contracts/august-vault/src/contract.rs: the whitelist, and the transfers to and from subaccounts.
use stellar_upshift_vault_co.Base.{
  ℕ, suc, not, Option, none, some, List, [], ◌∷◌, ◌++◌, leb, ◌==◌, length, if◌then◌else◌, is_none,
  is_some,
}
use stellar_upshift_vault_co.Base.Int.{ℤ, pos, ltb_ℤ, leb_ℤ, eqb_ℤ, ◌-ℤ◌}
use stellar_upshift_vault_co.Soroban.{
  Address, Probe, value, convert_error, invoke_error, ◌>>=◌, ◌>>◌, pure, panic_if, or_panic, when,
}
use stellar_upshift_vault_co.Soroban.I128.{checked_add, checked_sub}
use stellar_upshift_vault_co.Vault.Errors.{
  error, math_overflow, invalid_amount, subaccount_not_whitelisted, subaccount_already_registered,
  max_subaccounts_reached, negative_strategy_balance, asset_mismatch, wallet_tracker_not_zero,
  subaccount_returned_nothing, wallet_over_withdraw, deployed_assets_underflow,
}
use stellar_upshift_vault_co.Vault.Events.{StrategyProbeFailure}
use stellar_upshift_vault_co.Vault.Storage.{
  SubaccountType, strategy, wallet, is_strategy, is_wallet, get_subaccounts, get_subaccount_type,
  set_subaccount_type, remove_subaccount_type, get_deployed_assets, get_wallet_net_deployed,
  remove_wallet_net_deployed, max_subaccounts,
}
use stellar_upshift_vault_co.Vault.Emit.{
  emit_deposit_to_subaccount, emit_strategy_balance_probe_failed, emit_subaccount_added,
  emit_subaccount_removed, emit_wallet_balance_diverged, emit_wallet_balance_probe_failed,
  emit_withdraw_from_subaccount,
}
use stellar_upshift_vault_co.Vault.State.{
  Env, Action, load, view, try_view, save, invoke, set_deployed_assets, set_subaccounts,
  set_wallet_net_deployed, require_not_paused, bump_instance, require_admin, require_operator,
}
use stellar_upshift_vault_co.Vault.Pricing.{balance_or_trap, client_balance}

-- The position of the first occurrence: `(0..subs.len()).find(|&i| subs.get(i) == subaccount)`.
unfoldable pub find_subaccount_index : List Address → Address → Option ℕ
find_subaccount_index [] a = none
find_subaccount_index (sub ∷ subs) a =
    if sub == a
    then some 0
    else elim (find_subaccount_index subs a) [ none ↦ none | some i ↦ some (suc i) ]

-- The loop of `subaccounts_without_index`, from position `i` on.
unfoldable pub without_index_from : ℕ → List Address → ℕ → List Address
without_index_from i [] idx = []
without_index_from i (sub ∷ subs) idx =
    let rest = without_index_from (suc i) subs idx in if i == idx then rest else sub ∷ rest

unfoldable pub subaccounts_without_index : List Address → ℕ → List Address
unfolding without_index_from
subaccounts_without_index subs idx = without_index_from 0 subs idx

module _ {X : Type 0} (e : Env X) where
  unfoldable pub require_whitelisted : Address → Action X (Unit {0})
  require_whitelisted a = do
    subs ← load get_subaccounts
    panic_if (is_none (find_subaccount_index subs a)) (error subaccount_not_whitelisted)

  -- The interface checks of `add_subaccount` on a strategy.
  unfoldable pub smoke_test : Address → Action X (Unit {0})
  smoke_test a = do
    invoke (e.strategy_deposit a e.current_contract_address (pos 0))
    invoke (e.strategy_withdraw a e.current_contract_address (pos 0))
    balance ← try_view (λ x. balance_or_trap (e.strategy_balance a x))
    panic_if (ltb_ℤ balance (pos 0)) (error negative_strategy_balance)
    local ← try_view (e.strategy_local_balance a)
    panic_if (ltb_ℤ local (pos 0)) (error negative_strategy_balance)
    strategy_asset ← try_view (e.strategy_asset a)
    asset ← try_view e.query_asset
    panic_if (not (strategy_asset == asset)) (error asset_mismatch)

  unfoldable pub add_subaccount : Address → Address → SubaccountType → Action X (Unit {0})
  add_subaccount admin a kind = do
    bump_instance e
    require_admin e admin
    require_not_paused
    subs ← load get_subaccounts
    panic_if (is_some (find_subaccount_index subs a)) (error subaccount_already_registered)
    panic_if (leb max_subaccounts (length subs)) (error max_subaccounts_reached)
    when (is_strategy kind) (smoke_test a)
    set_subaccounts (subs ++ a ∷ [])
    save (set_subaccount_type a kind)
    emit_subaccount_added admin a kind

  -- The diagnosis of a wallet in `do_remove_subaccount`, by the answer of `try_balance`.
  unfoldable pub wallet_diagnosis : Address → ℤ → Probe → Action X (Unit {0})
  wallet_diagnosis a tracked (value observed) =
      when (not (eqb_ℤ observed tracked)) (emit_wallet_balance_diverged a tracked observed)
  wallet_diagnosis a tracked convert_error = emit_wallet_balance_probe_failed a tracked
  wallet_diagnosis a tracked invoke_error = emit_wallet_balance_probe_failed a tracked

  -- The diagnosis of a strategy there, by the answer of `try_get_balance`.
  unfoldable pub strategy_diagnosis : Address → Probe → Action X (Option ℤ)
  strategy_diagnosis a (value b) = pure (some b)
  strategy_diagnosis a convert_error = do
    emit_strategy_balance_probe_failed a StrategyProbeFailure.convert_error
    pure none
  strategy_diagnosis a invoke_error = do
    emit_strategy_balance_probe_failed a StrategyProbeFailure.invoke_error
    pure none

  unfoldable pub diagnose : Address → SubaccountType → Action X (Option ℤ)
  diagnose a wallet = do
    tracked ← load (λ s. get_wallet_net_deployed s a)
    asset ← try_view e.query_asset
    wallet_diagnosis a tracked (← view (e.token_balance asset a))
    pure none
  diagnose a strategy = do strategy_diagnosis a (← view (e.strategy_balance a))

  unfoldable pub do_remove_subaccount : Address → Address → Action X (Unit {0})
  do_remove_subaccount remover a = do
    subs ← load get_subaccounts
    idx ← or_panic (find_subaccount_index subs a) (error subaccount_not_whitelisted)
    kind ← load (λ s. get_subaccount_type s a)
    set_subaccounts (subaccounts_without_index subs idx)
    save (remove_subaccount_type a)
    strategy_balance ← diagnose a kind
    save (remove_wallet_net_deployed a)
    deployed ← load get_deployed_assets
    emit_subaccount_removed remover a deployed strategy_balance kind

  unfoldable pub remove_subaccount : Address → Address → Action X (Unit {0})
  remove_subaccount admin a = do
    bump_instance e
    require_admin e admin
    tracked ← load (λ s. get_wallet_net_deployed s a)
    panic_if (not (eqb_ℤ tracked (pos 0))) (error wallet_tracker_not_zero)
    do_remove_subaccount admin a

  -- The bookkeeping of `deposit_to_subaccount` for a wallet.
  unfoldable pub book_deposit : Address → ℤ → Action X (Unit {0})
  book_deposit a actual_sent = do
    deployed ← load get_deployed_assets
    new_deployed ← or_panic (checked_add deployed actual_sent) (error math_overflow)
    set_deployed_assets new_deployed
    tracked ← load (λ s. get_wallet_net_deployed s a)
    new_wallet_net ← or_panic (checked_add tracked actual_sent) (error math_overflow)
    set_wallet_net_deployed a new_wallet_net

  unfoldable pub deposit_to_subaccount : Address → Address → ℤ → Action X (Unit {0})
  deposit_to_subaccount operator a amount = do
    bump_instance e
    require_operator e operator
    require_not_paused
    panic_if (leb_ℤ amount (pos 0)) (error invalid_amount)
    require_whitelisted a
    asset ← try_view e.query_asset
    balance_before ← client_balance e asset e.current_contract_address
    invoke (e.token_transfer asset e.current_contract_address a amount)
    balance_after ← client_balance e asset e.current_contract_address
    actual_sent ← or_panic (checked_sub balance_before balance_after) (error math_overflow)
    panic_if (leb_ℤ actual_sent (pos 0)) (error invalid_amount)
    kind ← load (λ s. get_subaccount_type s a)
    when (is_strategy kind) (invoke (e.strategy_deposit a e.current_contract_address actual_sent))
    when (is_wallet kind) (book_deposit a actual_sent)
    emit_deposit_to_subaccount operator a amount actual_sent

  -- How `withdraw_from_subaccount` asks for the tokens.
  unfoldable pub pull : Address → Address → ℤ → SubaccountType → Action X (Unit {0})
  pull asset a amount strategy = invoke (e.strategy_withdraw a e.current_contract_address amount)
  pull asset a amount wallet =
      invoke
        (e.token_transfer_from asset e.current_contract_address a e.current_contract_address amount)

  -- The bookkeeping of `withdraw_from_subaccount` for a wallet.
  unfoldable pub book_withdrawal : Address → ℤ → Action X (Unit {0})
  book_withdrawal a actual_received = do
    tracked ← load (λ s. get_wallet_net_deployed s a)
    panic_if (ltb_ℤ tracked actual_received) (error wallet_over_withdraw)
    set_wallet_net_deployed a (tracked -ℤ actual_received)
    old_deployed ← load get_deployed_assets
    new_deployed ← or_panic (checked_sub old_deployed actual_received) (error math_overflow)
    panic_if (ltb_ℤ new_deployed (pos 0)) (error deployed_assets_underflow)
    set_deployed_assets new_deployed

  unfoldable pub withdraw_from_subaccount : Address → Address → ℤ → Action X (Unit {0})
  withdraw_from_subaccount operator a amount = do
    bump_instance e
    require_operator e operator
    require_not_paused
    panic_if (leb_ℤ amount (pos 0)) (error invalid_amount)
    require_whitelisted a
    asset ← try_view e.query_asset
    balance_before ← client_balance e asset e.current_contract_address
    kind ← load (λ s. get_subaccount_type s a)
    pull asset a amount kind
    balance_after ← client_balance e asset e.current_contract_address
    actual_received ← or_panic (checked_sub balance_after balance_before) (error math_overflow)
    panic_if (leb_ℤ actual_received (pos 0)) (error subaccount_returned_nothing)
    when (is_wallet kind) (book_withdrawal a actual_received)
    emit_withdraw_from_subaccount operator a amount actual_received
