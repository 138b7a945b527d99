-- ===== src/Linked/Laws.antt =====
-- contracts/xlm-strategy/src/lib.rs against the interface in
-- contracts/august-vault/src/strategy.rs.
use stellar_upshift_vault_co.Base.{◌≡◌, ◌≢◌, sym, ◌∙◌, inl, inr, Option, some, arith}
use stellar_upshift_vault_co.Base.Int.{ℤ, ◌+ℤ◌, ◌-ℤ◌, min_ℤ, int_laws}
use stellar_upshift_vault_co.Soroban.{Address, Outcome, ok, panic, value, Ensures}
use stellar_upshift_vault_co.Vault.State.{Env}
use stellar_upshift_vault_co.Vault.Interface.{Aside}
use stellar_upshift_vault_co.Strategy.State.{
  World as StrategyWorld, Panic as StrategyPanic, get_local_balance, get_deployed_total,
}
use stellar_upshift_vault_co.Strategy.Funds.{deposit, withdraw}
use stellar_upshift_vault_co.Linked.{strategy_env, link, beside, state_of}
use stellar_upshift_vault_co.Linked.Strategy.{
  idle, Reported, probe-Reported, deposit_result, withdraw_result, DepositResult, WithdrawResult,
}

-- What the token at `asset` does on a transfer, as SEP-41 documents it: the amount leaves one
-- balance and reaches the other, and nothing else moves. `b` stands for everything but the strategy.
pub record Exact {T : Type 0} (b : Env T) (asset : Address) : Type 0 where
  pub debits :
      (from to : Address) (amount v : ℤ) (t t' : T)
      → from ≢ to
      → b.token_transfer asset from to amount t ≡ some t'
      → b.token_balance asset from t ≡ value v
      → b.token_balance asset from t' ≡ value (v -ℤ amount)
  pub credits :
      (from to : Address) (amount v : ℤ) (t t' : T)
      → from ≢ to
      → b.token_transfer asset from to amount t ≡ some t'
      → b.token_balance asset to t ≡ value v
      → b.token_balance asset to t' ≡ value (v +ℤ amount)
  -- A transfer from `s` to the vault concerns nobody else.
  pub returned :
      (s : Address) (amount : ℤ) (t t' : T)
      → b.token_transfer asset s b.current_contract_address amount t ≡ some t'
      → Aside b s t t'

pub beside-some :
    {T : Type 0} (f : T → Option T) (y y' : StrategyWorld T)
    → beside f y ≡ some y'
    → (f y.ext ≡ some y'.ext) × (y'.store ≡ y.store)
beside-some f y y' h = ground (arith, h)

pub value_inj : (v w : ℤ) → value v ≡ value w → v ≡ w
value_inj v w h = ground (arith, h)

min_up : (i l q : ℤ) → min_ℤ (i +ℤ q) (l +ℤ q) ≡ min_ℤ i l +ℤ q
min_up i l q = grind int_laws

min_down : (i l q : ℤ) → min_ℤ (i -ℤ q) (l -ℤ q) ≡ min_ℤ i l -ℤ q
min_down i l q = grind int_laws

up_total : (i l d q : ℤ) → min_ℤ (i +ℤ q) (l +ℤ q) +ℤ d ≡ min_ℤ i l +ℤ d +ℤ q
up_total i l d q = rw (min_up i l q) (omega int_laws)

down_total : (i l d q : ℤ) → min_ℤ (i -ℤ q) (l -ℤ q) +ℤ d ≡ min_ℤ i l +ℤ d -ℤ q
down_total i l d q = rw (min_down i l q) (omega int_laws)

paid_back : (v a : ℤ) → v -ℤ (v -ℤ a) ≡ a
paid_back v a = omega int_laws

received_back : (v a : ℤ) → v +ℤ a -ℤ v ≡ a
received_back v a = omega int_laws

unmoved_total : (v w : ℤ) → v ≡ v -ℤ (w -ℤ w)
unmoved_total v w = omega int_laws

module _ {T : Type 0} (b : Env T) (s asset : Address) (apart : b.current_contract_address ≢ s)
    (exact : Exact b asset) where
  pub deposit_state :
      (amount : ℤ) (y y' : StrategyWorld T)
      → (link b s).strategy_deposit s b.current_contract_address amount y ≡ some y'
      → state_of (deposit (strategy_env b s) b.current_contract_address amount y) ≡ some y'
  deposit_state amount y y' h = ground (arith, h)

  pub withdraw_state :
      (amount : ℤ) (y y' : StrategyWorld T)
      → (link b s).strategy_withdraw s b.current_contract_address amount y ≡ some y'
      → state_of (withdraw (strategy_env b s) b.current_contract_address amount y) ≡ some y'
  withdraw_state amount y y' h = ground (arith, h)

  pub state_ok :
      {A : Type 0} (Q : StrategyWorld T → Type 0) (o : Outcome StrategyPanic (StrategyWorld T) A)
      (y' : StrategyWorld T)
      → state_of o ≡ some y'
      → Ensures (λ _. Q) o
      → Q y'
  state_ok Q (ok a y) y' h q = let same : y ≡ y' = ground (arith, h) in rw same at q
  state_ok Q (panic p) y' h q = ground (arith, h)

  -- Transfers between the vault and the strategy, and the strategy's answers on either side.
  deposited_law :
      (amount before after balance balance' : ℤ) (y y₁ y₂ : StrategyWorld T)
      → y.store.asset ≡ some asset
      → b.token_balance asset b.current_contract_address y.ext ≡ value before
      → Reported b s asset y balance
      → b.token_transfer asset b.current_contract_address s amount y.ext ≡ some y₁.ext
      → y₁.store ≡ y.store
      → b.token_balance asset b.current_contract_address y₁.ext ≡ value after
      → y₂.ext ≡ y₁.ext
      → get_deployed_total y₂.store ≡ get_deployed_total y₁.store
      → get_local_balance y₂.store ≡ get_local_balance y₁.store +ℤ (before -ℤ after)
      → Reported b s asset y₂ balance'
      → balance' ≡ balance +ℤ (before -ℤ after)
  deposited_law amount before after balance balance' y y₁ y₂ asset_eq had (idle_eq, reported) moved
        store left ext deployed local (idle_eq', reported') =
      let me = b.current_contract_address in
      let at_vault : after ≡ before -ℤ amount =
        value_inj after (before -ℤ amount)
          (sym left ∙ exact.debits me s amount before y.ext y₁.ext apart moved had) in
      let at_strategy : idle b s asset y₂ ≡ idle b s asset y +ℤ amount =
        value_inj (idle b s asset y₂) (idle b s asset y +ℤ amount) (
          sym idle_eq'
          ∙ rw ext
              (exact.credits me s amount (idle b s asset y) y.ext y₁.ext apart moved idle_eq)) in
      let gone : before -ℤ after ≡ amount = rw at_vault (paid_back before amount) in
      rw (reported', reported, at_strategy, local, deployed, store, gone)
        (up_total (idle b s asset y) (get_local_balance y.store) (get_deployed_total y.store)
          amount)

  withdrawn_law :
      (amount before after balance balance' : ℤ) (y y' : StrategyWorld T)
      → b.token_balance asset b.current_contract_address y.ext ≡ value before
      → Reported b s asset y balance
      → b.token_transfer asset s b.current_contract_address amount y.ext ≡ some y'.ext
      → b.token_balance asset b.current_contract_address y'.ext ≡ value after
      → get_deployed_total y'.store ≡ get_deployed_total y.store
      → get_local_balance y'.store ≡ get_local_balance y.store -ℤ amount
      → Reported b s asset y' balance'
      → balance' ≡ balance -ℤ (after -ℤ before)
  withdrawn_law amount before after balance balance' y y' had (idle_eq, reported) moved has deployed
        local (idle_eq', reported') =
      let me = b.current_contract_address in
      let apart' : s ≢ me = λ e. apart (sym e) in
      let at_vault : after ≡ before +ℤ amount =
        value_inj after (before +ℤ amount)
          (sym has ∙ exact.credits s me amount before y.ext y'.ext apart' moved had) in
      let at_strategy : idle b s asset y' ≡ idle b s asset y -ℤ amount =
        value_inj (idle b s asset y') (idle b s asset y -ℤ amount) (
          sym idle_eq'
          ∙ exact.debits s me amount (idle b s asset y) y.ext y'.ext apart' moved idle_eq) in
      let gone : after -ℤ before ≡ amount = rw at_vault (received_back before amount) in
      rw (reported', reported, at_strategy, local, deployed, gone)
        (down_total (idle b s asset y) (get_local_balance y.store) (get_deployed_total y.store)
          amount)

  unmoved_law :
      (before after balance balance' : ℤ) (y y' : StrategyWorld T)
      → b.token_balance asset b.current_contract_address y.ext ≡ value before
      → Reported b s asset y balance
      → y'.ext ≡ y.ext
      → b.token_balance asset b.current_contract_address y'.ext ≡ value after
      → get_deployed_total y'.store ≡ get_deployed_total y.store
      → get_local_balance y'.store ≡ get_local_balance y.store
      → Reported b s asset y' balance'
      → balance' ≡ balance -ℤ (after -ℤ before)
  unmoved_law before after balance balance' y y' had reported same has deployed local reported' =
      let at_vault : after ≡ before = value_inj after before (sym has ∙ rw same had) in
      rw (reported'.1, reported.1, same, local, deployed, at_vault)
        (unmoved_total
          (min_ℤ (idle b s asset y) (get_local_balance y.store) +ℤ get_deployed_total y.store)
          before)

  pub withdrawn_result :
      (amount before after balance balance' : ℤ) (y y' : StrategyWorld T)
      → y.store.asset ≡ some asset
      → b.token_balance asset b.current_contract_address y.ext ≡ value before
      → (link b s).strategy_balance s y ≡ value balance
      → (link b s).strategy_withdraw s b.current_contract_address amount y ≡ some y'
      → b.token_balance asset b.current_contract_address y'.ext ≡ value after
      → (link b s).strategy_balance s y' ≡ value balance'
      → balance' ≡ balance -ℤ (after -ℤ before)
  withdrawn_result amount before after balance balance' y y' asset_eq had answer paid has answer' =
      let result =
        state_ok (WithdrawResult b s amount asset y)
          (withdraw (strategy_env b s) b.current_contract_address amount y) y'
          (withdraw_state amount y y' paid) (withdraw_result b s amount asset y asset_eq) in
      let reported = probe-Reported b s y asset balance asset_eq answer in
      let reported' = probe-Reported b s y' asset balance' (rw result.0 asset_eq) answer' in
      elim result.2 [
        | inl (same, local) ↦
            unmoved_law before after balance balance' y y' had reported same has result.1 local
              reported'
        | inr (moved, local) ↦
            withdrawn_law (min_ℤ amount (get_local_balance y.store)) before after balance balance' y
              y' had reported moved has result.1 local reported'
      ]

  pub deposited_result :
      (amount before after balance balance' : ℤ) (y y₁ y₂ : StrategyWorld T)
      → y.store.asset ≡ some asset
      → b.token_balance asset b.current_contract_address y.ext ≡ value before
      → (link b s).strategy_balance s y ≡ value balance
      → (link b s).token_transfer asset b.current_contract_address s amount y ≡ some y₁
      → b.token_balance asset b.current_contract_address y₁.ext ≡ value after
      → (link b s).strategy_deposit s b.current_contract_address (before -ℤ after) y₁ ≡ some y₂
      → (link b s).strategy_balance s y₂ ≡ value balance'
      → balance' ≡ balance +ℤ (before -ℤ after)
  deposited_result amount before after balance balance' y y₁ y₂ asset_eq had answer moved left
        notified answer' =
      let (moved', store) =
        beside-some (b.token_transfer asset b.current_contract_address s amount) y y₁ moved in
      let asset_eq₁ : y₁.store.asset ≡ some asset = rw store asset_eq in
      let result =
        state_ok (DepositResult b s (before -ℤ after) asset y₁)
          (deposit (strategy_env b s) b.current_contract_address (before -ℤ after) y₁) y₂
          (deposit_state (before -ℤ after) y₁ y₂ notified)
          (deposit_result b s (before -ℤ after) asset y₁ asset_eq₁) in
      deposited_law amount before after balance balance' y y₁ y₂ asset_eq had
        (probe-Reported b s y asset balance asset_eq answer) moved' store left result.0 result.2
        result.3 (probe-Reported b s y₂ asset balance' (rw result.1 asset_eq₁) answer')

  pub withdrawn_local_result :
      (amount before after : ℤ) (y y' : StrategyWorld T)
      → b.token_balance asset b.current_contract_address y.ext ≡ value before
      → WithdrawResult b s amount asset y y'
      → b.token_balance asset b.current_contract_address y'.ext ≡ value after
      → get_local_balance y'.store ≡ get_local_balance y.store -ℤ (after -ℤ before)
  withdrawn_local_result amount before after y y' had result has = elim result.2 [
    | inl (same, local) ↦
        let at_vault : after ≡ before = value_inj after before (sym has ∙ rw same had) in
        rw (local, at_vault) (unmoved_total (get_local_balance y.store) before)
    | inr (moved, local) ↦
        let q = min_ℤ amount (get_local_balance y.store) in
        let at_vault : after ≡ before +ℤ q = value_inj after (before +ℤ q) (
          sym has
          ∙ exact.credits s b.current_contract_address q before y.ext y'.ext (λ e. apart (sym e))
              moved had) in
        let gone : after -ℤ before ≡ q = rw at_vault (received_back before q) in rw gone local
  ]
