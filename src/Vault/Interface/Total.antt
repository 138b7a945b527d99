-- ===== src/Vault/Interface/Total.antt =====
-- `custom_total_assets` (contracts/august-vault/src/contract.rs) before and after a transfer to or
-- from a subaccount.
use stellar_upshift_vault_co.Base.{
  ◌≡◌, ◌≢◌, ◌⊎◌, inl, inr, ℕ_discrete, refl, none, some, List, [], ◌∷◌, if◌then◌else◌, arith,
}
use stellar_upshift_vault_co.Base.Int.{ℤ, pos, ◌≤ℤ◌, ◌+ℤ◌, int_laws}
use stellar_upshift_vault_co.Soroban.{Address, value, Ensures, Ensures-mono, Ensures-both, Returns}
use stellar_upshift_vault_co.Soroban.I128.{i128_max, checked_add, checked, fits}
use stellar_upshift_vault_co.Vault.Storage.{
  SubaccountType, strategy, wallet, is_strategy, get_subaccounts, get_subaccount_type,
  get_deployed_assets,
}
use stellar_upshift_vault_co.Vault.State.{Env, World}
use stellar_upshift_vault_co.Vault.Pricing.{local_balance, total_assets_from, custom_total_assets}
use stellar_upshift_vault_co.Vault.Pricing.Total.{answered, strategy_sum, AllAnswer, total_from-sum}
use stellar_upshift_vault_co.Vault.Subaccounts.{find_subaccount_index}
use stellar_upshift_vault_co.Vault.Interface.Solvent.{total-Returns}
use stellar_upshift_vault_co.Vault.Books.{IsDistinct, sum}
use stellar_upshift_vault_co.Vault.Books.Sums.{sum_change}

-- What a subaccount adds to the sum of the strategies' reports.
abbrev pub report : {X : Type 0} → Env X → World X → Address → ℤ
report e w a =
    if is_strategy (get_subaccount_type w.store a)
    then answered (e.strategy_balance a w.ext)
    else pos 0

strategy_sum-sum :
    {X : Type 0} (e : Env X) (w : World X) (subs : List Address)
    → strategy_sum e w subs ≡ sum (report e w) subs
unfolding sum
strategy_sum-sum e w [] = refl
strategy_sum-sum e w (sub ∷ subs) = rw (strategy_sum-sum e w subs) refl

AllAnswer-listed :
    {X : Type 0} (e : Env X) (w : World X) (a : Address) (subs : List Address)
    → AllAnswer e w subs
    → find_subaccount_index subs a ≢ none
    → get_subaccount_type w.store a ≡ strategy
    → e.strategy_balance a w.ext ≡ value (answered (e.strategy_balance a w.ext))
unfolding find_subaccount_index
AllAnswer-listed e w a [] h listed kind = absurd (listed refl)
AllAnswer-listed e w a (sub ∷ subs) h listed kind =
    ground (arith, AllAnswer-listed e w a subs h.1, h.0)

-- What a total that is returned is made of.
pub record Valued {X : Type 0} (e : Env X) (w : World X) (total : ℤ) : Type 0 where
  pub asset : Address
  pub local : ℤ
  pub asset_eq : e.query_asset w.ext ≡ some asset
  pub local_eq : e.token_balance asset e.current_contract_address w.ext ≡ value local
  pub total_eq :
      total ≡ local +ℤ sum (report e w) (get_subaccounts w.store) +ℤ get_deployed_assets w.store
  pub in_range : total ≤ℤ i128_max
  pub all_answer : AllAnswer e w (get_subaccounts w.store)
  pub answers :
      (a : Address)
      → find_subaccount_index (get_subaccounts w.store) a ≢ none
      → get_subaccount_type w.store a ≡ strategy
      → e.strategy_balance a w.ext ≡ value (answered (e.strategy_balance a w.ext))

from_range :
    {X : Type 0} (e : Env X) (local : ℤ) (w : World X)
    → Ensures (λ total _. total ≤ℤ i128_max) (total_assets_from e local w)
unfolding total_assets_from checked_add checked fits
from_range e local w = ground arith

from-Valued :
    {X : Type 0} (e : Env X) (w : World X) (asset : Address) (local : ℤ)
    → e.query_asset w.ext ≡ some asset
    → e.token_balance asset e.current_contract_address w.ext ≡ value local
    → Ensures (λ total w'. (w' ≡ w) × Valued e w total) (total_assets_from e local w)
from-Valued e w asset local asset_eq local_eq =
    Ensures-mono {Q = λ total w'. (w' ≡ w) × Valued e w total} (total_assets_from e local w)
      (Ensures-both _ _ (total_assets_from e local w) (from_range e local w)
        (total_from-sum e local w))
      λ total w' (range, h). (
        h.0,
        record {
          asset = asset;
          local = local;
          asset_eq = asset_eq;
          local_eq = local_eq;
          total_eq = rw (← strategy_sum-sum e w (get_subaccounts w.store)) h.1;
          in_range = range;
          all_answer = h.3;
          answers = λ a. AllAnswer-listed e w a (get_subaccounts w.store) h.3;
        },
      )

pub total-Valued :
    {X : Type 0} (e : Env X) (w : World X)
    → Ensures (λ total w'. (w' ≡ w) × Valued e w total) (custom_total_assets e w)
unfolding custom_total_assets local_balance
total-Valued e w = grind (arith, from-Valued)

-- A step moves tokens between the vault and the subaccount `a`: what the vault held and what `a`
-- counts for stay the same together, and the rest of the books and of the reports stays.
pub record Shifted {X : Type 0} (e : Env X) (a : Address) (w w' : World X) : Type 0 where
  pub listed : find_subaccount_index (get_subaccounts w.store) a ≢ none
  pub subaccounts : w'.store.subaccounts ≡ w.store.subaccounts
  pub subaccount_types : w'.store.subaccount_types ≡ w.store.subaccount_types
  pub deployed_nonneg : pos 0 ≤ℤ get_deployed_assets w.store → pos 0 ≤ℤ get_deployed_assets w'.store
  pub asset : Address
  pub before : ℤ
  pub after : ℤ
  pub asset_eq : e.query_asset w.ext ≡ some asset
  pub asset_eq' : e.query_asset w'.ext ≡ some asset
  pub before_eq : e.token_balance asset e.current_contract_address w.ext ≡ value before
  pub after_eq : e.token_balance asset e.current_contract_address w'.ext ≡ value after
  pub counts :
      after +ℤ report e w' a +ℤ get_deployed_assets w'.store
      ≡ before +ℤ report e w a +ℤ get_deployed_assets w.store
  pub others : (c : Address) → c ≢ a → e.strategy_balance c w'.ext ≡ e.strategy_balance c w.ext

kind_cases : (kind : SubaccountType) → (kind ≡ wallet) ⊎ (kind ≡ strategy)
kind_cases wallet = inl refl
kind_cases strategy = inr refl

Shifted-report :
    {X : Type 0} {e : Env X} {a : Address} {w w' : World X} (c : Address)
    → Shifted e a w w'
    → c ≢ a
    → report e w c ≡ report e w' c
Shifted-report c h other = rw (h.subaccount_types, h.others c other) refl

total_shift :
    (l l' s s' d d' r r' : ℤ)
    → l' +ℤ r' +ℤ d' ≡ l +ℤ r +ℤ d
    → s' +ℤ r ≡ s +ℤ r'
    → l' +ℤ s' +ℤ d' ≡ l +ℤ s +ℤ d
total_shift l l' s s' d d' r r' h k = grind int_laws

-- The parts of the total after such a step add up to the total before it.
pub Shifted-sum :
    {X : Type 0} {e : Env X} {a : Address} {w w' : World X} {total : ℤ}
    → IsDistinct (get_subaccounts w.store)
    → (h : Shifted e a w w') → Valued e w total
    → h.after +ℤ strategy_sum e w' (get_subaccounts w'.store) +ℤ get_deployed_assets w'.store
      ≡ total
Shifted-sum {e = e} {a = a} {w = w} {w' = w'} distinct h v =
    let sums =
      sum_change (report e w) (report e w') a (get_subaccounts w.store) distinct h.listed
        (λ c other. Shifted-report c h other) in
    let same : v.local ≡ h.before =
      ground (arith, v.asset_eq, h.asset_eq, v.local_eq, h.before_eq) in
    rw (v.total_eq, same, strategy_sum-sum e w' (get_subaccounts w'.store), h.subaccounts)
      (total_shift h.before h.after (sum (report e w) (get_subaccounts w.store))
        (sum (report e w') (get_subaccounts w.store)) (get_deployed_assets w.store)
        (get_deployed_assets w'.store) (report e w a) (report e w' a) h.counts sums)

-- What the vault holds after it is not negative, nor is the answer of `a`, if `a` is a strategy.
pub record IsSolvent {X : Type 0} (e : Env X) (asset a : Address) (w : World X) : Type 0 where
  pub held_nonneg :
      (v : ℤ) → e.token_balance asset e.current_contract_address w.ext ≡ value v → pos 0 ≤ℤ v
  pub answer :
      get_subaccount_type w.store a ≡ strategy
      → (e.strategy_balance a w.ext ≡ value (answered (e.strategy_balance a w.ext)))
        × (pos 0 ≤ℤ answered (e.strategy_balance a w.ext))

Shifted-AllAnswer :
    {X : Type 0} {e : Env X} {asset a : Address} {w w' : World X} (subs : List Address)
    → Shifted e a w w'
    → IsSolvent e asset a w'
    → AllAnswer e w subs
    → AllAnswer e w' subs
Shifted-AllAnswer [] h s all = tt
Shifted-AllAnswer {e = e} {asset = asset} {a = a} {w = w} {w' = w'} (sub ∷ subs) h s all = (
  elim (ℕ_discrete sub a) [
    | yes same ↦ rw same (elim (kind_cases (get_subaccount_type w'.store a)) [
      | inl is_wallet ↦ inl is_wallet
      | inr is_strategy ↦ inr (s.answer is_strategy)
    ])
    | no other ↦ rw (h.subaccount_types, h.others sub other) all.0
  ],
  Shifted-AllAnswer subs h s all.1,
)

-- After such a step the total is returned, and is the total before it.
pub Shifted-total :
    {X : Type 0} {e : Env X} {asset a : Address} {w w' : World X} {total : ℤ}
    → IsDistinct (get_subaccounts w.store)
    → pos 0 ≤ℤ get_deployed_assets w.store
    → e.query_asset w.ext ≡ some asset
    → IsSolvent e asset a w'
    → Shifted e a w w'
    → Valued e w total
    → Returns (λ total' _. total' ≡ total) (custom_total_assets e w')
Shifted-total {e = e} {asset = asset} {a = a} {w = w} {w' = w'} {total = total} distinct nonneg
      queried s h v =
    let at_asset : h.asset ≡ asset = ground (arith, queried, h.asset_eq) in
    let held : e.token_balance asset e.current_contract_address w'.ext ≡ value h.after =
      rw at_asset at h.after_eq in
    let asset_eq' : e.query_asset w'.ext ≡ some asset = rw at_asset at h.asset_eq' in
    let sum = Shifted-sum distinct h v in
    let answers : AllAnswer e w' (get_subaccounts w'.store) =
      rw h.subaccounts (Shifted-AllAnswer (get_subaccounts w.store) h s v.all_answer) in
    let known =
      total-Returns e asset h.after w' asset_eq' held (s.held_nonneg h.after held) answers
        (h.deployed_nonneg nonneg) (rw sum v.in_range) in
    rw sum at known
