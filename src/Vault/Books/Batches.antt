-- ===== src/Vault/Books/Batches.antt =====
-- `update_wallet_deployed_batch` (contracts/august-vault/src/contract.rs) and the books.
use stellar_upshift_vault_co.Base.{
  ◌≡◌, ◌≢◌, refl, Bool, false, Option, none, some, [], ◌∷◌, arith, ap, subst, ◌∙◌,
}
use stellar_upshift_vault_co.Base.Int.{
  ◌≤ℤ◌, +ℤ_assoc, zero_+ℤ, +ℤ_zero, ℤ, pos, ◌+ℤ◌, ◌-ℤ◌, int_laws,
}
use stellar_upshift_vault_co.Soroban.{Address, Ensures, Ensures-mono, Ensures-bind}
use stellar_upshift_vault_co.Soroban.I128.{checked_add, checked_sub}
use stellar_upshift_vault_co.Vault.Storage.{
  Storage, wallet, Map, get_subaccounts, get_subaccount_type, get_wallet_net_deployed, is_paused,
  get_deployed_assets, with_entry,
}
use stellar_upshift_vault_co.Vault.State.{
  Env, World, set_wallet_net_deployed, bump_instance, require_operator,
}
use stellar_upshift_vault_co.Vault.Limits.Effect.{apply-Applied}
use stellar_upshift_vault_co.Vault.Subaccounts.{find_subaccount_index, require_whitelisted}
use stellar_upshift_vault_co.Vault.Wallets.{require_wallet}
use stellar_upshift_vault_co.Vault.Batch.{
  Updates, occurs, has_duplicates, validate_entry, validate_entries, commit_entry, commit_entries,
  apply_batch, update_wallet_deployed_batch,
}
use stellar_upshift_vault_co.Vault.Books.{IsBalanced, book, keep}
use stellar_upshift_vault_co.Vault.Books.Moves.{Move-IsBalanced}

-- The sum of the changes that a batch makes to the trackers.
abbrev pub net_delta : Storage → Updates → ℤ
net_delta s [] = pos 0
net_delta s ((a, v) ∷ updates) = (v -ℤ get_wallet_net_deployed s a) +ℤ net_delta s updates

-- The tracker map with every entry of a batch written.
abbrev pub written : Option (Map ℤ) → Updates → Option (Map ℤ)
written m [] = m
written m ((a, v) ∷ updates) = written (with_entry m a v) updates

-- Every entry of a batch names a whitelisted wallet, with a value that is not negative.
abbrev pub AllWallets : Storage → Updates → Type 0
AllWallets s [] = Unit
AllWallets s ((a, v) ∷ updates) =
    (find_subaccount_index (get_subaccounts s) a ≢ none)
    × (get_subaccount_type s a ≡ wallet)
    × (pos 0 ≤ℤ v)
    × AllWallets s updates

-- The storage after a batch: the trackers written, and the aggregate moved by the net change.
abbrev pub after_batch : Storage → Updates → Storage
after_batch s updates = record s {
  wallet_net_deployed = written s.wallet_net_deployed updates;
  deployed_assets = some (get_deployed_assets s +ℤ net_delta s updates);
}

-- The storage after the first entry alone.
abbrev after_entry : Storage → Address → ℤ → Storage
after_entry s a v = record s {
  wallet_net_deployed = with_entry s.wallet_net_deployed a v;
  deployed_assets = some (get_deployed_assets s +ℤ (v -ℤ get_wallet_net_deployed s a));
}

net_delta-after_entry :
    (s : Storage) (a : Address) (v : ℤ) (updates : Updates)
    → occurs a updates ≡ false
    → net_delta (after_entry s a v) updates ≡ net_delta s updates
net_delta-after_entry s a v [] fresh = refl
net_delta-after_entry s a v ((b, u) ∷ updates) fresh =
    ground (arith, net_delta-after_entry s a v updates)

AllWallets-after_entry :
    (s : Storage) (a : Address) (v : ℤ) (updates : Updates)
    → AllWallets s updates
    → AllWallets (after_entry s a v) updates
AllWallets-after_entry s a v [] h = tt
AllWallets-after_entry s a v ((b, u) ∷ updates) h =
    (h.0, h.1, h.2, AllWallets-after_entry s a v updates h.3)

entry_shift : (d v t : ℤ) → d +ℤ (v -ℤ t) +ℤ t ≡ d +ℤ v
entry_shift d v t = omega int_laws

-- A batch is written entry by entry.
one_by_one :
    (s : Storage) (a : Address) (v : ℤ) (updates : Updates)
    → occurs a updates ≡ false
    → after_batch (after_entry s a v) updates ≡ after_batch s ((a, v) ∷ updates)
one_by_one s a v updates fresh =
    ap
      (λ (x : ℤ). record s {
        wallet_net_deployed = written (with_entry s.wallet_net_deployed a v) updates;
        deployed_assets = some x;
      })
      (rw (net_delta-after_entry s a v updates fresh)
        (+ℤ_assoc (get_deployed_assets s) (v -ℤ get_wallet_net_deployed s a) (net_delta s updates)))

after_entry-IsBalanced :
    (s : Storage) (a : Address) (v : ℤ)
    → find_subaccount_index (get_subaccounts s) a ≢ none
    → get_subaccount_type s a ≡ wallet
    → IsBalanced s
    → IsBalanced (after_entry s a v)
after_entry-IsBalanced s a v listed kind = Move-IsBalanced (
    book a v listed kind refl refl refl
      (entry_shift (get_deployed_assets s) v (get_wallet_net_deployed s a)))

-- Writing a batch without repetitions keeps the books balanced.
after_batch-IsBalanced :
    (s : Storage) (updates : Updates)
    → has_duplicates updates ≡ false
    → AllWallets s updates
    → IsBalanced s
    → IsBalanced (after_batch s updates)
after_batch-IsBalanced s [] distinct h b = record {
  distinct = b.distinct;
  fresh = b.fresh;
  balanced = rw (b.balanced, +ℤ_zero);
}
after_batch-IsBalanced s ((a, v) ∷ updates) distinct h b =
    subst IsBalanced (one_by_one s a v updates (ground arith)) (
      after_batch-IsBalanced (after_entry s a v) updates (ground arith)
        (AllWallets-after_entry s a v updates h.3) (after_entry-IsBalanced s a v h.0 h.1 b))

-- What the first pass establishes, given the running total `acc`: it changes nothing.
record Validated (acc : ℤ) (s : Storage) (updates : Updates) (d : ℤ) : Type 0 where
  wallets : AllWallets s updates
  total : d ≡ acc +ℤ net_delta s updates

-- What the second pass does.
record Committed (s : Storage) (updates : Updates) (s' : Storage) : Type 0 where
  subaccounts : s'.subaccounts ≡ s.subaccounts
  subaccount_types : s'.subaccount_types ≡ s.subaccount_types
  wallet_net_deployed : s'.wallet_net_deployed ≡ written s.wallet_net_deployed updates
  deployed_assets : s'.deployed_assets ≡ s.deployed_assets

-- What a batch writes, whose changes sum to `d`.
pub record Written (updates : Updates) (d : ℤ) (s s' : Storage) : Type 0 where
  pub subaccounts : s'.subaccounts ≡ s.subaccounts
  pub subaccount_types : s'.subaccount_types ≡ s.subaccount_types
  pub wallet_net_deployed : s'.wallet_net_deployed ≡ written s.wallet_net_deployed updates
  pub deployed_assets : s'.deployed_assets ≡ some (get_deployed_assets s +ℤ d)

module _ {X : Type 0} (e : Env X) where
  validate_entry-Validated :
      (paused : Bool) (a : Address) (v : ℤ) (w : World X)
      → Ensures
          (λ d w'.
            (w' ≡ w)
            × (find_subaccount_index (get_subaccounts w.store) a ≢ none)
            × (get_subaccount_type w.store a ≡ wallet)
            × (pos 0 ≤ℤ v)
            × (d ≡ v -ℤ get_wallet_net_deployed w.store a))
          (validate_entry e paused a v w)
  unfolding validate_entry require_wallet require_whitelisted checked_sub
  validate_entry-Validated paused a v w = ground arith

  validate-Validated :
      (paused : Bool) (updates : Updates) (acc : ℤ) (w : World X)
      → Ensures
          (λ d w'. (w' ≡ w) × Validated acc w.store updates d)
          (validate_entries e paused updates acc w)
  unfolding validate_entries checked_add
  validate-Validated paused [] acc w = (refl, ground (arith, +ℤ_zero acc))
  validate-Validated paused ((a, v) ∷ updates) acc w = ground (
    arith,
    validate_entry-Validated paused a v w,
    validate-Validated paused updates (acc +ℤ (v -ℤ get_wallet_net_deployed w.store a)) w,
    +ℤ_assoc acc (v -ℤ get_wallet_net_deployed w.store a) (net_delta w.store updates),
  )

  commit_entry-Committed :
      (operator a : Address) (v : ℤ) (w : World X)
      → Ensures (λ _ w'. Committed w.store ((a, v) ∷ []) w'.store) (commit_entry e operator a v w)
  unfolding commit_entry set_wallet_net_deployed
  commit_entry-Committed operator a v w = ground arith

  commit-Committed :
      (operator : Address) (updates : Updates) (w : World X)
      → Ensures (λ _ w'. Committed w.store updates w'.store) (commit_entries e operator updates w)
  unfolding commit_entries
  commit-Committed operator [] w = ground arith
  commit-Committed operator ((a, v) ∷ updates) w =
      Ensures-bind (λ _ w'. Committed w.store ((a, v) ∷ []) w'.store)
        (λ _ w'. Committed w.store ((a, v) ∷ updates) w'.store) (commit_entry e operator a v)
        (λ _. commit_entries e operator updates) w (commit_entry-Committed operator a v w)
        λ _ w' first.
          Ensures-mono (commit_entries e operator updates w') (commit-Committed operator updates w')
            λ _ w'' rest. record {
              subaccounts = rest.subaccounts ∙ first.subaccounts;
              subaccount_types = rest.subaccount_types ∙ first.subaccount_types;
              wallet_net_deployed =
                  rest.wallet_net_deployed ∙ ap (λ m. written m updates) first.wallet_net_deployed;
              deployed_assets = rest.deployed_assets ∙ first.deployed_assets;
            }

  apply_batch-Written :
      (operator : Address) (updates : Updates) (d : ℤ) (w : World X)
      → Ensures (λ _ w'. Written updates d w.store w'.store) (apply_batch e operator updates d w)
  unfolding apply_batch checked_add
  apply_batch-Written operator updates d w = grind (arith, apply-Applied, commit-Committed)

  abbrev bumped : World X → World X
  bumped w = record w { ttl = e.extend_ttl e.instance_ttl_threshold e.instance_extend_amount w.ttl }

  -- A batch that returns names no address twice and only whitelisted wallets, with values that are
  -- not negative; it writes every entry
  -- to the trackers, moves the aggregate by the sum of the trackers' changes, and leaves the
  -- whitelist and the types.
  pub batch-Written :
      (operator : Address) (updates : Updates) (w : World X)
      → Ensures
          (λ _ w'.
            (has_duplicates updates ≡ false)
            × AllWallets w.store updates
            × Written updates (net_delta w.store updates) w.store w'.store)
          (update_wallet_deployed_batch e operator updates w)
  unfolding update_wallet_deployed_batch bump_instance require_operator
  batch-Written operator updates w = ground (
    arith,
    validate-Validated (is_paused w.store) updates (pos 0) (bumped w),
    apply_batch-Written operator updates (net_delta w.store updates) (bumped w),
    zero_+ℤ (net_delta w.store updates),
  )

-- A batch that returns keeps the books balanced.
pub batch-IsBalanced :
    {X : Type 0} (e : Env X) (operator : Address) (updates : Updates) (w : World X)
    → Ensures
        (λ _ w'. IsBalanced w.store → IsBalanced w'.store)
        (update_wallet_deployed_batch e operator updates w)
batch-IsBalanced e operator updates w =
    Ensures-mono (update_wallet_deployed_batch e operator updates w)
      (batch-Written e operator updates w)
      λ _ w' r b.
        Move-IsBalanced
          (keep r.2.subaccounts r.2.subaccount_types r.2.wallet_net_deployed r.2.deployed_assets)
          (after_batch-IsBalanced w.store updates r.0 r.1 b)
