-- ===== src/Vault/Storage.antt =====
-- contracts/august-vault/src/storage.rs: the instance storage, a field for each `StorageKey`, where
-- `none` is a key that was never written. A `Map<Address, V>` is a function into `Option V`.
-- The setters that may panic stand in Vault/State.
use stellar_upshift_vault_co.Base.{
  ℕ, Bool, true, false, ◌&&◌, Option, none, some, List, [], leb, ◌==◌, if◌then◌else◌, unwrap_or,
}
use stellar_upshift_vault_co.Base.Int.{ℤ, pos}
use stellar_upshift_vault_co.Soroban.{Address}

pub data SubaccountType : Type 0 where
  strategy wallet : SubaccountType

abbrev pub is_wallet : SubaccountType → Bool
is_wallet wallet = true
is_wallet strategy = false

abbrev pub is_strategy : SubaccountType → Bool
is_strategy strategy = true
is_strategy wallet = false

abbrev pub Map : Type 0 → Type 0
Map V = Address → Option V

abbrev pub empty : {V : Type 0} → Map V
empty a = none

abbrev pub set : {V : Type 0} → Map V → Address → V → Map V
set m k v a = if a == k then some v else m a

abbrev pub remove : {V : Type 0} → Map V → Address → Map V
remove m k a = if a == k then none else m a

pub record Storage : Type 0 where
  pub admin : Option Address
  pub operator : Option Address
  pub deployed_assets : Option ℤ
  pub subaccounts : Option (List Address)
  pub aum_increase_limit : Option ℕ
  pub aum_decrease_limit : Option ℕ
  pub paused : Option Bool
  pub subaccount_types : Option (Map SubaccountType)
  pub pending_admin : Option Address
  pub admin_proposal_expiry : Option ℕ
  pub aum_window_duration : Option ℕ
  pub aum_cumulative_increase_limit : Option ℕ
  pub aum_cumulative_decrease_limit : Option ℕ
  pub aum_window_start : Option ℕ
  pub aum_cumulative_increase : Option ℤ
  pub aum_cumulative_decrease : Option ℤ
  pub aum_window_base_deployed : Option ℤ
  pub wallet_net_deployed : Option (Map ℤ)

abbrev pub default_aum_increase_limit : ℕ
default_aum_increase_limit = 1000

abbrev pub default_aum_decrease_limit : ℕ
default_aum_decrease_limit = 500

abbrev pub max_subaccounts : ℕ
max_subaccounts = 10

abbrev pub min_aum_limit_bps : ℕ
min_aum_limit_bps = 1

abbrev pub max_aum_limit_bps : ℕ
max_aum_limit_bps = 10000

abbrev pub default_aum_window_duration : ℕ
default_aum_window_duration = 86400

abbrev pub min_aum_window_duration : ℕ
min_aum_window_duration = 3600

abbrev pub max_aum_window_duration : ℕ
max_aum_window_duration = 604800

abbrev pub get_deployed_assets : Storage → ℤ
get_deployed_assets s = unwrap_or s.deployed_assets (pos 0)

abbrev pub get_subaccounts : Storage → List Address
get_subaccounts s = unwrap_or s.subaccounts []

-- The entry of a map that may itself be missing, with a default.
abbrev pub entry_or : {V : Type 0} → Option (Map V) → Address → V → V
entry_or none a d = d
entry_or (some m) a d = unwrap_or (m a) d

-- A map with one more entry, created if it is missing.
abbrev pub with_entry : {V : Type 0} → Option (Map V) → Address → V → Option (Map V)
with_entry m a v = some (set (unwrap_or m empty) a v)

-- A map without an entry; a missing map stays missing.
abbrev pub without_entry : {V : Type 0} → Option (Map V) → Address → Option (Map V)
without_entry none a = none
without_entry (some m) a = some (remove m a)

abbrev pub get_subaccount_type : Storage → Address → SubaccountType
get_subaccount_type s a = entry_or s.subaccount_types a strategy

abbrev pub set_subaccount_type : Address → SubaccountType → Storage → Storage
set_subaccount_type a kind s = record s { subaccount_types = with_entry s.subaccount_types a kind }

abbrev pub remove_subaccount_type : Address → Storage → Storage
remove_subaccount_type a s = record s { subaccount_types = without_entry s.subaccount_types a }

abbrev pub get_wallet_net_deployed : Storage → Address → ℤ
get_wallet_net_deployed s a = entry_or s.wallet_net_deployed a (pos 0)

abbrev pub remove_wallet_net_deployed : Address → Storage → Storage
remove_wallet_net_deployed a s = record s {
  wallet_net_deployed = without_entry s.wallet_net_deployed a;
}

abbrev pub set_admin : Address → Storage → Storage
set_admin a s = record s { admin = some a }

abbrev pub set_pending_admin : Address → Storage → Storage
set_pending_admin a s = record s { pending_admin = some a }

abbrev pub set_admin_proposal_expiry : ℕ → Storage → Storage
set_admin_proposal_expiry t s = record s { admin_proposal_expiry = some t }

abbrev pub remove_pending_admin : Storage → Storage
remove_pending_admin s = record s { pending_admin = none; admin_proposal_expiry = none }

abbrev pub set_operator : Address → Storage → Storage
set_operator a s = record s { operator = some a }

abbrev pub is_paused : Storage → Bool
is_paused s = unwrap_or s.paused false

abbrev pub set_paused : Bool → Storage → Storage
set_paused b s = record s { paused = some b }

abbrev pub get_aum_increase_limit : Storage → ℕ
get_aum_increase_limit s = unwrap_or s.aum_increase_limit default_aum_increase_limit

abbrev pub get_aum_decrease_limit : Storage → ℕ
get_aum_decrease_limit s = unwrap_or s.aum_decrease_limit default_aum_decrease_limit

abbrev pub get_aum_window_duration : Storage → ℕ
get_aum_window_duration s = unwrap_or s.aum_window_duration default_aum_window_duration

abbrev pub get_aum_cumulative_increase_limit : Storage → ℕ
get_aum_cumulative_increase_limit s =
    unwrap_or s.aum_cumulative_increase_limit default_aum_increase_limit

abbrev pub get_aum_cumulative_decrease_limit : Storage → ℕ
get_aum_cumulative_decrease_limit s =
    unwrap_or s.aum_cumulative_decrease_limit default_aum_decrease_limit

abbrev pub get_aum_window_start : Storage → ℕ
get_aum_window_start s = unwrap_or s.aum_window_start 0

abbrev pub get_aum_cumulative_increase : Storage → ℤ
get_aum_cumulative_increase s = unwrap_or s.aum_cumulative_increase (pos 0)

abbrev pub get_aum_cumulative_decrease : Storage → ℤ
get_aum_cumulative_decrease s = unwrap_or s.aum_cumulative_decrease (pos 0)

abbrev pub get_aum_window_base_deployed : Storage → ℤ
get_aum_window_base_deployed s = unwrap_or s.aum_window_base_deployed (pos 0)

abbrev pub reset_aum_window : ℕ → ℤ → Storage → Storage
reset_aum_window timestamp base_deployed s = record s {
  aum_window_start = some timestamp;
  aum_cumulative_increase = some (pos 0);
  aum_cumulative_decrease = some (pos 0);
  aum_window_base_deployed = some base_deployed;
}

abbrev pub set_aum_cumulative_increase : ℤ → Storage → Storage
set_aum_cumulative_increase amount s = record s { aum_cumulative_increase = some amount }

abbrev pub set_aum_cumulative_decrease : ℤ → Storage → Storage
set_aum_cumulative_decrease amount s = record s { aum_cumulative_decrease = some amount }

-- `(lo..=hi).contains(&x)`
abbrev pub contains : ℕ → ℕ → ℕ → Bool
contains lo hi x = leb lo x && leb x hi
