-- ===== src/Lib.antt =====
-- The August vault and its XLM strategy, two Soroban contracts in Rust: a tokenized vault
-- (contracts/august-vault/src) that takes deposits of one token for shares and lends the token to
-- whitelisted subaccounts, and a strategy (contracts/xlm-strategy/src/lib.rs), which is one kind of
-- subaccount. The other kind is a wallet outside the chain, whose value the vault follows by a
-- tracker that its operator writes.
--
-- The vault prices shares by its token balance, plus what strategies report, plus `deployed_assets`,
-- the aggregate that stands for the wallets. The operator moves tokens to and from subaccounts and
-- reports values, under limits; the admin sets roles, limits and the whitelist.
--
-- Files and what they model:
--   Base, Base/Tests, Base/Lists, Base/Int: shared names, Boolean tests, integers over the native
--     numbers.
--   Soroban, Soroban/I128: addresses, invocations as a state monad with panics, the answers of
--     `try_` calls, and `i128` with its checked operations.
--   Vault/Errors, Vault/Events, Vault/Storage, Vault/State: errors.rs, events.rs and storage.rs. The
--     instance storage is a record with a field for each `StorageKey`; `Env` holds the host and all
--     code outside the repository; `World` is the storage, the state outside, the TTL and the log.
--   Vault/Pricing, Vault/Limits, Vault/Admin, Vault/Subaccounts, Vault/Wallets, Vault/Batch,
--     Vault/Shares: contract.rs, a definition for each function, with the same name but for
--     `__constructor` (`construct`), `_require_auth` (`upgrade_require_auth`) and `set_operator`
--     (`set_vault_operator`). Loops are structural recursion on the list that they run over.
--   Vault/Emit: the emit functions of events.rs. Vault/Getters: the read-only entry points.
--   Vault/Entry, Vault/History: the entry points that change state as one type of requests, and
--     histories of requests.
--   Vault/Frame and its children: what a call leaves alone. Vault/Books and its children: trackers
--     against the aggregate. Vault/Limits/Window, Windows, Rate, Paused, Effect: the limits;
--     Vault/Limits/Tally and its children: the window's counters against the changes of a history.
--     Vault/Access and its children, Vault/Handover, Vault/Removal, Vault/Payout, Vault/Pricing/*:
--     roles, the admin's transfer, removal, payouts and prices. Vault/Ledger and its children: an
--     abstract ledger of subaccounts, and the requests against it. Vault/Previews and its children:
--     previews, maxima and errors of the share entry points.
--     Vault/Tests: concrete runs.
--   Vault/Interface: the trait of strategy.rs as records of laws (`Accounts`, how reports follow
--     transfers; `IStrategy`, all that its documentation demands), and its children: transfers to and
--     from subaccounts against the total assets, which need `Accounts` alone.
--   Strategy/State, Helpers, Funds, Protocol, Settle: lib.rs of the strategy, a definition for each
--     function. Strategy/Entry: its requests and histories. Strategy/Invariant, Settled,
--     Migration, Balance, Access: its trackers, the settle limit, its seeds, balances and roles.
--     Strategy/Tests: concrete runs.
--   Linked and its children: the vault with the strategy of this repository behind the interface: the
--     calls of the vault's client at one address run the strategy's functions. Linked/Covered,
--     Withdrawal, Contract: what the interface's documentation demands, where the strategy is set up for
--     the vault and holds the tokens that it tracks; elsewhere its `get_balance` falls back to the
--     token balance, which the documentation forbids.
--
-- Choices of the model:
--   An address is a number, since addresses are only compared. The multiplexing id of the
--   `MuxedAddress` that `transfer` takes is dropped, since the vault only passes it on. A
--   `Map<Address, V>` is a function into `Option V`. `i128` is an integer whose checked operations
--   answer `none` out of range; `u32` and `u64` values are numbers, on which the code only compares
--   and subtracts with saturation. A panic carries no state, because the host rolls the transaction back.
--   The host, the OpenZeppelin library (share ledger, `mul_div`), the token and the strategies are
--   parameters (`Env`), each a function of the state outside the contract. A call that may trap
--   answers `none`. A view of another contract reads that state; what it does to the callee's own
--   TTL and log is not represented, nor is a callee that calls back, which the host forbids.
--   `require_auth` is a Boolean per address and invocation; that the host refuses to authorize one
--   address twice in a frame is not represented.
--   A theorem of the form `Ensures Q (call)` says that `Q` holds if the call does not panic; one of
--   the form `Returns Q (call)` says besides that it does not panic.
--
-- Not modelled: the upgrade mechanism and metadata of the libraries, client bindings, scripts and
-- tests.
pub mod Base
pub mod Soroban
pub mod Vault
pub mod Strategy
pub mod Linked
