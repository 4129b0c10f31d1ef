-- ===== src/Examples.antt =====
-- Concrete instances of the parameters and the theorems at concrete inputs.
pub mod Ledger
pub mod Configs
pub mod Services
pub mod CommandLine
pub mod Counting
pub mod Transactions
pub mod Clients
pub mod Committing
pub mod Refreshing
pub mod Platforms
pub mod Requests
pub mod Answers
pub mod Wrapped
pub mod Calls
pub mod Filters
