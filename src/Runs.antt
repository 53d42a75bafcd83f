-- ===== src/Runs.antt =====
-- crates/aifluxon-runtime/src/run_table.rs: the table of runs. `Record` is one run, `Table` the
-- table and the methods that change a run's life, `Spending` the methods on budgets and tool
-- results, `Tree` the cancellation of a run with its descendants.
pub mod Record
pub mod Table
pub mod Spending
pub mod Errors
pub mod Tree
pub mod EventLog
pub mod Steps
pub mod History
pub mod Changes
pub mod Invariant
pub mod Resume
pub mod Operated
pub mod Idle
pub mod Finish
pub mod Rounds
