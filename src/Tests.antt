-- ===== src/Tests.antt =====
-- The theorems at concrete inputs.
mod Finish
mod Observers
mod Options
mod Packets
mod Outbound
mod Texts
mod Timers
mod Transactions
mod Trees
mod Urls
