-- ===== src/Tests.antt =====
-- Small inputs on which the operations run, and the theorems at them.
mod Samples
mod Cases
mod Modules
mod Auth
mod Observables
mod Alerts
mod Tasks
mod Notes
mod Users
mod Tokens
mod Timeline
mod Evidence
mod Realtime
mod Assets
mod Paging
mod Attack
mod Services
