-- ===== src/Modules.antt =====
-- Modules, Watari's plugins (backend/src/services/modules.py, events.py): the table of modules, and
-- the execution of those that subscribe to a platform event. The code of a module is not Watari's:
-- it is a parameter.
pub mod Dispatch
pub mod Service
pub mod Names
pub mod Keeps
pub mod Isolation
pub mod Adds
pub mod RuntimeApi
pub mod Programs
pub mod Confined
pub mod Closed
