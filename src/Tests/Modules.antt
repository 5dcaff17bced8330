-- ===== src/Tests/Modules.antt =====
-- The dispatch of an event to a module that raises.
use watari.Base.{List, if◌then◌else◌, keep_if, length, none, refl, some, str_eq, ℕ, ◌≡◌}
use watari.Exec.{err, ok}
use watari.Modules.Adds.{OnlyAdds}
use watari.Modules.Closed.{installed_to_confined}
use watari.Modules.Dispatch.{
  EventPayload, dispatch_event, execute_module, is_matched, raised, returned,
}
use watari.Modules.Isolation.{IsFinished, modules_finish}
use watari.Modules.Keeps.{UsesModuleApi}
use watari.Modules.Programs.{add_observable, finish, Program, Registry, installed_to}
use watari.Store.{ModuleExecution, ObservableType, PlatformEvent}
use watari.Tests.Samples.{installed, installed-UsesModuleApi, notifier, observable_create, session}
use watari.Table.{find_row}

abbrev created : EventPayload
created = record { case_id = some 1; subject = 1 }

modules_finish_example :
    ((x : ModuleExecution) × ((execute_module installed 40 7 none created
          (some PlatformEvent.case_created)
          session).0
        ≡ ok x)
      × IsFinished x)
    × ((ids : List ℕ) × ((dispatch_event installed 7 PlatformEvent.case_created created session).0
          ≡ ok ids)
        × (length ids ≡ length (keep_if (is_matched PlatformEvent.case_created) session.modules)))
unfolding find_row
modules_finish_example =
    modules_finish installed (λ ep p s. cc) installed-UsesModuleApi 7 40 none
      PlatformEvent.case_created created session {row = notifier} refl

-- A module that adds the observable it was told of to its case again, and ends when that is refused.
abbrev echo : EventPayload → Program
echo p =
    add_observable 1 (observable_create ObservableType.ip "10.0.0.7")
      (λ r. elim r [ ok o ↦ finish (returned (some "added")) | err e ↦ finish (raised "refused") ])

abbrev registry : Registry
registry entry_point = if str_eq entry_point "notify.run" then some echo else none

installed_to_confined_example :
    UsesModuleApi (installed_to registry 90 3) × OnlyAdds (installed_to registry 90 3)
installed_to_confined_example = installed_to_confined registry 90 3
