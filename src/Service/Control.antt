-- ===== src/Service/Control.antt =====
-- internal/service/service.go: InstallService, UninstallService, StartService, StopService and
-- QueryServiceStatus. Packages mgr and eventlog of golang.org/x/sys are the parameter `ServiceApi`,
-- with what the code relies on as the laws `ServiceLaws`.
pub mod Database
pub mod Brackets
pub mod Refines
use daemon_go.Prelude.{
  ℕ, ◌+◌, ◌-◌, ◌≡◌, Bool, true, false, Option, none, some, List, [], ◌∷◌, ◌++◌, Text, codes, ◌==◌,
  if◌then◌else◌,
}
use daemon_go.Os.{Error}
use daemon_go.Service.{ServiceState, service_stopped}

-- a value or an error
pub data Reply {ℓ} (A : Type ℓ) : Type ℓ where
  got : A → Reply A
  refused : Error → Reply A

-- mgr.Config; the start type is mgr.StartAutomatic or another
pub record ServiceConfig : Type 0 where
  pub display_name : Text
  pub description : Text
  pub automatic : Bool

-- `Manager` and `Handle` are the pointers that Connect, OpenService and CreateService return.
pub record ServiceApi : Type 1 where
  pub System : Type 0
  pub Manager : Type 0
  pub Handle : Type 0
  pub connect : System → Reply Manager × System
  pub disconnect : Manager → System → System
  pub open_service : Manager → Text → System → Reply Handle × System
  pub create_service :
      Manager → Text → Text → ServiceConfig → List Text → System → Reply Handle × System
  pub close : Handle → System → System
  pub delete : Handle → System → Option Error × System
  pub start : Handle → System → Option Error × System
  pub stop : Handle → System → Option Error × System
  pub query : Handle → System → Reply ServiceState × System
  pub add_event_source : Text → System → System
  pub remove_event_source : Text → System → System

module _ (api : ServiceApi) where
  open api use {
    System, Manager, Handle, connect, disconnect, open_service, create_service, close, delete,
    start, stop, query, add_event_source, remove_event_source,
  }

  abbrev pub managed {ℓ} :
      {A : Type ℓ}
      → (Error → A)
      → (Manager → System → A × System)
      → Reply Manager × System
      → A × System
  managed fail body (refused err, s) = (fail err, s)
  managed fail body (got m, s) = let (a, s₁) = body m s in (a, disconnect m s₁)

  -- mgr.Connect, what is done with the manager, and the deferred Disconnect
  abbrev pub with_manager {ℓ} :
      {A : Type ℓ} → (Error → A) → (Manager → System → A × System) → System → A × System
  with_manager fail body s = managed fail body (connect s)

  abbrev pub serviced {ℓ} :
      {A : Type ℓ}
      → (Error → A)
      → (Handle → System → A × System)
      → Reply Handle × System
      → A × System
  serviced fail body (refused err, s) = (fail err, s)
  serviced fail body (got h, s) = let (a, s₁) = body h s in (a, close h s₁)

  -- m.OpenService, what is done with the service, and the deferred Close
  abbrev pub with_service {ℓ} :
      {A : Type ℓ}
      → Text
      → (Error → A)
      → (Handle → System → A × System)
      → Manager
      → System
      → A × System
  with_service name fail body m s = serviced fail body (open_service m name s)

  abbrev pub failed_to : Text → Error → Option Error
  failed_to what err = some (what ++ codes " failed: " ++ err)

  abbrev pub wrap_error : Text → Option Error × System → Option Error × System
  wrap_error what (none, s) = (none, s)
  wrap_error what (some err, s) = (failed_to what err, s)

  abbrev pub queried : Reply ServiceState × System → ServiceState × Option Error × System
  queried (got state, s) = (state, none, s)
  queried (refused err, s) = (service_stopped, some err, s)

  module _ (name : Text) where
    -- what follows CreateService
    abbrev pub after_create : Reply Handle × System → Option Error × System
    after_create (refused err, s) = (failed_to (codes "create service") err, s)
    after_create (got h, s) = (none, close h (add_event_source name s))

    -- what InstallService does once it has looked for the service
    abbrev pub install_if_absent :
        Text → Text → Text → List Text → Manager → Reply Handle × System → Option Error × System
    install_if_absent display_name description exe_path args m (got h, s) =
        (some (codes "service " ++ name ++ codes " already exists"), close h s)
    install_if_absent display_name description exe_path args m (refused err, s) =
        let cfg : ServiceConfig = record {
          display_name = display_name;
          description = description;
          automatic = true;
        } in
        after_create (create_service m name exe_path cfg args s)

    -- InstallService
    unfoldable pub install_service : Text → Text → Text → List Text → System → Option Error × System
    install_service display_name description exe_path args =
        with_manager (failed_to (codes "connect to service manager")) (λ m s.
          install_if_absent display_name description exe_path args m (open_service m name s))

    -- what follows Delete
    abbrev pub after_delete : Option Error × System → Option Error × System
    after_delete (some err, s) = (failed_to (codes "delete service") err, s)
    after_delete (none, s) = (none, remove_event_source name s)

    abbrev pub delete_found : Handle → System → Option Error × System
    delete_found h s = after_delete (delete h s)

    -- UninstallService
    unfoldable pub uninstall_service : System → Option Error × System
    uninstall_service =
        with_manager (failed_to (codes "connect to service manager"))
          (with_service name (failed_to (codes "open service")) delete_found)

    -- StartService
    unfoldable pub start_service : System → Option Error × System
    start_service =
        with_manager some
          (with_service name some (λ h s. wrap_error (codes "start service") (start h s)))

    -- StopService
    unfoldable pub stop_service : System → Option Error × System
    stop_service =
        with_manager some
          (with_service name some (λ h s. wrap_error (codes "stop service") (stop h s)))

    -- QueryServiceStatus: the state is that of a stopped service where there is an error
    unfoldable pub query_service_status : System → ServiceState × Option Error × System
    query_service_status s = queried (with_manager refused (with_service name refused query) s)
