-- ===== src/Service/Control/Brackets.antt =====
-- internal/service/service.go: a command between Connect and Disconnect, and between OpenService
-- and Close.
use daemon_go.Prelude.{◌-◌, ◌≡◌, ◌∙◌, Option, none, some, Text, arith}
use daemon_go.Os.{Error}
use daemon_go.Service.Control.{Reply, got, refused, ServiceApi, managed, serviced}
use daemon_go.Service.Control.Database.{
  Database, IsRegistered, Answers, Commits, connected, opened, ServiceLaws,
}

module _ (api : ServiceApi) (laws : ServiceLaws api) where
  open api use {System, Manager, Handle}
  open laws use {view, name_of}

  module _ (Allowed : Type 0) (d target : Database) where
    disconnected :
        (r : Option Error) (d' : Database)
        → Commits Allowed (connected d) (connected target) r d'
        → Commits Allowed d target r (record d' { managers = d'.managers - 1 })
    disconnected none d' h = (h.0, rw (h.1) (ground arith))
    disconnected (some e) d' h = rw h (ground arith)

    closed :
        (r : Option Error) (d' : Database)
        → Commits Allowed (opened d) (opened target) r d'
        → Commits Allowed d target r (record d' { handles = d'.handles - 1 })
    closed none d' h = (h.0, rw (h.1) (ground arith))
    closed (some e) d' h = rw h (ground arith)

  module _ (Allowed : Type 0) (d target : Database) (fail : Error → Error) where
    pub managed-Commits :
        (body : Manager → System → Option Error × System) (r : Reply Manager × System)
        → Answers (λ m. Unit {0}) d (connected d) r.0 (view r.1)
        → ((m : Manager) (t : System)
            → view t ≡ connected d
            → Commits Allowed (connected d) (connected target) (body m t).0 (view (body m t).1))
        → let r' = managed api (λ e. some (fail e)) body r in
          Commits Allowed d target r'.0 (view r'.1)
    managed-Commits body (refused e, t) same step = same
    managed-Commits body (got m, t) (_, e) step =
        rw (laws.disconnect_lem m (body m t).1) (disconnected Allowed d target _ _ (step m t e))

    pub serviced-Commits :
        {name : Text} (body : Handle → System → Option Error × System) (r : Reply Handle × System)
        → Answers (λ h. (name_of h ≡ name) × IsRegistered name d) d (opened d) r.0 (view r.1)
        → ((h : Handle) (t : System)
            → name_of h ≡ name
            → IsRegistered name d
            → view t ≡ opened d
            → Commits Allowed (opened d) (opened target) (body h t).0 (view (body h t).1))
        → let r' = serviced api (λ e. some (fail e)) body r in
          Commits Allowed d target r'.0 (view r'.1)
    serviced-Commits body (refused e, t) same step = same
    serviced-Commits body (got h, t) ((n, there), e) step =
        rw (laws.close_lem h (body h t).1) (closed Allowed d target _ _ (step h t n there e))

  pub opened_reply :
      {d : Database} (m : Manager) (name : Text) (t : System)
      → view t ≡ d
      → let r = api.open_service m name t in
        Answers (λ h. (name_of h ≡ name) × IsRegistered name d) d (opened d) r.0 (view r.1)
  opened_reply m name t e = rw e at (laws.open_service_lem m name t)

  pub closes :
      {d : Database} (h : Handle) (t : System) → view t ≡ opened d → view (api.close h t) ≡ d
  closes h t e = laws.close_lem h t ∙ rw e (ground arith)

  disconnects :
      {d : Database} (m : Manager) (t : System)
      → view t ≡ connected d
      → view (api.disconnect m t) ≡ d
  disconnects m t e = laws.disconnect_lem m t ∙ rw e (ground arith)

  pub managed-view {ℓ} :
      {A : Type ℓ} {d : Database} (fail : Error → A) (body : Manager → System → A × System)
      (r : Reply Manager × System)
      → Answers (λ m. Unit {0}) d (connected d) r.0 (view r.1)
      → ((m : Manager) (t : System) → view t ≡ connected d → view (body m t).1 ≡ connected d)
      → view (managed api fail body r).1 ≡ d
  managed-view fail body (refused e, t) same step = same
  managed-view fail body (got m, t) (_, e) step = disconnects m (body m t).1 (step m t e)

  pub serviced-view {ℓ} :
      {A : Type ℓ} {d : Database} (name : Text) (fail : Error → A)
      (body : Handle → System → A × System) (r : Reply Handle × System)
      → Answers (λ h. (name_of h ≡ name) × IsRegistered name d) d (opened d) r.0 (view r.1)
      → ((h : Handle) (t : System) → view (body h t).1 ≡ view t)
      → view (serviced api fail body r).1 ≡ d
  serviced-view name fail body (refused e, t) same step = same
  serviced-view name fail body (got h, t) (_, e) step = closes h (body h t).1 (step h t ∙ e)
