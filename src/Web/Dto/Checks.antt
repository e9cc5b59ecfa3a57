-- ===== src/Web/Dto/Checks.antt =====
-- internal/web/server.go: what a configuration sent by the console must satisfy.
use daemon_go.Prelude.{
  ℕ, suc, false, ◌≡◌, ◌≢◌, ◌⊎◌, ◌↔◌, ◌≤◌, refl, ap, ◌&&◌, subst, List, [], ◌∷◌, Text, codes, ◌==◌,
  eq_iff, inl, inr, trim_space, All, length, arith, Bool-cases,
}
use daemon_go.Prelude.Int.{ℤ, pos, negsuc, ◌≤ℤ◌}
use daemon_go.Os.{Error}
use daemon_go.Config.{Project, DaemonConfig}
use daemon_go.Web.Dto.{
  ActionDto, ProjectDto, ConfigDto, or_positive, dto_to_actions, cons_project, with_projects,
  is_bad_port, is_monitor_type, has_port, project_of, dto_to_project, dto_to_projects,
  dto_to_config,
}

abbrev pub IsPort : ℤ → Type 0
IsPort n = (pos 1 ≤ℤ n) × (n ≤ℤ pos 65535)

-- a monitor type with the port that it needs
abbrev pub IsMonitor : ℤ → Text → Type 0
IsMonitor port t = (t ≡ codes "process") ⊎ ((t ≡ codes "port") ⊎ (t ≡ codes "mixed")) × IsPort port

pub is_bad_port_iff : (n : ℤ) → (is_bad_port n ≡ false) ↔ IsPort n
is_bad_port_iff (pos n) = ground arith
is_bad_port_iff (negsuc n) = ground arith

-- A project of the console is accepted exactly when its name is not blank, its monitor type is
-- `port`, `process` or `mixed`, and a type that watches a port has one from 1 to 65535.
pub dto_to_project_iff :
    (dto : ProjectDto)
    → (dto_to_project dto ≡ inr (project_of dto))
      ↔ ((trim_space dto.name ≢ []) × IsMonitor dto.monitor_port dto.monitor_type)
unfolding dto_to_project
dto_to_project_iff dto = ground (
  arith,
  eq_iff (trim_space dto.name) [],
  eq_iff dto.monitor_type (codes "port"),
  eq_iff dto.monitor_type (codes "process"),
  eq_iff dto.monitor_type (codes "mixed"),
  is_bad_port_iff dto.monitor_port,
)

-- a project that the guardian can run
pub record IsSound (p : Project) : Type 0 where
  pub name : p.name ≢ []
  pub monitor : IsMonitor p.monitor.port p.monitor.kind
  pub check_interval : pos 1 ≤ℤ p.check_interval
  pub startup_timeout : pos 1 ≤ℤ p.startup_timeout
  pub max_restart_attempts : pos 1 ≤ℤ p.max_restart_attempts
  pub restart_delay : pos 1 ≤ℤ p.restart_delay
  pub pre_actions : All (λ a. a.kind ≢ []) p.pre_actions
  pub post_actions : All (λ a. a.kind ≢ []) p.post_actions

or_positive-Positive : (n : ℤ) (d : ℕ) → 1 ≤ d → pos 1 ≤ℤ or_positive n (pos d)
or_positive-Positive (pos n) d h = ground arith
or_positive-Positive (negsuc n) d h = ground arith

dto_to_actions_named : (actions : List ActionDto) → All (λ a. a.kind ≢ []) (dto_to_actions actions)
unfolding dto_to_actions
dto_to_actions_named [] = tt
dto_to_actions_named (a ∷ actions) = elim (Bool-cases (a.kind == [])) [
  | inl blank ↦ rw blank (dto_to_actions_named actions)
  | inr named ↦ rw named ((λ e. ground (arith, eq_iff a.kind [])), dto_to_actions_named actions)
]

project_of-IsSound :
    (dto : ProjectDto)
    → trim_space dto.name ≢ []
    → IsMonitor dto.monitor_port dto.monitor_type
    → IsSound (project_of dto)
project_of-IsSound dto named monitored = record {
  name = named;
  monitor = monitored;
  check_interval = or_positive-Positive dto.check_interval 15 (omega arith);
  startup_timeout = or_positive-Positive dto.startup_timeout 60 (omega arith);
  max_restart_attempts = or_positive-Positive dto.max_restart_attempts 3 (omega arith);
  restart_delay = or_positive-Positive dto.restart_delay 10 (omega arith);
  pre_actions = dto_to_actions_named dto.pre_actions;
  post_actions = dto_to_actions_named dto.post_actions;
}

-- what holds of a result that is no error
abbrev IfAccepted : {A : Type 0} → (A → Type 0) → Error ⊎ A → Type 0
IfAccepted P (inl err) = Unit
IfAccepted P (inr a) = P a

dto_to_project-IsSound : (dto : ProjectDto) → IfAccepted IsSound (dto_to_project dto)
unfolding dto_to_project
dto_to_project-IsSound dto = elim (Bool-cases (trim_space dto.name == [])) [
  | inl blank ↦ rw blank tt
  | inr named ↦ elim (Bool-cases (is_monitor_type dto.monitor_type)) [
    | inr unknown ↦ rw (named, unknown) tt
    | inl known ↦ elim (Bool-cases (has_port dto.monitor_type && is_bad_port dto.monitor_port)) [
      | inl bad ↦ rw (named, known, bad) tt
      | inr good ↦
          let accepted : dto_to_project dto ≡ inr (project_of dto) = rw (named, known, good) refl in
          let (name, monitored) = (dto_to_project_iff dto).0 accepted in
          rw (named, known, good) (project_of-IsSound dto name monitored)
    ]
  ]
]

AllSound : ℕ → List Project → Type 0
AllSound n ps = All IsSound ps × (length ps ≡ n)

cons-AllSound :
    (i n : ℕ) (head : Error ⊎ Project) (tail : Error ⊎ List Project)
    → IfAccepted IsSound head
    → IfAccepted (AllSound n) tail
    → IfAccepted (AllSound (suc n)) (cons_project i head tail)
unfolding AllSound
cons-AllSound i n (inl _) tail h t = tt
cons-AllSound i n (inr p) (inl _) h t = tt
cons-AllSound i n (inr p) (inr ps) h (t, e) = ((h, t), ap suc e)

dto_to_projects-AllSound :
    (i : ℕ) (dtos : List ProjectDto) → IfAccepted (AllSound (length dtos)) (dto_to_projects i dtos)
unfolding dto_to_projects AllSound
dto_to_projects-AllSound i [] = (tt, refl)
dto_to_projects-AllSound i (dto ∷ dtos) =
    cons-AllSound i (length dtos) (dto_to_project dto) (dto_to_projects (suc i) dtos)
      (dto_to_project-IsSound dto) (dto_to_projects-AllSound (suc i) dtos)

abbrev IsServed : ℕ → DaemonConfig → Type 0
IsServed n cfg =
    IsPort cfg.web_port
    × (pos 1 ≤ℤ cfg.peer.check_interval)
    × All IsSound cfg.projects
    × (length cfg.projects ≡ n)

with_projects-IsServed :
    (dto : ConfigDto) (n : ℕ) (ps : Error ⊎ List Project)
    → IsPort dto.web_port
    → IfAccepted (AllSound n) ps
    → IfAccepted (IsServed n) (with_projects dto ps)
unfolding AllSound
with_projects-IsServed dto n (inl err) port h = tt
with_projects-IsServed dto n (inr ps) port (sound, count) =
    (port, or_positive-Positive dto.peer_check_interval 10 (omega arith), sound, count)

dto_to_config-IsServed :
    (dto : ConfigDto) → IfAccepted (IsServed (length dto.projects)) (dto_to_config dto)
unfolding dto_to_config
dto_to_config-IsServed dto = elim (Bool-cases (is_bad_port dto.web_port)) [
  | inl bad ↦ rw bad tt
  | inr good ↦ rw good (
      with_projects-IsServed dto (length dto.projects) (dto_to_projects 0 dto.projects)
        ((is_bad_port_iff dto.web_port).0 good) (dto_to_projects-AllSound 0 dto.projects))
]

-- A configuration of the console that is accepted has a web port from 1 to 65535, a positive
-- interval for its peer and one sound project for each that was sent: a name, a monitor with the
-- port that it needs, positive intervals, timeouts and attempts, and actions that have a type.
pub dto_to_config-IsSound :
    (dto : ConfigDto) (cfg : DaemonConfig)
    → dto_to_config dto ≡ inr cfg
    → IsPort cfg.web_port
      × (pos 1 ≤ℤ cfg.peer.check_interval)
      × All IsSound cfg.projects
      × (length cfg.projects ≡ length dto.projects)
dto_to_config-IsSound dto cfg h =
    subst (IfAccepted (IsServed (length dto.projects))) h (dto_to_config-IsServed dto)
