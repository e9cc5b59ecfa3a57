-- ===== src/Service/Stops.antt =====
-- internal/service/service.go: what a service does until it is stopped.
use daemon_go.Prelude.{
  true, false, ◌≡◌, ◌≢◌, ◌⊎◌, inl, inr, refl, ap, sym, ◌∙◌, append-nil, Bool, List, [], ◌∷◌, ◌++◌,
  map, All,
}
use daemon_go.Service.{
  start_pending, service_running, stop_pending, service_stopped, Request, interrogate, stop,
  shutdown, other_request, ChangeRequest, Step, send_status, begin_start, begin_stop, stop_handler,
  bare, ends_service, execute_loop, execute_service, goroutine_of,
}

-- a request that does not ask for an end
abbrev pub GoesOn : ChangeRequest → Type 0
GoesOn q = (q.cmd ≢ stop) × (q.cmd ≢ shutdown)

ends_service-goes_on : (c : Request) → c ≢ stop → c ≢ shutdown → ends_service c ≡ false
ends_service-goes_on interrogate h k = refl
ends_service-goes_on stop h k = absurd (h refl)
ends_service-goes_on shutdown h k = absurd (k refl)
ends_service-goes_on (other_request n) h k = refl

ends_service-ends : (c : Request) → (c ≡ stop) ⊎ (c ≡ shutdown) → ends_service c ≡ true
ends_service-ends c (inl e) = rw e refl
ends_service-ends c (inr e) = rw e refl

abbrev pub answers : List ChangeRequest → List Step
answers = map (λ q. send_status q.current_status)

execute_loop-append :
    (before rest : List ChangeRequest)
    → All GoesOn before
    → execute_loop (before ++ rest)
      ≡ (answers before ++ (execute_loop rest).0, (execute_loop rest).1)
unfolding execute_loop
execute_loop-append [] rest h = refl
execute_loop-append (q ∷ before) rest ((h, k), hs) =
    rw (ends_service-goes_on q.cmd h k, execute_loop, execute_loop-append before rest hs) refl

execute_loop-ends :
    (r : ChangeRequest) (after : List ChangeRequest)
    → (r.cmd ≡ stop) ⊎ (r.cmd ≡ shutdown)
    → execute_loop (r ∷ after) ≡ (bare stop_pending ∷ begin_stop ∷ [], true)
unfolding execute_loop
execute_loop-ends r after e = rw (ends_service-ends r.cmd e, execute_loop) refl

abbrev wrap : List Step × Bool → List Step × Bool
wrap (steps, returned) = (
  bare start_pending
      ∷ begin_start
      ∷ send_status (record { state = service_running; accepts = true })
      ∷ steps,
  returned,
)

abbrev behind : List ChangeRequest → List Step × Bool → List Step × Bool
behind before (steps, returned) = (answers before ++ steps, returned)

-- A service begins the start of the daemon once and answers every request with the status that it
-- was given. It goes on until the first stop or shutdown: then it reports that it is stopping,
-- begins a goroutine that stops the daemon and reports that it has stopped, and returns without
-- waiting for it; requests after that are not read.
pub execute_service-append :
    (before after : List ChangeRequest) (r : ChangeRequest)
    → All GoesOn before
    → (r.cmd ≡ stop) ⊎ (r.cmd ≡ shutdown)
    → let begun =
        bare start_pending
        ∷ begin_start
        ∷ send_status (record { state = service_running; accepts = true })
        ∷ answers before in
      (execute_service before ≡ (begun, false))
      × (execute_service (before ++ r ∷ after)
          ≡ (begun ++ bare stop_pending ∷ begin_stop ∷ [], true))
      × (goroutine_of begin_stop ≡ stop_handler ∷ bare service_stopped ∷ [])
unfolding execute_service goroutine_of execute_loop
execute_service-append before after r h e = (
  ap wrap (
      ap execute_loop (sym (append-nil before))
      ∙ execute_loop-append before [] h
      ∙ ap (λ (l : List Step). (l, false)) (append-nil (answers before))),
  ap wrap
      (execute_loop-append before (r ∷ after) h ∙ ap (behind before) (execute_loop-ends r after e)),
  refl,
)
