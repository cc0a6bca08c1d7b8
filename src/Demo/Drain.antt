-- ===== src/Demo/Drain.antt =====
-- sevmgr/batches/sevmgr_demo.cpp: the rounds of the main loop.
use sevmgr.Prelude.{
  ℕ, suc, ◌+◌, ◌<◌, ◌≡◌, refl, ap, ◌∙◌, List, [], ◌∷◌, arith, ℤ, pos, count_up, length, done,
}
use sevmgr.Stdair.{Stdair}
use sevmgr.EventQueue.{EventQueue, Frame}
use sevmgr.EventQueueManager
use sevmgr.EventQueueManager.Popping.{tail, overall_after, types_after_pop, pop_event_returns}
use sevmgr.EventQueueManager.Types.{types_after}
use sevmgr.EventQueueManager.Runs.{increments}
use sevmgr.Service
use sevmgr.Service.{Service, Session, ServiceContext, put_frame}
use sevmgr.Service.Serving.{
  is_queue_done-serving, is_queue_done-nil, is_queue_done-cons, serving, on_frame-serving,
}
use sevmgr.Demo.{pop_local_event, main_loop, forget_event}

module _ (s : Stdair) where
  open s use {Event, StatusSet}

  pop_event-serving :
      (c : ServiceContext s) (q : EventQueue s) (e : Event) (ps : StatusSet) (g : Frame s)
      → EventQueueManager.pop_event s (record { queue = q; event = e }) ≡ done ps g
      → pop_local_event s e (serving s c q) ≡ done ps (serving s c g.queue)
  unfolding pop_local_event Service.pop_event
  pop_event-serving c q e ps g h = ap (forget_event s) (
      on_frame-serving s (EventQueueManager.pop_event s) c (record { queue = q; event = e }) g ps h)

  main_loop-nil :
      (fuel : ℕ) (c : ServiceContext s) (q : EventQueue s) (e : Event) (idx : ℤ)
      → q.event_list ≡ []
      → main_loop s e (suc fuel) idx (serving s c q) ≡ done idx (serving s c q)
  unfolding main_loop
  main_loop-nil fuel c q e idx h =
      ground (arith, is_queue_done-serving s c q, is_queue_done-nil s q h)

  main_loop-cons :
      (fuel i : ℕ) (c : ServiceContext s) (q : EventQueue s) (e : Event) (x : ℕ × Event)
      (l : List (ℕ × Event)) (ps : StatusSet) (g : Frame s)
      → q.event_list ≡ x ∷ l
      → EventQueueManager.pop_event s (record { queue = q; event = e }) ≡ done ps g
      → i + 1 < 2147483648
      → main_loop s e (suc fuel) (pos i) (serving s c q)
        ≡ main_loop s e fuel (pos (i + 1)) (serving s c g.queue)
  unfolding main_loop
  main_loop-cons fuel i c q e x l ps g h pop fits = ground (
    arith,
    is_queue_done-serving s c q,
    is_queue_done-cons s q x l h,
    pop_event-serving c q e ps g pop,
    count_up i fits,
  )

  drained :
      (l : List (ℕ × Event)) (i : ℕ) (c : ServiceContext s) (q : EventQueue s) (e : Event)
      → q.event_list ≡ l
      → i + length l < 2147483648
      → (q' : EventQueue s) × (main_loop s e (suc (length l)) (pos i) (serving s c q)
          ≡ done (pos (i + length l)) (serving s c q'))
        × (q'.event_list ≡ [])
        × (q'.progress_status ≡ increments s (length l) q.progress_status)
        × (q'.progress_status_map ≡ types_after s l q.progress_status_map)
  unfolding increments
  drained [] i c q e h fits =
      let same : i + 0 ≡ i = omega arith in
      (q, rw same (main_loop-nil 0 c q e (pos i) h), h, refl, refl)
  drained (x ∷ l) i c q e h fits =
      let (ps, g, pop, rest, _, _, overall, types) =
        pop_event_returns s (record { queue = q; event = e }) in
      let (q', run, empty, counted, types') =
        drained l (i + 1) c g.queue e (rest ∙ ap tail h) (omega arith) in
      let same : i + 1 + length l ≡ i + suc (length l) = omega arith in
      (
        q',
        main_loop-cons (suc (length l)) i c q e x l ps g h pop (omega arith)
            ∙ run
            ∙ ap (λ n. done (pos n) (serving s c q')) same,
        empty,
        counted
            ∙ ap (increments s (length l))
                (overall ∙ ap (λ l. overall_after s l q.progress_status) h),
        types'
            ∙ ap (types_after s l) (types ∙ ap (λ l. types_after_pop s l q.progress_status_map) h),
      )

  -- The main loop of the demonstration ends, with one round more than the queue has events,
  -- whatever events and statuses these are: all events are popped, the counter has been incremented
  -- once for each, the queue of the service is empty, and its overall status has been incremented
  -- once for each event too, the status of a type once for each event of the type. The counter must
  -- fit `int`.
  pub main_loop_drains :
      (c : ServiceContext s) (q : EventQueue s) (e : Event)
      → 1 + length q.event_list < 2147483648
      → (q' : EventQueue s) × (main_loop s e (suc (length q.event_list)) (pos 1) (serving s c q)
          ≡ done (pos (1 + length q.event_list)) (serving s c q'))
        × (q'.event_list ≡ [])
        × (q'.progress_status ≡ increments s (length q.event_list) q.progress_status)
        × (q'.progress_status_map ≡ types_after s q.event_list q.progress_status_map)
  main_loop_drains c q e fits = drained q.event_list 1 c q e refl fits
