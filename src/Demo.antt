-- ===== src/Demo.antt =====
-- sevmgr/batches/sevmgr_demo.cpp: the sample queue is built and played event by event.
pub mod Drain
pub mod Options
pub mod Whole
use sevmgr.Prelude.{
  pos_part, ℕ, zero, suc, Bool, true, false, ℤ, pos, Exec, Result, done, raised, aborted, undefined,
  diverged, pure, ◌>>=◌, ◌>>◌, bind_result, add_count,
}
use sevmgr.Stdair.{Stdair}
use sevmgr.Service
use sevmgr.Service.{Service, Session, new_service}

module _ (s : Stdair) where
  open s use {Event, StatusSet}

  -- The service that a call with a local event leaves; the event is gone afterwards.
  abbrev pub forget_event : {A : Type 0} → Result (Session s) A → Result (Service s) A
  forget_event (done a σ) = done a σ.service
  forget_event (raised x σ) = raised x σ.service
  forget_event aborted = aborted
  forget_event undefined = undefined
  forget_event diverged = diverged

  -- `popEvent` into the event `e` that the body of the loop declares.
  unfoldable pub pop_local_event : Event → Exec (Service s) StatusSet
  pop_local_event e v = forget_event (Service.pop_event s (record { service = v; event = e }))

  -- The main loop, on fuel, with its counter.
  unfoldable pub main_loop : Event → ℕ → ℤ → Exec (Service s) ℤ
  unfolding pop_local_event
  main_loop e zero idx v = diverged
  main_loop e (suc fuel) idx v =
      (do
        is_done ← Service.is_queue_done s
        elim is_done [
          | true ↦ pure idx
          | false ↦ do _ ← pop_local_event e; idx' ← add_count idx (pos 1); main_loop e fuel idx'
        ])
        v

  -- From the service to the end of the loop; the fuel is one more than the size of the queue.
  unfoldable pub main : s.Service → Event → Result (Service s) ℤ
  unfolding main_loop
  main stdair e = bind_result (new_service s stdair true) λ _. do
    Service.build_sample_queue s
    size ← Service.get_queue_size s
    main_loop e (suc (pos_part size)) (pos 1)
