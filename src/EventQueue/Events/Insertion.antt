-- ===== src/EventQueue/Events/Insertion.antt =====
-- sevmgr/bom/EventQueue.cpp: the loop of `addEvent`.
use sevmgr.Prelude.{
  ℕ, zero, suc, ◌+◌, ◌≤◌, ◌<◌, ◌^◌, ◌≡◌, refl, ap, ◌∙◌, inl, inr, true, false, not, none, some,
  List, [], ◌∷◌, arith, leb, is_some, length, if◌then◌else◌, Option-cases, done, ◌>>=◌, bind_result,
  assert_that, pure, ◌>>◌, ◌==◌,
}
use sevmgr.OrderedMap.{find, insert}
use sevmgr.OrderedMap.Order.{IsOrdered}
use sevmgr.OrderedMap.Insertion.{insert_flag, insert_taken}
use sevmgr.Stdair.{Stdair}
use sevmgr.Stdair.Laws.{EventLaws}
use sevmgr.EventQueue.{Frame}
use sevmgr.EventQueue.Events.{idx, try_insert, insert_loop, add_event}

-- The entries whose key is at least `t`.
entries_from : {V : Type 0} → ℕ → List (ℕ × V) → ℕ
entries_from t [] = 0
entries_from t ((k, v) ∷ m) = let rest = entries_from t m in if leb t k then suc rest else rest

entries_from-le : {V : Type 0} (t : ℕ) (m : List (ℕ × V)) → entries_from t m ≤ length m
unfolding entries_from
entries_from-le t [] = omega arith
entries_from-le t ((k, v) ∷ m) = ground (arith, entries_from-le t m)

entries_from_mono :
    {V : Type 0} (t : ℕ) (m : List (ℕ × V)) → entries_from (t + 1) m ≤ entries_from t m
unfolding entries_from
entries_from_mono t [] = omega arith
entries_from_mono t ((k, v) ∷ m) = ground (arith, entries_from_mono t m)

-- A key that is taken counts.
entries_from-lt :
    {V : Type 0} (t : ℕ) (m : List (ℕ × V)) (v : V)
    → find t m ≡ some v
    → entries_from (t + 1) m < entries_from t m
unfolding entries_from find
entries_from-lt t [] v h = cc
entries_from-lt t ((k, w) ∷ m) v h = ground (arith, entries_from-lt t m v, entries_from_mono t m)

-- Every key from `t` on, `d` of them, is taken.
abbrev pub Taken : {V : Type 0} → ℕ → ℕ → List (ℕ × V) → Type 0
Taken t d m = (i : ℕ) → i < d → is_some (find (t + i) m) ≡ true

Taken-suc :
    {V : Type 0} (t d : ℕ) (m : List (ℕ × V)) (v : V)
    → find t m ≡ some v
    → Taken (t + 1) d m
    → Taken t (suc d) m
Taken-suc t d m v h taken zero lt = let e : t + 0 ≡ t = omega arith in rw (e, h)
Taken-suc t d m v h taken (suc i) lt =
    let e : t + suc i ≡ t + 1 + i = omega arith in rw e (taken i (omega arith))

module _ (s : Stdair) where
  open s use {Event, get_event_time_stamp, increment_event_time_stamp}

  -- The event moved `d` milliseconds forward.
  unfoldable pub postpone : ℕ → Event → Event
  postpone zero e = e
  postpone (suc d) e = postpone d (increment_event_time_stamp e)

  -- The frame with the event postponed and stored under its new time stamp.
  unfoldable pub placed : ℕ → Frame s → Frame s
  placed d f =
      let e = postpone d f.event in
      record {
        queue = record f.queue {
          event_list = (insert (get_event_time_stamp e) e f.queue.event_list).0;
        };
        event = e;
      }

  try_insert_taken :
      (f : Frame s)
      → IsOrdered f.queue.event_list
      → is_some (find (get_event_time_stamp f.event) f.queue.event_list) ≡ true
      → try_insert s f ≡ done false f
  unfolding try_insert
  try_insert_taken f o h =
      let stamp = get_event_time_stamp f.event in
      ground (
        arith,
        h,
        insert_flag stamp f.event f.queue.event_list o,
        insert_taken stamp f.event f.queue.event_list,
      )

  try_insert_free :
      (f : Frame s)
      → IsOrdered f.queue.event_list
      → find (get_event_time_stamp f.event) f.queue.event_list ≡ none
      → try_insert s f ≡ done true (placed 0 f)
  unfolding try_insert placed postpone
  try_insert_free f o h =
      ground (arith, insert_flag (get_event_time_stamp f.event) f.event f.queue.event_list o)

  module _ (laws : EventLaws s) where
    abbrev Search : ℕ → ℕ → Frame s → ℕ → Type 0
    Search fuel t f d =
        (d ≤ fuel)
        × Taken t d f.queue.event_list
        × (find (t + d) f.queue.event_list ≡ none)
        × (get_event_time_stamp (postpone d f.event) ≡ t + d)
        × ((try_insert s >>= insert_loop s (suc fuel)) f ≡ done true (placed d f))

    Search-free :
        (fuel t : ℕ) (f : Frame s)
        → get_event_time_stamp f.event ≡ t
        → IsOrdered f.queue.event_list
        → find t f.queue.event_list ≡ none
        → Search fuel t f 0
    unfolding insert_loop postpone
    Search-free fuel t f e o free =
        let same : t + 0 ≡ t = omega arith in
        (
          omega arith,
          λ i h. absurd (omega arith),
          rw same free,
          rw same e,
          ap (λ r. bind_result r (insert_loop s (suc fuel))) (try_insert_free f o (rw e free)),
        )

    -- The caller's event, one millisecond later.
    abbrev later : Frame s → Frame s
    later f = record f { event = increment_event_time_stamp f.event }

    Search-next :
        (fuel t d : ℕ) (f : Frame s) (v : Event)
        → get_event_time_stamp f.event ≡ t
        → IsOrdered f.queue.event_list
        → find t f.queue.event_list ≡ some v
        → Search fuel (t + 1) (later f) d
        → Search (suc fuel) t f (suc d)
    unfolding insert_loop postpone placed
    Search-next fuel t d f v e o hit (le, taken, free, stamp, run) =
        let same : t + suc d ≡ t + 1 + d = omega arith in
        (
          omega arith,
          Taken-suc t d f.queue.event_list v hit taken,
          rw same free,
          rw same stamp,
          ap (λ r. bind_result r (insert_loop s (suc (suc fuel))))
                (try_insert_taken f o (rw (e, hit)))
              ∙ run,
        )

    Search-found :
        (fuel t : ℕ) (f : Frame s)
        → get_event_time_stamp f.event ≡ t
        → IsOrdered f.queue.event_list
        → entries_from t f.queue.event_list ≤ fuel
        → t + fuel < 2 ^ 64
        → (d : ℕ) × Search fuel t f d
    Search-found zero t f e o enough room = elim (Option-cases (find t f.queue.event_list)) [
      | inl free ↦ (0, Search-free 0 t f e o free)
      | inr (v, hit) ↦ absurd (omega (arith, entries_from-lt t f.queue.event_list v hit))
    ]
    Search-found (suc fuel) t f e o enough room = elim (Option-cases (find t f.queue.event_list)) [
      | inl free ↦ (0, Search-free (suc fuel) t f e o free)
      | inr (v, hit) ↦
          let stamp : get_event_time_stamp (increment_event_time_stamp f.event) ≡ t + 1 =
            rw (laws.increment_stamp f.event (omega arith)) (ap (λ (n : ℕ). n + 1) e) in
          let (d, found) =
            Search-found fuel (t + 1) (later f) stamp o
              (omega (arith, entries_from-lt t f.queue.event_list v hit)) (omega arith) in
          (suc d, Search-next fuel t d f v e o hit found)
    ]

    -- On a queue with `n` events, the loop of `addEvent` ends after at most `n` attempts, and the
    -- event is stored `d ≤ n` milliseconds later than its time stamp asks for: at the first time
    -- stamp that is free, all those from its own on being taken. This holds when the queue is in
    -- the order of its time stamps and `n` more milliseconds fit a time stamp. `EventLaws` are
    -- assumed.
    pub add_event_first_free :
        (f : Frame s)
        → IsOrdered f.queue.event_list
        → get_event_time_stamp f.event + length f.queue.event_list < 2 ^ 64
        → (d : ℕ) × (d ≤ length f.queue.event_list)
          × Taken (get_event_time_stamp f.event) d f.queue.event_list
          × (find (get_event_time_stamp f.event + d) f.queue.event_list ≡ none)
          × (get_event_time_stamp (postpone d f.event) ≡ get_event_time_stamp f.event + d)
          × (add_event s f ≡ done true (placed d f))
    unfolding add_event
    add_event_first_free f o room =
        let (d, found) =
          Search-found (length f.queue.event_list) (get_event_time_stamp f.event) f refl o
            (entries_from-le (get_event_time_stamp f.event) f.queue.event_list) room in
        (
          d,
          found.0,
          found.1,
          found.2,
          found.3,
          ap (λ r. bind_result r (λ b. assert_that (not (idx == 1000)) >> pure b)) found.4,
        )
