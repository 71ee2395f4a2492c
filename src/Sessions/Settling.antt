-- ===== src/Sessions/Settling.antt =====
-- The count of unfinished inputs, and what a settled result says.
use agent_collab.Base.{
  ℕ, zero, suc, ◌+◌, ◌≡◌, refl, sym, subst, ◌∙◌, true, false, some, List, [], ◌∷◌, length,
  length-append, arith, ok,
}
use agent_collab.Sessions.{Input, World, is_terminal, schedule_notify}
use agent_collab.Sessions.Messages.{pop_input, finish_input, put_input, take_input, task_done}
use agent_collab.Sessions.Results.{result_settled}

-- One step on the inputs of a session and on the number of inputs that were taken and are not done:
-- a post, the referee's taking of an input, its `finally: queue.task_done()`, or anything that leaves
-- the queue alone. Only a taken input is reported done.
pub data InputStep : World × ℕ → World × ℕ → Type 0 where
  put : (w : World) (n : ℕ) (item : Input) → InputStep (w, n) (put_input w item, n)
  taken :
      {w v : World} (n : ℕ) (item : Input)
      → take_input w ≡ some (item, v)
      → InputStep (w, n) (v, suc n)
  finished : {w v : World} (n : ℕ) → task_done w ≡ ok v → InputStep (w, suc n) (v, n)
  elsewhere :
      {w v : World} (n : ℕ)
      → v.queue ≡ w.queue
      → v.unfinished ≡ w.unfinished
      → InputStep (w, n) (v, n)

pub data InputReach (s : World × ℕ) : World × ℕ → Type 0 where
  here : InputReach s s
  next : {t u : World × ℕ} → InputReach s t → InputStep t u → InputReach s u

-- The counter counts the inputs in the queue and those in flight.
abbrev pub IsCounted : World × ℕ → Type 0
IsCounted s = s.0.unfinished ≡ length s.0.queue + s.1

popped :
    (w v : World) (q : List Input) (n : ℕ) (item : Input)
    → w.unfinished ≡ length q + n
    → pop_input w q ≡ some (item, v)
    → v.unfinished ≡ length v.queue + suc n
unfolding pop_input
popped w v [] n item h e = cc
popped w v (i ∷ rest) n item h e =
    let after : World = record w { managed = record w.managed { queue = rest } } in
    let same : v ≡ after = cc in
    subst (λ (x : World). x.unfinished ≡ length x.queue + suc n) (sym same) (omega arith)

finished_one :
    (w v : World) (m n : ℕ)
    → m ≡ length w.queue + suc n
    → finish_input w m ≡ ok v
    → v.unfinished ≡ length v.queue + n
unfolding finish_input schedule_notify
finished_one w v zero n h e = cc
finished_one w v (suc m) n h e =
    let after : World =
      schedule_notify (record w { managed = record w.managed { unfinished = m } }) in
    let same : v ≡ after = cc in
    subst (λ (x : World). x.unfinished ≡ length x.queue + n) (sym same) (omega arith)

InputStep-IsCounted : {s t : World × ℕ} → InputStep s t → IsCounted s → IsCounted t
unfolding put_input take_input task_done
InputStep-IsCounted (put w n item) h = omega (arith, length-append w.queue (item ∷ []))
InputStep-IsCounted (taken {w} {v} n item e) h = popped w v w.queue n item h e
InputStep-IsCounted (finished {w} {v} n e) h = finished_one w v w.unfinished n h e
InputStep-IsCounted (elsewhere {w} {v} n q u) h = rw (q, u) h

InputReach-IsCounted : {s t : World × ℕ} → InputReach s t → IsCounted s → IsCounted t
InputReach-IsCounted here h = h
InputReach-IsCounted (next r s) h = InputStep-IsCounted s (InputReach-IsCounted r h)

parked :
    (w : World) → is_terminal w.state.status ≡ false → result_settled w ≡ true → w.unfinished ≡ 0
unfolding result_settled
parked w t h = ground arith

-- From a session without inputs, whatever is posted, taken and done: a settled session that is not
-- terminal has no input waiting and none in flight.
pub result_settled_idle :
    {w v : World} {n : ℕ}
    → InputReach (w, 0) (v, n)
    → w.queue ≡ []
    → w.unfinished ≡ 0
    → is_terminal v.state.status ≡ false
    → result_settled v ≡ true
    → (v.queue ≡ []) × (n ≡ 0)
result_settled_idle {w} {v} {n} steps q u t h =
    let start : IsCounted (w, 0) = rw q (omega (arith, u)) in
    let counted : v.unfinished ≡ length v.queue + n = InputReach-IsCounted steps start in
    let zero_count : length v.queue + n ≡ 0 = sym counted ∙ parked v t h in
    (nothing v.queue (omega (arith, zero_count)), omega (arith, zero_count))
  where
    nothing : (l : List Input) → length l ≡ 0 → l ≡ []
    nothing [] e = refl
    nothing (i ∷ l) e = absurd (omega arith)

not_zero : (w : World) (m k : ℕ) → m ≡ k + suc 0 → (v : World) × (finish_input w m ≡ ok v)
unfolding finish_input
not_zero w zero k h = absurd (omega arith)
not_zero w (suc m) k h = (_, refl)

-- From a session without inputs, after whatever is posted, taken and done: while an input is in flight,
-- reporting one as done does not raise.
pub task_done_runs :
    {w v : World} {n : ℕ}
    → InputReach (w, 0) (v, suc n)
    → w.queue ≡ []
    → w.unfinished ≡ 0
    → (x : World) × (task_done v ≡ ok x)
unfolding task_done
task_done_runs {w} {v} {n} steps q u =
    let start : IsCounted (w, 0) = rw q (omega (arith, u)) in
    let counted : v.unfinished ≡ length v.queue + suc n = InputReach-IsCounted steps start in
    not_zero v v.unfinished (length v.queue + n) (omega (arith, counted))
