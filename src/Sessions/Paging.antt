-- ===== src/Sessions/Paging.antt =====
-- Reading in pages: nothing is lost, nothing is repeated, and every page moves on.
use agent_collab.Base.{
  ℕ, suc, ◌+◌, ◌-◌, ◌≤◌, ◌<◌, String, ◌≡◌, sym, ap, ap₂, take_all, ◌∙◌, Option, none, some, List,
  [], ◌∷◌, ◌++◌, length, take, drop, min, arith, length-take, length-drop, take-append-drop,
  drop-drop,
}
use agent_collab.Events.{Event}
use agent_collab.Sessions.Reads.{
  OutcomeView, EventBatch, project_from, scan_end, batch_from_snapshot,
}

module _ {A : Type 0} (view : ℕ → Event → A) (types : Option (List String)) where
  project_from-append :
      (i : ℕ) (xs ys : List Event)
      → project_from view types i (xs ++ ys)
        ≡ project_from view types i xs ++ project_from view types (i + length xs) ys
  unfolding project_from
  project_from-append i [] ys =
      let e : i ≡ i + 0 = omega arith in ap (λ k. project_from view types k ys) e
  project_from-append i (x ∷ xs) ys =
      let e : i + 1 + length xs ≡ i + suc (length xs) = omega arith in
      ground (arith, project_from-append (i + 1) xs ys, ap (λ k. project_from view types k ys) e)

  project_split :
      (events : List Event) (c e : ℕ)
      → c ≤ e
      → e ≤ length events
      → project_from view types c (take (e - c) (drop c events))
          ++ project_from view types e (drop e events)
        ≡ project_from view types c (drop c events)
  project_split events c e h k =
      let xs = take (e - c) (drop c events) in
      let ys = drop (e - c) (drop c events) in
      let at : c + length xs ≡ e =
        omega (arith, length-take (e - c) (drop c events), length-drop c events) in
      let rest : ys ≡ drop e events =
        drop-drop c (e - c) events ∙ ap (λ n. drop n events) (omega arith) in
      sym (
        ap (project_from view types c) (sym (take-append-drop (e - c) (drop c events)))
        ∙ project_from-append c xs ys
        ∙ ap₂ (λ n l. project_from view types c xs ++ project_from view types n l) at rest)

  module _ (events : List Event) (seen : OutcomeView) where
    abbrev pub page : ℕ → Option ℕ → EventBatch A
    page cursor limit = batch_from_snapshot view events cursor limit types seen

    -- A page with a limit, and an unlimited read from where it ended, are the unlimited read.
    pub page-append :
        (cursor limit : ℕ)
        → cursor ≤ length events
        → (page cursor (some limit)).events ++ (page (page cursor (some limit)).cursor none).events
          ≡ (page cursor none).events
    unfolding batch_from_snapshot scan_end
    page-append cursor limit h =
        let end = min (length events) (cursor + limit) in
        let tail : take (length events - end) (drop end events) ≡ drop end events =
          take_all _ (drop end events) (omega (arith, length-drop end events)) in
        let whole : take (length events - cursor) (drop cursor events) ≡ drop cursor events =
          take_all _ (drop cursor events) (omega (arith, length-drop cursor events)) in
        rw (tail, whole) (project_split events cursor end (omega arith) (omega arith))

    -- If a page begins inside the log and has a positive limit, then its cursor moves on and stays in
    -- the log, whatever the type filter drops.
    pub page_advances :
        (cursor limit : ℕ)
        → cursor < length events
        → 0 < limit
        → (cursor < (page cursor (some limit)).cursor)
          × ((page cursor (some limit)).cursor ≤ length events)
    unfolding batch_from_snapshot scan_end
    page_advances cursor limit h k = (omega arith, omega arith)
