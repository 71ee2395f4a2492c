-- ===== src/Retention/Expiry.antt =====
-- What the selection of expired sessions keeps and what it takes.
use agent_collab.Base.{
  ℕ, zero, suc, ◌+◌, ◌-◌, ◌≤◌, String, ◌≡◌, refl, sym, subst, ap, ◌∙◌, Bool, true, false, not, ◌&&◌,
  Option, some, List, [], ◌∷◌, ◌++◌, map, take, drop, length, select, min, All, get_elem?, arith,
  ok, eq_refl, length-drop, take-append-drop, select-append, Bool-cases, Option-cases, inl, inr,
}
use agent_collab.Base.Text.{member}
use agent_collab.Base.Values.{pos}
use agent_collab.Retention.Selection.{
  Stored, Candidate, Selection, is_terminal_name, is_after, insert_newest, sort_newest,
  effective_timestamp, candidates, is_past, is_protected, partition, select_expired_sessions,
}

length-insert_newest :
    (c : Candidate) (l : List Candidate) → length (insert_newest c l) ≡ suc (length l)
unfolding insert_newest
length-insert_newest c [] = refl
length-insert_newest c (d ∷ l) = ground (arith, length-insert_newest c l)

length-sort_newest : (l : List Candidate) → length (sort_newest l) ≡ length l
unfolding sort_newest
length-sort_newest [] = refl
length-sort_newest (c ∷ l) = length-insert_newest c (sort_newest l) ∙ ap suc (length-sort_newest l)

module _ {A : Type 0} where
  length-select : (p : A → Bool) (l : List A) → length (select p l) ≤ length l
  length-select p [] = omega arith
  length-select p (x ∷ l) = ground (arith, length-select p l)

  select_nothing : (p : A → Bool) (l : List A) → All (λ x. p x ≡ false) l → select p l ≡ []
  select_nothing p [] h = refl
  select_nothing p (x ∷ l) (h, hs) = rw h (select_nothing p l hs)

  All-map : (P Q : A → Type 0) → ((x : A) → P x → Q x) → (l : List A) → All P l → All Q l
  All-map P Q f [] h = tt
  All-map P Q f (x ∷ l) (h, hs) = (f x h, All-map P Q f l hs)

  All-select :
      (P : A → Type 0) (p : A → Bool) (l : List A)
      → All P l
      → All (λ x. P x × (p x ≡ true)) (select p l)
  All-select P p [] h = tt
  All-select P p (x ∷ l) (h, hs) = elim (Bool-cases (p x)) [
    | inl e ↦ rw e ((h, e), All-select P p l hs)
    | inr e ↦ rw e (All-select P p l hs)
  ]

-- The ids of a list hold each of its candidates.
All-is_protected :
    (before l : List Candidate)
    → All (λ c. is_protected (map (λ d. d.session_id) (before ++ l)) c ≡ true) l
All-is_protected before l = go before l
  where
    hit :
        (before : List Candidate) (c : Candidate) (l : List Candidate)
        → member c.session_id (map (λ d. d.session_id) (before ++ c ∷ l)) ≡ true
    hit [] c l = ground (arith, eq_refl c.session_id)
    hit (b ∷ bs) c l = ground (arith, hit bs c l)

    shift :
        (before : List Candidate) (c : Candidate) (l : List Candidate)
        → (before ++ c ∷ []) ++ l ≡ before ++ c ∷ l
    shift [] c l = refl
    shift (b ∷ bs) c l = ap (λ x. b ∷ x) (shift bs c l)

    go :
        (before l : List Candidate)
        → All (λ c. is_protected (map (λ d. d.session_id) (before ++ l)) c ≡ true) l
    go before [] = tt
    go before (c ∷ l) = (
      hit before c l,
      subst (λ x. All (λ c. is_protected (map (λ d. d.session_id) x) c ≡ true) l) (shift before c l)
          (go (before ++ c ∷ []) l),
    )

expired_of : ℕ → ℕ → List Candidate → List Candidate
expired_of cutoff keep l =
    select (λ c. is_past cutoff c && not (is_protected (map (λ d. d.session_id) (take keep l)) c)) l

length-expired_of :
    (cutoff keep : ℕ) (l : List Candidate)
    → length (expired_of cutoff keep l) + min keep (length l) ≤ length l
unfolding expired_of
length-expired_of cutoff keep l =
    let ids = map (λ d. d.session_id) (take keep l) in
    let p : Candidate → Bool = λ c. is_past cutoff c && not (is_protected ids c) in
    let none_of : select p (take keep l) ≡ [] =
      select_nothing p (take keep l)
        (All-map _ _ (λ c e. ground arith) (take keep l) (All-is_protected [] (take keep l))) in
    let cut : select p l ≡ select p (drop keep l) =
      ap (select p) (sym (take-append-drop keep l))
      ∙ select-append p (take keep l) (drop keep l)
      ∙ ap (λ x. x ++ select p (drop keep l)) none_of in
    rw cut (omega (arith, length-select p (drop keep l), length-drop keep l))

module _ (from_iso : String → Option ℕ) where
  expired_is :
      (records : List Stored) (now retention keep : ℕ) (s : Selection)
      → select_expired_sessions from_iso records now retention (pos keep) ≡ ok s
      → (retention ≤ now)
        × (s.expired
            ≡ expired_of (now - retention) keep (sort_newest (candidates from_iso records)))
  unfolding select_expired_sessions partition expired_of
  expired_is records now retention keep s h = (ground arith, ground arith)

  -- However old they are, at least `keep` of the terminal sessions with a timestamp, or all of them if
  -- they are fewer, do not expire.
  pub select_expired_sessions-keep :
      (records : List Stored) (now retention keep : ℕ) (s : Selection)
      → select_expired_sessions from_iso records now retention (pos keep) ≡ ok s
      → length s.expired + min keep (length (candidates from_iso records))
        ≤ length (candidates from_iso records)
  select_expired_sessions-keep records now retention keep s h =
      let sorted = sort_newest (candidates from_iso records) in
      let (le, same) = expired_is records now retention keep s h in
      rw same (
        omega (
          arith,
          length-expired_of (now - retention) keep sorted,
          length-sort_newest (candidates from_iso records),
        ))

  -- A record of the list that the candidate stands for.
  abbrev pub StandsFor : List Stored → Candidate → Type 0
  StandsFor records c =
      (i : ℕ) × (r : Stored) × (get_elem? records i ≡ some r)
      × (r.session_id ≡ c.session_id)
      × (is_terminal_name r.status ≡ true)
      × (effective_timestamp from_iso r ≡ some c.effective_at)

  later :
      (x : Stored) (records : List Stored) (c : Candidate)
      → StandsFor records c
      → StandsFor (x ∷ records) c
  later x records c h = (suc h.0, h.1, h.2, h.3, h.4, h.5)

  candidates-StandFor :
      (records : List Stored) → All (StandsFor records) (candidates from_iso records)
  unfolding candidates
  candidates-StandFor [] = tt
  candidates-StandFor (r ∷ rs) =
      let rest =
        All-map (StandsFor rs) (StandsFor (r ∷ rs)) (later r rs) (candidates from_iso rs)
          (candidates-StandFor rs) in
      elim (Bool-cases (is_terminal_name r.status)) [
        | inr e ↦ rw e rest
        | inl e ↦ elim (Option-cases (effective_timestamp from_iso r)) [
          | inl m ↦ rw (e, m) rest
          | inr (at, m) ↦ rw (e, m) ((zero, r, refl, refl, e, m), rest)
        ]
      ]

All-insert_newest :
    (P : Candidate → Type 0) (c : Candidate) (l : List Candidate)
    → P c
    → All P l
    → All P (insert_newest c l)
unfolding insert_newest
All-insert_newest P c [] h hs = (h, tt)
All-insert_newest P c (d ∷ l) h (hd, hs) = elim (Bool-cases (is_after d c)) [
  | inl e ↦ rw e (hd, All-insert_newest P c l h hs)
  | inr e ↦ rw e (h, (hd, hs))
]

All-sort_newest : (P : Candidate → Type 0) (l : List Candidate) → All P l → All P (sort_newest l)
unfolding sort_newest
All-sort_newest P [] h = tt
All-sort_newest P (c ∷ l) (h, hs) = All-insert_newest P c (sort_newest l) h (All-sort_newest P l hs)

module _ (from_iso : String → Option ℕ) where
  -- Everything that expires is a terminal session of the records, whose effective timestamp is at least
  -- the retention ago: no live session and none without a timestamp.
  pub select_expired_sessions-StandFor :
      (records : List Stored) (now retention keep : ℕ) (s : Selection)
      → select_expired_sessions from_iso records now retention (pos keep) ≡ ok s
      → All (λ c. StandsFor from_iso records c × (c.effective_at + retention ≤ now)) s.expired
  unfolding expired_of
  select_expired_sessions-StandFor records now retention keep s h =
      let sorted = sort_newest (candidates from_iso records) in
      let (le, same) = expired_is from_iso records now retention keep s h in
      let ids = map (λ c. c.session_id) (take keep sorted) in
      let p : Candidate → Bool = λ c. is_past (now - retention) c && not (is_protected ids c) in
      let stand =
        All-sort_newest (StandsFor from_iso records) (candidates from_iso records)
          (candidates-StandFor from_iso records) in
      rw same (
        All-map (λ c. StandsFor from_iso records c × (p c ≡ true))
          (λ c. StandsFor from_iso records c × (c.effective_at + retention ≤ now))
          (λ c e. (e.0, ground arith)) (select p sorted)
          (All-select (StandsFor from_iso records) p sorted stand))
