-- ===== src/Sessions/Spans.antt =====
-- The loop of `_find_turn_answer` with answers in place of indices, one event at a time.
use agent_collab.Base.{
  ℕ, zero, suc, ◌+◌, ◌≤◌, String, ◌≡◌, refl, sym, ap, subst, ◌∙◌, Bool, true, false, ◌&&◌, Option,
  none, some, List, [], ◌∷◌, ◌++◌, length, drop, get_elem?, length-append, length-drop,
  take-append-drop, take, length-take, arith, if◌then◌else◌,
}
use agent_collab.Events.{Event}
use agent_collab.Sessions.{Answer}
use agent_collab.Sessions.Answers.{
  is_answer, is_final, scan_answers, first_of_two, answer_from, answer_at, find_turn_answer,
}

abbrev pub answer_of : ℕ → Event → Answer
answer_of i e = record { text = e.text; event_id = i; timestamp = e.timestamp }

-- The last answer and the last final answer of an agent.
abbrev pub Found : Type 0
Found = Option Answer × Option Answer

abbrev pub note : String → ℕ → Event → Found → Found
note agent i e found = (
  if is_answer agent e then some (answer_of i e) else found.0,
  if is_answer agent e && is_final e.raw then some (answer_of i e) else found.1,
)

unfoldable pub scan_found : String → ℕ → List Event → Found → Found
scan_found agent i [] found = found
scan_found agent i (e ∷ es) found = scan_found agent (i + 1) es (note agent i e found)

scan_found-append :
    (agent : String) (i : ℕ) (es : List Event) (e : Event) (found : Found)
    → scan_found agent i (es ++ e ∷ []) found
      ≡ note agent (i + length es) e (scan_found agent i es found)
unfolding scan_found
scan_found-append agent i [] e found = ap (λ k. note agent k e found) (omega arith)
scan_found-append agent i (d ∷ es) e found =
    scan_found-append agent (i + 1) es e (note agent i d found)
    ∙ ap (λ k. note agent k e (scan_found agent (i + 1) es (note agent i d found))) (omega arith)

-- What an agent has said since index `n`.
unfoldable pub said : String → ℕ → List Event → Found
unfolding scan_found
said agent n transcript = scan_found agent n (drop n transcript) (none, none)

drop-append_one :
    {A : Type 0} (n : ℕ) (xs : List A) (x : A)
    → n ≤ length xs
    → drop n (xs ++ x ∷ []) ≡ drop n xs ++ x ∷ []
drop-append_one zero xs x h = refl
drop-append_one (suc n) [] x h = absurd (omega arith)
drop-append_one (suc n) (y ∷ xs) x h = drop-append_one n xs x (omega arith)

pub said-append :
    (agent : String) (n : ℕ) (transcript : List Event) (e : Event)
    → n ≤ length transcript
    → said agent n (transcript ++ e ∷ [])
      ≡ note agent (length transcript) e (said agent n transcript)
unfolding said
said-append agent n transcript e h =
    ap (λ l. scan_found agent n l (none, none)) (drop-append_one n transcript e h)
    ∙ scan_found-append agent n (drop n transcript) e (none, none)
    ∙ ap (λ k. note agent k e (scan_found agent n (drop n transcript) (none, none)))
        (omega (arith, length-drop n transcript))

drop_all : {A : Type 0} (xs : List A) → drop (length xs) xs ≡ []
drop_all [] = refl
drop_all (x ∷ xs) = drop_all xs

pub said_nothing :
    (agent : String) (transcript : List Event)
    → said agent (length transcript) transcript ≡ (none, none)
unfolding said scan_found
said_nothing agent transcript =
    ap (λ l. scan_found agent (length transcript) l (none, none)) (drop_all transcript)

-- An index and the answer at it.
Points : List Event → Option ℕ → Option Answer → Type 0
Points tr none none = Unit
Points tr (some i) (some a) = answer_at tr (some i) ≡ some a
Points tr _ _ = ⊥

answer_at-first_of_two :
    (tr : List Event) (i j : Option ℕ) (a b : Option Answer)
    → Points tr i a
    → Points tr j b
    → answer_at tr (first_of_two i j) ≡ first_of_two a b
unfolding Points answer_at
answer_at-first_of_two tr none none none none h k = refl
answer_at-first_of_two tr none (some j) none (some b) h k = k
answer_at-first_of_two tr (some i) j (some a) b h k = h
answer_at-first_of_two tr none none none (some b) h k = absurd k
answer_at-first_of_two tr none (some j) none none h k = absurd k
answer_at-first_of_two tr none j (some a) b h k = absurd h
answer_at-first_of_two tr (some i) j none b h k = absurd h

nth_append : {A : Type 0} (xs ys : List A) (y : A) → get_elem? (xs ++ y ∷ ys) (length xs) ≡ some y
nth_append [] ys y = refl
nth_append (x ∷ xs) ys y = nth_append xs ys y

Points-here :
    (before : List Event) (e : Event) (es : List Event)
    → Points (before ++ e ∷ es) (some (length before)) (some (answer_of (length before) e))
unfolding Points answer_at
Points-here before e es = ap (answer_from (length before)) (nth_append before es e)

Points-if :
    (tr : List Event) (b : Bool) (i : ℕ) (a : Answer) (o : Option ℕ) (p : Option Answer)
    → Points tr (some i) (some a)
    → Points tr o p
    → Points tr (if b then some i else o) (if b then some a else p)
Points-if tr true i a o p h k = h
Points-if tr false i a o p h k = k

append_assoc : (xs ys : List Event) (x : Event) → (xs ++ x ∷ []) ++ ys ≡ xs ++ x ∷ ys
append_assoc [] ys x = refl
append_assoc (z ∷ xs) ys x = ap (λ l. z ∷ l) (append_assoc xs ys x)

scan_answers-Points :
    (agent : String) (tr before es : List Event) (n : ℕ) (i j : Option ℕ) (found : Found)
    → before ++ es ≡ tr
    → n ≡ length before
    → Points tr i found.0
    → Points tr j found.1
    → Points tr (scan_answers agent n es i j).0 (scan_found agent n es found).0
      × Points tr (scan_answers agent n es i j).1 (scan_found agent n es found).1
unfolding scan_answers scan_found
scan_answers-Points agent tr before [] n i j found same at h k = (h, k)
scan_answers-Points agent tr before (e ∷ es) n i j found same at h k =
    let point : Points tr (some n) (some (answer_of n e)) =
      subst (λ l. Points l (some n) (some (answer_of n e))) same
        (subst (λ m. Points (before ++ e ∷ es) (some m) (some (answer_of m e))) (sym at)
          (Points-here before e es)) in
    scan_answers-Points agent tr (before ++ e ∷ []) es (n + 1)
      (if is_answer agent e then some n else i)
      (if is_answer agent e && is_final e.raw then some n else j) (note agent n e found)
      (append_assoc before es e ∙ same) (omega (arith, length-append before (e ∷ [])))
      (Points-if tr (is_answer agent e) n (answer_of n e) i found.0 point h)
      (Points-if tr (is_answer agent e && is_final e.raw) n (answer_of n e) j found.1 point k)

-- `_find_turn_answer` picks the last final answer that was said, or else the last.
pub find_turn_answer-said :
    (transcript : List Event) (n : ℕ) (agent : String)
    → n ≤ length transcript
    → find_turn_answer transcript n agent
      ≡ first_of_two (said agent n transcript).1 (said agent n transcript).0
unfolding find_turn_answer said Points
find_turn_answer-said transcript n agent h =
    let (last, final) =
      scan_answers-Points agent transcript (take n transcript) (drop n transcript) n none none
        (none, none) (take-append-drop n transcript) (omega (arith, length-take n transcript)) tt
        tt in
    answer_at-first_of_two transcript _ _ _ _ final last
