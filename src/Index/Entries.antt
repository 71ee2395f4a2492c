-- ===== src/Index/Entries.antt =====
-- The index file holds, for each session, the state that was stored last and not removed since.
use agent_collab.Base.{
  ◌≤◌, String, ◌≡◌, refl, sym, ap, ◌∙◌, Bool, true, false, not, Option, none, some, List, [], ◌∷◌,
  select, length, if◌then◌else◌, ◌==◌, ◌=?◌, eq_iff, arith, Result, ok, err, Bool-cases, inl, inr,
}
use agent_collab.Base.Text.{member}
use agent_collab.Base.Dict.{Dict, get, put, get-put}
use agent_collab.Base.Values.{Value, Fields, get_field}
use agent_collab.Index.{File, states_of, load, fields_of, write, id_of_state, upsert, remove_many}

states_of-fields_of : (d : Dict Fields) → states_of (fields_of d) ≡ d
unfolding states_of fields_of
states_of-fields_of [] = refl
states_of-fields_of ((k, v) ∷ d) = ap (λ l. (k, v) ∷ l) (states_of-fields_of d)

select_shorter : {A : Type 0} (p : A → Bool) (xs : List A) → length (select p xs) ≤ length xs
select_shorter p [] = omega arith
select_shorter p (x ∷ xs) = ground (arith, select_shorter p xs)

-- Where a selection is as long as the list, it is the list.
select_whole :
    {A : Type 0} (p : A → Bool) (xs : List A) → length (select p xs) ≡ length xs → select p xs ≡ xs
select_whole p [] h = refl
select_whole p (x ∷ xs) h = elim (Bool-cases (p x)) [
  | inl e ↦ rw e (ap (λ l. x ∷ l) (select_whole p xs (ground arith)))
  | inr e ↦ absurd (ground (arith, select_shorter p xs))
]

-- Among what is kept, a name that is removed has no entry, and another has its own.
get-select :
    (names : List String) (d : Dict Fields) (k : String)
    → get (select (λ e. not (member e.0 names)) d) k ≡ (if member k names then none else get d k)
unfolding get
get-select names [] k = ground arith
get-select names ((j, v) ∷ d) k = elim (Bool-cases (j == k)) [
  | inl e ↦ elim (Bool-cases (member j names)) [
    | inl n ↦
        rw (n, e)
          (get-select names d k ∙ removed (sym (ap (λ x. member x names) ((eq_iff j k).0 e)) ∙ n))
    | inr n ↦ rw (n, e) (sym (held (sym (ap (λ x. member x names) ((eq_iff j k).0 e)) ∙ n)))
  ]
  | inr e ↦ elim (Bool-cases (member j names)) [
    | inl n ↦ rw (n, e) (get-select names d k)
    | inr n ↦ rw (n, e) (get-select names d k)
  ]
]
  where
    removed :
        member k names ≡ true
        → (if member k names then none else get d k) ≡ (if member k names then none else some v)
    removed h = rw h refl

    held : member k names ≡ false → (if member k names then none else some v) ≡ some v
    held h = rw h refl

-- What the index is asked to do.
pub data IndexRequest : Type 0 where
  store : Fields → IndexRequest
  forget : List String → IndexRequest

module _ (sorted : Dict Fields → Dict Fields) (show : Value → String) where
  -- The file after a request; one that is refused changes nothing.
  abbrev pub kept : File → Result File → File
  kept file (ok f) = f
  kept file (err e) = file

  unfoldable pub serve : File → IndexRequest → File
  unfolding upsert remove_many
  serve file (store state) = kept file (upsert sorted show file state)
  serve file (forget ids) = remove_many sorted show file ids

  unfoldable pub serve_all : File → List IndexRequest → File
  unfolding serve
  serve_all file [] = file
  serve_all file (r ∷ rs) = serve_all (serve file r) rs

  -- The index as a map of ids to states.
  unfoldable pub told : (String → Option Fields) → IndexRequest → String → Option Fields
  unfolding id_of_state
  told m (store state) k =
      let id = id_of_state sorted show state in
      if id == "" then m k else if id == k then some state else m k
  told m (forget ids) k = if member k ids then none else m k

  unfoldable pub told_all : (String → Option Fields) → List IndexRequest → String → Option Fields
  unfolding told
  told_all m [] = m
  told_all m (r ∷ rs) = told_all (told m r) rs

  abbrev entries : File → String → Option Fields
  entries file k = get (load file) k

  abbrev remaining : File → List String → Dict Fields
  remaining file ids = select (λ e. not (member e.0 ids)) (load file)

  load-write :
      ((d : Dict Fields) (k : String) → get (sorted d) k ≡ get d k)
      → (d : Dict Fields) (k : String) → entries (write sorted show d) k ≡ get d k
  unfolding load write get_field
  load-write order d k = ap (λ x. get x k) (states_of-fields_of (sorted d)) ∙ order d k

  told_step :
      (r : IndexRequest) (m n : String → Option Fields)
      → ((k : String) → m k ≡ n k)
      → (k : String) → told m r k ≡ told n r k
  unfolding told
  told_step (store state) m n h k =
      ap
        (λ x.
          if id_of_state sorted show state == ""
          then x
          else if id_of_state sorted show state == k
          then some state
          else x)
        (h k)
  told_step (forget ids) m n h k = ap (λ x. if member k ids then none else x) (h k)

  told_same :
      (rs : List IndexRequest) (m n : String → Option Fields)
      → ((k : String) → m k ≡ n k)
      → (k : String) → told_all m rs k ≡ told_all n rs k
  unfolding told_all
  told_same [] m n h k = h k
  told_same (r ∷ rs) m n h k = told_same rs (told m r) (told n r) (told_step r m n h) k

  serve-told :
      ((d : Dict Fields) (k : String) → get (sorted d) k ≡ get d k)
      → (file : File) (r : IndexRequest) (k : String)
      → entries (serve file r) k ≡ told (entries file) r k
  unfolding serve told upsert remove_many
  serve-told order file (store state) k = elim (Bool-cases (id_of_state sorted show state == "")) [
    | inl e ↦ rw e refl
    | inr e ↦ rw e (
        load-write order (put (load file) (id_of_state sorted show state) state) k
        ∙ get-put (load file) (id_of_state sorted show state) k state)
  ]
  serve-told order file (forget []) k = refl
  serve-told order file (forget (i ∷ ids)) k =
      elim (Bool-cases (length (remaining file (i ∷ ids)) =? length (load file))) [
        | inl e ↦ rw e (
            ap (λ d. get d k) (sym (select_whole _ (load file) (same_count e)))
            ∙ get-select (i ∷ ids) (load file) k)
        | inr e ↦
            rw e
              (load-write order (remaining file (i ∷ ids)) k ∙ get-select (i ∷ ids) (load file) k)
      ]
    where
      same_count :
          (length (remaining file (i ∷ ids)) =? length (load file)) ≡ true
          → length (remaining file (i ∷ ids)) ≡ length (load file)
      same_count e = ground (arith, e)

  -- If writing keeps the entries of the index, whatever order it puts them in, then after any
  -- requests the file has for every id the state that was stored last and not removed since, and
  -- for an id that was neither stored nor removed what it had before.
  pub serve_all-told_all :
      (file : File) (requests : List IndexRequest) (k : String)
      → ((d : Dict Fields) (k : String) → get (sorted d) k ≡ get d k)
      → get (load (serve_all file requests)) k ≡ told_all (entries file) requests k
  unfolding serve_all told_all
  serve_all-told_all file [] k order = refl
  serve_all-told_all file (r ∷ rs) k order =
      serve_all-told_all (serve file r) rs k order
      ∙ told_same rs (entries (serve file r)) (told (entries file) r) (serve-told order file r) k
