-- ===== src/Base/Dict.antt =====
-- Python's `dict` with text keys: an association list in insertion order. Writing to a key that
-- is there keeps its place.
use Prim.Native.String.{String}
use mathlib.Core.Path.{◌≡◌, refl, ◌∙◌}
use mathlib.Core.Bool.{true}
use mathlib.Core.Option.{Option, none, some}
use mathlib.Core.List.{List, [], ◌∷◌, map}
use native.Mathlib.Omega.{arith}
use text.Mathlib.Text.{◌==◌}
use text.Mathlib.TextEquality.{eq_iff}
use text.Mathlib.TextPositions.{eq_refl}
use agent_collab.Base.Tests.{if◌then◌else◌}

abbrev pub Dict {ℓ} : Type ℓ → Type ℓ
Dict V = List (String × V)

module _ {ℓ} {V : Type ℓ} where
  -- d.get(k)
  unfoldable pub get : Dict V → String → Option V
  get [] k = none
  get ((j, v) ∷ d) k = if j == k then some v else get d k

  -- d[k] = v
  unfoldable pub put : Dict V → String → V → Dict V
  put [] k v = (k, v) ∷ []
  put ((j, w) ∷ d) k v = let rest = put d k v in if j == k then (j, v) ∷ d else (j, w) ∷ rest

  -- d.pop(k, None)
  unfoldable pub remove : Dict V → String → Dict V
  remove [] k = []
  remove ((j, v) ∷ d) k = let rest = remove d k in if j == k then rest else (j, v) ∷ rest

  -- d.keys()
  abbrev pub keys : Dict V → List String
  keys d = map (λ e. e.0) d

  pub get-put :
      (d : Dict V) (j k : String) (v : V) → get (put d j v) k ≡ (if j == k then some v else get d k)
  unfolding get put
  get-put [] j k v = refl
  get-put ((i, w) ∷ d) j k v = ground (arith, eq_iff i j, eq_iff i k, eq_iff j k, get-put d j k v)

  pub get-remove :
      (d : Dict V) (k j : String) → get (remove d k) j ≡ (if k == j then none else get d j)
  unfolding get remove
  get-remove [] k j = ground arith
  get-remove ((i, w) ∷ d) k j = ground (arith, eq_iff i k, eq_iff i j, eq_iff k j, get-remove d k j)

  pub get-put_same :
      (d : Dict V) (a b : String) (v : V) → (a == b) ≡ true → get (put d a v) b ≡ some v
  get-put_same d a b v h = get-put d a b v ∙ rw h refl

  pub get-remove_same : (d : Dict V) (a b : String) → (a == b) ≡ true → get (remove d a) b ≡ none
  get-remove_same d a b h = get-remove d a b ∙ rw h refl

  pub get-put_own : (d : Dict V) (k : String) (v : V) → get (put d k v) k ≡ some v
  get-put_own d k v = get-put_same d k k v (eq_refl k)

pub ruleset dict_laws = (get-put, get-remove)
