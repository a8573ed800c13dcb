-- ===== src/Base/Dicts.antt =====
-- `Map` and plain objects with string keys: entries in the order of their first insertion.
use mathlib.Core.Path.{◌≡◌, refl}
use mathlib.Core.Logic.{inl, inr}
use mathlib.Core.Option.{Option, none, some}
use mathlib.Core.List.{List, [], ◌∷◌}
use native.Mathlib.Omega.{arith}
use racemo.Base.Tests.{if◌then◌else◌, Bool-cases}
use racemo.Base.Texts.{Text, text_eq, text_eq_iff}

abbrev pub Dict {ℓ} : Type ℓ → Type ℓ
Dict V = List (Text × V)

module _ {ℓ} {V : Type ℓ} where
  unfoldable pub dict_get : Text → Dict V → Option V
  dict_get k [] = none
  dict_get k ((j, v) ∷ m) = if text_eq j k then some v else dict_get k m

  -- An existing key keeps its place.
  unfoldable pub dict_set : Text → V → Dict V → Dict V
  dict_set k v [] = (k, v) ∷ []
  dict_set k v ((j, w) ∷ m) = if text_eq j k then (k, v) ∷ m else (j, w) ∷ dict_set k v m

  unfoldable pub dict_delete : Text → Dict V → Dict V
  dict_delete k [] = []
  dict_delete k ((j, w) ∷ m) =
      let rest = dict_delete k m in if text_eq j k then rest else (j, w) ∷ rest

  -- `{ ...m, ...n }`
  unfoldable pub dict_merge : Dict V → Dict V → Dict V
  dict_merge m [] = m
  dict_merge m ((k, v) ∷ n) = dict_merge (dict_set k v m) n

  unfoldable pub dict_get_or : Text → V → Dict V → V
  dict_get_or k d m = elim (dict_get k m) [ none ↦ d | some v ↦ v ]

  pub dict_get-dict_set :
      (k j : Text) (v : V) (m : Dict V)
      → dict_get j (dict_set k v m) ≡ (if text_eq k j then some v else dict_get j m)
  unfolding dict_get dict_set
  dict_get-dict_set k j v [] = refl
  dict_get-dict_set k j v ((i, w) ∷ m) =
      ground (arith, text_eq_iff k j, text_eq_iff i k, text_eq_iff i j, dict_get-dict_set k j v m)

  pub dict_get-dict_delete :
      (k j : Text) (m : Dict V)
      → dict_get j (dict_delete k m) ≡ (if text_eq k j then none else dict_get j m)
  unfolding dict_get dict_delete
  dict_get-dict_delete k j [] = ground arith
  dict_get-dict_delete k j ((i, w) ∷ m) =
      ground (arith, text_eq_iff k j, text_eq_iff i k, text_eq_iff i j, dict_get-dict_delete k j m)

  pub dict_get_or-dict_set :
      (k j : Text) (d v : V) (m : Dict V)
      → dict_get_or j d (dict_set k v m) ≡ (if text_eq k j then v else dict_get_or j d m)
  unfolding dict_get_or
  dict_get_or-dict_set k j d v m =
      rw (dict_get-dict_set, dict_get_or)
        (elim (Bool-cases (text_eq k j)) [ inl e ↦ rw e | inr e ↦ rw e ])

  pub dict_get_or-dict_delete :
      (k j : Text) (d : V) (m : Dict V)
      → dict_get_or j d (dict_delete k m) ≡ (if text_eq k j then d else dict_get_or j d m)
  unfolding dict_get_or
  dict_get_or-dict_delete k j d m =
      rw (dict_get-dict_delete, dict_get_or)
        (elim (Bool-cases (text_eq k j)) [ inl e ↦ rw e | inr e ↦ rw e ])
