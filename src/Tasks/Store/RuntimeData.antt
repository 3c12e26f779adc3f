-- ===== src/Tasks/Store/RuntimeData.antt =====
-- The runtime data that `completeTask` merges (packages/db/src/repositories/task-store-live.ts).
use amby.Common.{◌≡◌, refl, Option, none, some, List, [], ◌∷◌, ◌++◌, arith, is_some, or_else, head?}
use amby.Common.Text.{Text, text_eq_iff}
use amby.Tasks.Store.{lookup, overridden, added, merge_runtime_data}

-- The keys of an object differ.
abbrev pub HasDistinctKeys {ℓ} : {A : Type ℓ} → List (Text × A) → Type ℓ
HasDistinctKeys [] = Unit
HasDistinctKeys ((k, a) ∷ l) = (lookup k l ≡ none) × HasDistinctKeys l

module _ (k : Text) where
  lookup-append :
      (l m : List (Text × Text))
      → lookup k (l ++ m) ≡ (elim (lookup k l) [ none ↦ lookup k m | some v ↦ some v ])
  lookup-append [] m = refl
  lookup-append ((h, v) ∷ l) m = ground (arith, lookup-append l m)

  lookup-overridden :
      (new : List (Text × Option Text)) (old : List (Text × Text))
      → lookup k (overridden new old) ≡ (elim (lookup k old) [
        | none ↦ none
        | some v ↦ elim (lookup k new) [ none ↦ some v | some w ↦ w ]
      ])
  unfolding overridden
  lookup-overridden new [] = refl
  lookup-overridden new ((h, v) ∷ old) = ground (arith, lookup-overridden new old, text_eq_iff h k)

  lookup-added :
      (old : List (Text × Text)) (new : List (Text × Option Text))
      → HasDistinctKeys new
      → lookup k (added old new) ≡ (elim (lookup k old) [
        | none ↦ elim (lookup k new) [ none ↦ none | some w ↦ w ]
        | some v ↦ none
      ])
  unfolding added
  lookup-added old [] d = ground arith
  lookup-added old ((h, none) ∷ new) (d, rest) =
      ground (arith, lookup-added old new rest, text_eq_iff h k, d)
  lookup-added old ((h, some v) ∷ new) (d, rest) =
      ground (arith, lookup-added old new rest, text_eq_iff h k, d)

  -- A key of the merged data has the new value if the new object has the key with a value, none if
  -- it has the key without one, and the old value, if any, otherwise; and data without keys is
  -- `null`. The keys of the new object differ.
  pub merge_runtime_data_lem :
      (current : Option (List (Text × Text))) (new : List (Text × Option Text))
      → HasDistinctKeys new
      → (lookup k (or_else (merge_runtime_data current new) [])
          ≡ (elim (lookup k new) [ none ↦ lookup k (or_else current []) | some w ↦ w ]))
        × (is_some (merge_runtime_data current new)
            ≡ is_some (head? (or_else (merge_runtime_data current new) [])))
  unfolding merge_runtime_data
  merge_runtime_data_lem current new d =
      let old = or_else current [] in
      (
        ground (
          arith,
          lookup-append (overridden new old) (added old new),
          lookup-overridden new old,
          lookup-added old new d,
        ),
        ground arith,
      )
