-- ===== src/Common/NatMap.antt =====
-- JavaScript's `Map` with numbers for keys: entries in insertion order, each key once.
use Prim.Native.Nat.{ℕ}
use mathlib.Core.Path.{◌≡◌, refl}
use mathlib.Core.Option.{Option, none, some}
use mathlib.Core.List.{List, [], ◌∷◌, map}
use native.Mathlib.Omega.{arith}
use chessview.Common.Tests.{◌==◌, if◌then◌else◌, ◌or_else◌}

module _ {ℓ} {V : Type ℓ} where
  abbrev pub lookup : ℕ → List (ℕ × V) → Option V
  lookup k [] = none
  lookup k ((j, v) ∷ m) = if j == k then some v else lookup k m

  -- `m.set(k, v)`: a key that is there keeps its place.
  abbrev pub insert : ℕ → V → List (ℕ × V) → List (ℕ × V)
  insert k v [] = (k, v) ∷ []
  insert k v ((j, w) ∷ m) = if j == k then (k, v) ∷ m else (j, w) ∷ insert k v m

  -- `new Map(entries)`, and a loop of `set` over the entries.
  abbrev pub insert_all : List (ℕ × V) → List (ℕ × V) → List (ℕ × V)
  insert_all m [] = m
  insert_all m ((k, v) ∷ es) = insert_all (insert k v m) es

  abbrev pub values : List (ℕ × V) → List V
  values = map (λ e. e.1)

  -- The value of the last entry with the key.
  abbrev pub last_of : ℕ → List (ℕ × V) → Option V
  last_of k [] = none
  last_of k ((j, v) ∷ es) = last_of k es or_else (if j == k then some v else none)

  pub lookup-insert :
      (k j : ℕ) (v : V) (m : List (ℕ × V))
      → lookup j (insert k v m) ≡ (if k == j then some v else lookup j m)
  lookup-insert k j v [] = refl
  lookup-insert k j v ((i, w) ∷ m) = ground (arith, lookup-insert k j v m)

  -- A map built from entries finds the last entry with the key.
  pub lookup-insert_all :
      (k : ℕ) (m es : List (ℕ × V)) → lookup k (insert_all m es) ≡ (last_of k es or_else lookup k m)
  lookup-insert_all k m [] = refl
  lookup-insert_all k m ((j, v) ∷ es) =
      ground (arith, lookup-insert_all k (insert j v m) es, lookup-insert j k v m)
