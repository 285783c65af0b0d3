-- ===== src/Common/Keyed.antt =====
-- Values with a numeric key, kept in a `Map` under their keys and listed in the order of the keys.
use mathlib.Core.Path.{◌≡◌, refl, ◌∙◌}
use mathlib.Core.Logic.{◌≢◌}
use mathlib.Core.Option.{Option, none, some}
use mathlib.Core.List.{List, [], ◌∷◌, map}
use Prim.Native.Nat.{ℕ, suc, ◌≤◌, ◌<◌}
use native.Mathlib.Omega.{arith}
use chessview.Common.Tests.{◌==◌, leb, if◌then◌else◌}
use chessview.Common.Int.{ℤ, pos, leb_ℤ}
use chessview.Common.NatMap.{lookup, insert, insert_all, values, lookup-insert}
use chessview.Common.Sort.{place, sort}

module _ {V : Type 0} (key : V → ℕ) where
  -- The first value with the key.
  abbrev pub find_by : ℕ → List V → Option V
  find_by k [] = none
  find_by k (x ∷ xs) = if key x == k then some x else find_by k xs

  -- Each value stands under its key, and each key once.
  abbrev pub IsMap : List (ℕ × V) → Type 0
  IsMap [] = Unit
  IsMap ((k, v) ∷ m) = (key v ≡ k) × (lookup k m ≡ none) × IsMap m

  abbrev pub IsDistinct : List V → Type 0
  IsDistinct [] = Unit
  IsDistinct (x ∷ xs) = (find_by (key x) xs ≡ none) × IsDistinct xs

  -- Strictly increasing keys, from `n` on.
  abbrev pub IsIncreasing : ℕ → List V → Type 0
  IsIncreasing n [] = Unit
  IsIncreasing n (x ∷ xs) = (n ≤ key x) × IsIncreasing (suc (key x)) xs

  pub insert-IsMap : (k : ℕ) (v : V) (m : List (ℕ × V)) → key v ≡ k → IsMap m → IsMap (insert k v m)
  insert-IsMap k v [] e h = (e, refl, tt)
  insert-IsMap k v ((j, w) ∷ m) e h =
      ground (arith, insert-IsMap k v m e h.2, lookup-insert k j v m)

  pub insert_all-IsMap :
      (m : List (ℕ × V)) (xs : List V) → IsMap m → IsMap (insert_all m (map (λ x. (key x, x)) xs))
  insert_all-IsMap m [] h = h
  insert_all-IsMap m (x ∷ xs) h =
      insert_all-IsMap (insert (key x) x m) xs (insert-IsMap (key x) x m refl h)

  pub find_by-values : (k : ℕ) (m : List (ℕ × V)) → IsMap m → find_by k (values m) ≡ lookup k m
  find_by-values k [] h = refl
  find_by-values k ((j, v) ∷ m) h = ground (arith, find_by-values k m h.2)

  pub values-IsDistinct : (m : List (ℕ × V)) → IsMap m → IsDistinct (values m)
  values-IsDistinct [] h = tt
  values-IsDistinct ((j, v) ∷ m) h =
      (rw h.0 (find_by-values j m h.2 ∙ h.1), values-IsDistinct m h.2)

  find_by_below : (k n : ℕ) (xs : List V) → k < n → IsIncreasing n xs → find_by k xs ≡ none
  find_by_below k n [] l h = refl
  find_by_below k n (x ∷ xs) l h =
      ground (arith, find_by_below k (suc (key x)) xs (omega arith) h.1)

  heads-eq :
      (n : ℕ) (x y : V) (xs ys : List V)
      → IsIncreasing n (x ∷ xs)
      → IsIncreasing n (y ∷ ys)
      → ((k : ℕ) → find_by k (x ∷ xs) ≡ find_by k (y ∷ ys))
      → x ≡ y
  heads-eq n x y xs ys h k e = ground (
    arith,
    e (key x),
    e (key y),
    find_by_below (key x) (suc (key y)) ys,
    find_by_below (key y) (suc (key x)) xs,
  )

  -- Two lists in the order of their keys are the same if every key finds the same in both.
  pub IsIncreasing-ext :
      (n : ℕ) (xs ys : List V)
      → IsIncreasing n xs
      → IsIncreasing n ys
      → ((k : ℕ) → find_by k xs ≡ find_by k ys)
      → xs ≡ ys
  IsIncreasing-ext n [] [] h k e = refl
  IsIncreasing-ext n [] (y ∷ ys) h k e = ground (arith, e (key y))
  IsIncreasing-ext n (x ∷ xs) [] h k e = ground (arith, e (key x))
  IsIncreasing-ext n (x ∷ xs) (y ∷ ys) h k e =
      let same : x ≡ y = heads-eq n x y xs ys h k e in
      let k' : IsIncreasing (suc (key x)) ys = rw same k.1 in
      cc (
        same,
        IsIncreasing-ext (suc (key x)) xs ys h.1 k' (λ j.
            ground (
              arith,
              e j,
              same,
              find_by_below j (suc (key x)) xs,
              find_by_below j (suc (key x)) ys,
            )),
      )

  module _ (order : V → V → ℤ)
      (agrees : (a b : V) → key a ≢ key b → leb_ℤ (order a b) (pos 0) ≡ leb (key a) (key b)) where
    place-IsIncreasing :
        (n : ℕ) (x : V) (xs : List V)
        → n ≤ key x
        → find_by (key x) xs ≡ none
        → IsIncreasing n xs
        → IsIncreasing n (place order x xs)
    place-IsIncreasing n x [] l e h = (l, tt)
    place-IsIncreasing n x (y ∷ ys) l e h =
        ground (arith, agrees x y, place-IsIncreasing (suc (key y)) x ys)

    find_by-place :
        (k : ℕ) (x : V) (xs : List V)
        → find_by (key x) xs ≡ none
        → find_by k (place order x xs) ≡ (if key x == k then some x else find_by k xs)
    find_by-place k x [] e = refl
    find_by-place k x (y ∷ ys) e = ground (arith, find_by-place k x ys)

    pub find_by-sort :
        (k : ℕ) (xs : List V) → IsDistinct xs → find_by k (sort order xs) ≡ find_by k xs
    find_by-sort k [] h = refl
    find_by-sort k (x ∷ xs) h = ground (
      arith,
      find_by-sort k xs h.1,
      find_by-sort (key x) xs h.1,
      find_by-place k x (sort order xs),
    )

    pub sort-IsIncreasing : (xs : List V) → IsDistinct xs → IsIncreasing 0 (sort order xs)
    sort-IsIncreasing [] h = tt
    sort-IsIncreasing (x ∷ xs) h =
        place-IsIncreasing 0 x (sort order xs) (omega arith) (find_by-sort (key x) xs h.1 ∙ h.0)
          (sort-IsIncreasing xs h.1)
