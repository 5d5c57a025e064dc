-- ===== src/Maps.antt =====
-- Go maps with string keys, as association lists without repeated keys. Their order stands for the
-- order of an iteration: what holds of every list holds of every order in which Go visits a map.
use futureq_v.Prelude.{◌≡◌, refl, false, List, [], ◌∷◌, Option, none, some, if◌then◌else◌, arith}
use futureq_v.Bytes.{Bytes}
use futureq_v.Bytes.Order.{bytes_eq, bytes_eq_iff, bytes_eq_refl}

abbrev pub Map : Type 0 → Type 0
Map V = List (Bytes × V)

module _ {V : Type 0} where
  unfoldable pub lookup : Bytes → Map V → Option V
  lookup k [] = none
  lookup k ((j, v) ∷ m) = if bytes_eq j k then some v else lookup k m

  -- `m[k] = v`
  unfoldable pub insert : Bytes → V → Map V → Map V
  insert k v [] = (k, v) ∷ []
  insert k v ((j, w) ∷ m) = if bytes_eq j k then (k, v) ∷ m else (j, w) ∷ insert k v m

  -- `delete(m, k)`
  unfoldable pub remove : Bytes → Map V → Map V
  remove k [] = []
  remove k ((j, w) ∷ m) = if bytes_eq j k then m else (j, w) ∷ remove k m

  pub lookup-insert :
      (k j : Bytes) (v : V) (m : Map V)
      → lookup j (insert k v m) ≡ (if bytes_eq k j then some v else lookup j m)
  unfolding lookup insert
  lookup-insert k j v [] = refl
  lookup-insert k j v ((i, w) ∷ m) =
      ground (arith, bytes_eq_iff k j, bytes_eq_iff i k, bytes_eq_iff i j, lookup-insert k j v m)

  pub lookup-insert_self : (k : Bytes) (v : V) (m : Map V) → lookup k (insert k v m) ≡ some v
  lookup-insert_self k v m = ground (arith, lookup-insert k k v m, bytes_eq_refl k)

  pub insert-insert : (k : Bytes) (v w : V) (m : Map V) → insert k w (insert k v m) ≡ insert k w m
  unfolding insert
  insert-insert k v w [] = ground (arith, bytes_eq_refl k)
  insert-insert k v w ((i, u) ∷ m) = ground (arith, bytes_eq_refl k, insert-insert k v w m)

  pub insert-lookup : (k : Bytes) (v : V) (m : Map V) → lookup k m ≡ some v → insert k v m ≡ m
  unfolding insert lookup
  insert-lookup k v [] h = cc
  insert-lookup k v ((i, u) ∷ m) h = ground (arith, bytes_eq_iff i k, insert-lookup k v m)

  pub remove-insert_new :
      (k : Bytes) (v : V) (m : Map V) → lookup k m ≡ none → remove k (insert k v m) ≡ m
  unfolding insert remove lookup
  remove-insert_new k v [] h = ground (arith, bytes_eq_refl k)
  remove-insert_new k v ((i, u) ∷ m) h = ground (arith, remove-insert_new k v m)

  pub remove_absent : (k : Bytes) (m : Map V) → lookup k m ≡ none → remove k m ≡ m
  unfolding remove lookup
  remove_absent k [] h = refl
  remove_absent k ((i, u) ∷ m) h = ground (arith, remove_absent k m)

  pub lookup-remove_ne :
      (k j : Bytes) (m : Map V) → bytes_eq k j ≡ false → lookup j (remove k m) ≡ lookup j m
  unfolding lookup remove
  lookup-remove_ne k j [] h = refl
  lookup-remove_ne k j ((i, w) ∷ m) h =
      ground (arith, bytes_eq_iff i k, bytes_eq_iff i j, lookup-remove_ne k j m)

  -- Each key once.
  abbrev pub Distinct : Map V → Type 0
  Distinct [] = Unit {0}
  Distinct ((k, v) ∷ m) = (lookup k m ≡ none) × Distinct m

  pub lookup-remove :
      (k j : Bytes) (m : Map V)
      → Distinct m
      → lookup j (remove k m) ≡ (if bytes_eq k j then none else lookup j m)
  unfolding lookup remove
  lookup-remove k j [] h = ground arith
  lookup-remove k j ((i, w) ∷ m) (h0, h) =
      ground (arith, bytes_eq_iff i k, bytes_eq_iff i j, bytes_eq_iff k j, lookup-remove k j m h)

  pub remove-Distinct : (k : Bytes) (m : Map V) → Distinct m → Distinct (remove k m)
  unfolding lookup remove
  remove-Distinct k [] h = tt
  remove-Distinct k ((i, w) ∷ m) (h0, h) =
      ground (arith, remove-Distinct k m h, lookup-remove k i m h, bytes_eq_iff i k)
