-- ===== src/Metadata/IdMap.antt =====
-- Go maps from uint64, as association lists without repeated keys, in the order of an iteration.
use futureq_v.Prelude.{
  ℕ, ◌≡◌, ◌≢◌, refl, List, [], ◌∷◌, ◌++◌, Option, none, some, ◌==◌, if◌then◌else◌, arith,
}

abbrev pub IdMap : Type 0 → Type 0
IdMap V = List (ℕ × V)

module _ {V : Type 0} where
  unfoldable pub lookup_id : ℕ → IdMap V → Option V
  lookup_id k [] = none
  lookup_id k ((j, v) ∷ m) = if j == k then some v else lookup_id k m

  -- `m[k] = v`
  unfoldable pub insert_id : ℕ → V → IdMap V → IdMap V
  insert_id k v [] = (k, v) ∷ []
  insert_id k v ((j, w) ∷ m) = if j == k then (k, v) ∷ m else (j, w) ∷ insert_id k v m

  -- `for k, v := range m { acc[k] = v }`
  unfoldable pub copy_into : IdMap V → IdMap V → IdMap V
  unfolding insert_id
  copy_into acc [] = acc
  copy_into acc ((k, v) ∷ m) = copy_into (insert_id k v acc) m

  -- No key is repeated.
  abbrev pub IsIdMap : IdMap V → Type 0
  IsIdMap [] = Unit {0}
  IsIdMap ((k, v) ∷ m) = (lookup_id k m ≡ none) × IsIdMap m

  pub lookup_id-insert_id :
      (k j : ℕ) (v : V) (m : IdMap V)
      → lookup_id j (insert_id k v m) ≡ (if k == j then some v else lookup_id j m)
  unfolding lookup_id insert_id
  lookup_id-insert_id k j v [] = refl
  lookup_id-insert_id k j v ((i, w) ∷ m) = ground (arith, lookup_id-insert_id k j v m)

  pub insert_id-IsIdMap : (k : ℕ) (v : V) (m : IdMap V) → IsIdMap m → IsIdMap (insert_id k v m)
  unfolding lookup_id insert_id
  insert_id-IsIdMap k v [] h = (refl, tt)
  insert_id-IsIdMap k v ((j, w) ∷ m) h =
      ground (arith, insert_id-IsIdMap k v m, lookup_id-insert_id k j v m)

  -- A new key goes to the end of the list.
  pub insert_id_new :
      (k : ℕ) (v : V) (m : IdMap V) → lookup_id k m ≡ none → insert_id k v m ≡ m ++ (k, v) ∷ []
  unfolding lookup_id insert_id
  insert_id_new k v [] h = refl
  insert_id_new k v ((j, w) ∷ m) h = ground (arith, insert_id_new k v m)

  lookup_id-middle :
      (k : ℕ) (v : V) (acc m : IdMap V) → IsIdMap (acc ++ (k, v) ∷ m) → lookup_id k acc ≡ none
  unfolding lookup_id
  lookup_id-middle k v [] m h = refl
  lookup_id-middle k v ((j, w) ∷ acc) m h =
      ground (arith, lookup_id-middle k v acc m, lookup_id-member j k v acc m)
    where
      lookup_id-member :
          (j k : ℕ) (v : V) (acc m : IdMap V) → lookup_id j (acc ++ (k, v) ∷ m) ≡ none → j ≢ k
      lookup_id-member j k v [] m h = ground (arith, h)
      lookup_id-member j k v ((i, u) ∷ acc) m h = ground (arith, lookup_id-member j k v acc m)

  -- Inserting the next key of a map that is read in order.
  pub insert_id_next :
      (k : ℕ) (v : V) (acc m : IdMap V)
      → IsIdMap (acc ++ (k, v) ∷ m)
      → insert_id k v acc ≡ acc ++ (k, v) ∷ []
  insert_id_next k v acc m h = insert_id_new k v acc (lookup_id-middle k v acc m h)
