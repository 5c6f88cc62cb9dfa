-- ===== src/Hash/Bucket.antt =====
-- TMap, the ordered map of a bucket: its entries in the order of their keys, one for each key.
use cpp_study.Base.{
  ℕ, ◌≡◌, ◌≢◌, sym, ◌∙◌, List, [], ◌∷◌, Option, none, some, arith, if◌then◌else◌, length,
}
use cpp_study.Hash.Key.{Bytes, less, less_irrefl, less_asymm, less_trans, less_total}

abbrev pub TMap : Type 0
TMap = List (Bytes × Bytes)

-- `find`
unfoldable pub map_find : Bytes → TMap → Option Bytes
map_find k [] = none
map_find k ((j, w) ∷ m) =
    let rest = map_find k m in if less j k then rest else if less k j then none else some w

-- `insert`: an entry with the key stays as it is.
unfoldable pub map_insert : Bytes → Bytes → TMap → TMap
map_insert k v [] = (k, v) ∷ []
map_insert k v ((j, w) ∷ m) =
    let rest = map_insert k v m in
    if less j k then (j, w) ∷ rest else if less k j then (k, v) ∷ (j, w) ∷ m else (j, w) ∷ m

-- Every key of the bucket has `n` bytes.
abbrev pub HasKeys : ℕ → TMap → Type 0
HasKeys n [] = Unit
HasKeys n ((j, w) ∷ m) = (length j ≡ n) × HasKeys n m

-- What an insertion leaves under its own key: the value that was there, or else the new one.
abbrev pub first_value : Option Bytes → Bytes → Bytes
first_value none v = v
first_value (some w) v = w

pub map_find-map_insert_self :
    (k v : Bytes) (m : TMap) → map_find k (map_insert k v m) ≡ some (first_value (map_find k m) v)
unfolding map_find map_insert
map_find-map_insert_self k v [] = ground (arith, less_irrefl k)
map_find-map_insert_self k v ((j, w) ∷ m) =
    ground (arith, less_irrefl k, map_find-map_insert_self k v m)

pub map_find-map_insert_ne :
    (n : ℕ) (k j v : Bytes) (m : TMap)
    → length k ≡ n
    → length j ≡ n
    → HasKeys n m
    → k ≢ j
    → map_find j (map_insert k v m) ≡ map_find j m
unfolding map_find map_insert
map_find-map_insert_ne n k j v [] hk hj keys ne =
    let order = less_total k j (hk ∙ sym hj) ne in ground arith
map_find-map_insert_ne n k j v ((i, w) ∷ m) hk hj keys ne =
    let order = less_total k j (hk ∙ sym hj) ne in
    ground (
      arith,
      map_find-map_insert_ne n k j v m hk hj keys.1 ne,
      less_trans j k i (hj ∙ sym hk),
      less_asymm j i,
      less_asymm k j,
    )

pub HasKeys-map_insert :
    (n : ℕ) (k v : Bytes) (m : TMap) → length k ≡ n → HasKeys n m → HasKeys n (map_insert k v m)
unfolding map_insert
HasKeys-map_insert n k v [] e h = (e, tt)
HasKeys-map_insert n k v ((j, w) ∷ m) e h = ground (arith, HasKeys-map_insert n k v m)
