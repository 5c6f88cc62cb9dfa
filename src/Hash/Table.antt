-- ===== src/Hash/Table.antt =====
-- Insert and Find of one table (CIndex), and of the tables of a CHash.
use cpp_study.Base.{
  ℕ, zero, suc, ◌%◌, ◌≤◌, ◌<◌, ◌≡◌, ◌≢◌, refl, ap, sym, ◌∙◌, [], Option, some, arith, ◌==◌,
  if◌then◌else◌, length, take, length-take, set, length-set, get_or, Bool-cases, inl, inr,
}
use cpp_study.Base.Int.{pos}
use cpp_study.Base.Exec.{done, Ends, ends}
use cpp_study.Base.Array.{load-done, store-done, get_or-set}
use cpp_study.Hash.Key.{Bytes, to_key-done}
use cpp_study.Hash.Bucket.{
  TMap, map_find, map_insert, HasKeys, HasKeys-map_insert, first_value, map_find-map_insert_self,
  map_find-map_insert_ne,
}
use cpp_study.Hash.{CIndex, bucket_of, index_find, index_insert}

abbrev pub bucket : CIndex → ℕ → TMap
bucket t i = get_or t.vec_map i []

-- A table as it is built and kept: its buckets are there, their keys have the table's length, and
-- its hash function, given a key of that length, returns no negative code.
pub record IsTable (t : CIndex) : Type 0 where
  pub sized : 0 < t.size
  pub buckets : length t.vec_map ≡ t.size
  pub keys : (i : ℕ) → i < t.size → HasKeys t.key_len (bucket t i)
  pub hashed :
      (key : Bytes) → t.key_len ≤ length key → (n : ℕ) × (t.hash_func key t.key_len ≡ pos n)

bucket_of-pos : (n size : ℕ) → 0 < size → bucket_of (pos n) size ≡ done (n % size)
unfolding bucket_of
bucket_of-pos n zero h = absurd (omega arith)
bucket_of-pos n (suc size) h = refl

-- The bucket that a key is looked up in.
record IsPlace (t : CIndex) (key : Bytes) (i : ℕ) : Type 0 where
  inside : i < t.size
  reached : bucket_of (t.hash_func key t.key_len) t.size ≡ done i

place : (t : CIndex) (key : Bytes) → IsTable t → t.key_len ≤ length key → (i : ℕ) × IsPlace t key i
place t key v h =
    let (n, e) = v.hashed key h in
    let sized = v.sized in
    (n % t.size, record { inside = omega arith; reached = rw e (bucket_of-pos n t.size sized) })

module _ (t : CIndex) (v : IsTable t) (key : Bytes) (long : t.key_len ≤ length key) (i : ℕ)
    (p : IsPlace t key i) where
  index_find-done : index_find t key ≡ done (map_find (take t.key_len key) (bucket t i))
  unfolding index_find
  index_find-done = rw (
    p.reached,
    to_key-done t.key_len key long,
    load-done t.vec_map i [] (omega (arith, v.buckets, p.inside)),
  )

  module _ (val : Bytes) (wide : t.val_len ≤ length val) where
    abbrev inserted : CIndex
    inserted = record t {
      vec_map = set t.vec_map i (map_insert (take t.key_len key) (take t.val_len val) (bucket t i));
    }

    index_insert-done : index_insert t key val ≡ done inserted
    unfolding index_insert
    index_insert-done = rw (
      p.reached,
      to_key-done t.key_len key long,
      to_key-done t.val_len val wide,
      load-done t.vec_map i [] (omega (arith, v.buckets, p.inside)),
      store-done t.vec_map i (map_insert (take t.key_len key) (take t.val_len val) (bucket t i))
          (omega (arith, v.buckets, p.inside)),
    )

    bucket-inserted :
        (j : ℕ)
        → bucket inserted j ≡ (
            if i == j
            then map_insert (take t.key_len key) (take t.val_len val) (bucket t i)
            else bucket t j)
    bucket-inserted j =
        get_or-set t.vec_map i j (map_insert (take t.key_len key) (take t.val_len val) (bucket t i))
          [] (omega (arith, v.buckets, p.inside))

    inserted-IsTable : IsTable inserted
    inserted-IsTable = record {
      sized = v.sized;
      buckets =
          length-set t.vec_map i (map_insert (take t.key_len key) (take t.val_len val) (bucket t i))
          ∙ v.buckets;
      keys = λ j h. elim (Bool-cases (i == j)) [
        | inl e ↦
            rw (bucket-inserted j, e)
              (HasKeys-map_insert t.key_len (take t.key_len key) (take t.val_len val) (bucket t i)
                (omega (arith, length-take t.key_len key)) (v.keys i p.inside))
        | inr e ↦ rw (bucket-inserted j, e) (v.keys j h)
      ];
      hashed = v.hashed;
    }

-- What Insert of a key and a value does to the answers of Find.
pub record IsInserted (t : CIndex) (key val : Bytes) (t' : CIndex) : Type 0 where
  pub valid : IsTable t'
  pub same_len : t'.key_len ≡ t.key_len
  pub self :
      (old : Option Bytes)
      → index_find t key ≡ done old
      → index_find t' key ≡ done (some (first_value old (take t.val_len val)))
  pub others :
      (other : Bytes)
      → t.key_len ≤ length other
      → take t.key_len key ≢ take t.key_len other
      → index_find t' other ≡ index_find t other

done-injective {ℓ} : {A : Type ℓ} {x y : A} → done x ≡ done y → x ≡ y
done-injective e = cc

module _ (t : CIndex) (v : IsTable t) (key : Bytes) (long : t.key_len ≤ length key) (i : ℕ)
    (p : IsPlace t key i) (val : Bytes) (wide : t.val_len ≤ length val) where
  abbrev after : CIndex
  after = inserted t v key long i p val wide

  place-after : (other : Bytes) (j : ℕ) → IsPlace t other j → IsPlace after other j
  place-after other j q = record { inside = q.inside; reached = q.reached }

  found_self :
      (old : Option Bytes)
      → index_find t key ≡ done old
      → index_find after key ≡ done (some (first_value old (take t.val_len val)))
  found_self old e =
      let k = take t.key_len key in
      let was : map_find k (bucket t i) ≡ old =
        done-injective (sym (index_find-done t v key long i p) ∙ e) in
      let here : bucket after i ≡ map_insert k (take t.val_len val) (bucket t i) =
        ground (arith, bucket-inserted t v key long i p val wide i) in
      index_find-done after (inserted-IsTable t v key long i p val wide) key long i
        (place-after key i p)
      ∙ rw (here, map_find-map_insert_self k (take t.val_len val) (bucket t i), was)

  found_other :
      (other : Bytes)
      → t.key_len ≤ length other
      → take t.key_len key ≢ take t.key_len other
      → index_find after other ≡ index_find t other
  found_other other long' n =
      let (j, q) = place t other v long' in
      let k = take t.key_len key in
      let k' = take t.key_len other in
      let new = take t.val_len val in
      let same : map_find k' (bucket after j) ≡ map_find k' (bucket t j) =
        elim (Bool-cases (i == j)) [
          | inl e ↦
              let i_j : i ≡ j = ground arith in
              let ne =
                map_find-map_insert_ne t.key_len k k' new (bucket t i)
                  (omega (arith, length-take t.key_len key))
                  (omega (arith, length-take t.key_len other)) (v.keys i p.inside) n in
              rw (bucket-inserted t v key long i p val wide j, e)
                (ne ∙ ap (λ x. map_find k' (bucket t x)) i_j)
          | inr e ↦ rw (bucket-inserted t v key long i p val wide j, e)
        ] in
      index_find-done after (inserted-IsTable t v key long i p val wide) other long' j
        (place-after other j q)
      ∙ ap done same
      ∙ sym (index_find-done t v other long' j q)

-- Insert on a table ends, and the table then finds, under the key, the value that it found before
-- or else the new one, and under a key with other bytes what it found before.
pub index_insert-IsInserted :
    (t : CIndex) (key val : Bytes)
    → IsTable t
    → t.key_len ≤ length key
    → t.val_len ≤ length val
    → Ends (IsInserted t key val) (index_insert t key val)
index_insert-IsInserted t key val v long wide =
    let (i, p) = place t key v long in
    rw (index_insert-done t v key long i p val wide) (
      ends (record {
        valid = inserted-IsTable t v key long i p val wide;
        same_len = refl;
        self = found_self t v key long i p val wide;
        others = found_other t v key long i p val wide;
      }))
