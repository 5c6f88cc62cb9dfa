-- ===== src/Hash.antt =====
-- wzq_project/src/component/hash.h: the class CHash, an array of hash tables (CIndex) whose buckets
-- are ordered maps, with the key type TVecChar and its order. Memory for `new` and `malloc` is
-- always there, so that HASH_MEMEORY_ALLOC_FAILED does not occur. Indices of tables are not
-- negative.
pub mod Key
pub mod Bucket
pub mod Table
pub mod Scan
pub mod Func
pub mod Build
use cpp_study.Base.{
  ℕ, zero, suc, ◌+◌, ◌-◌, ◌/◌, ◌%◌, List, [], ◌∷◌, ◌++◌, Option, none, some, Bool, ltb, leb, ◌==◌,
  if◌then◌else◌, length, take, set, replicate,
}
use cpp_study.Base.Int.{ℤ, pos, negsuc}
use cpp_study.Base.Exec.{Exec, done, fault, timeout, ◌>>=◌}
use cpp_study.Base.Array.{load, store}
use cpp_study.Hash.Key.{Bytes, to_key}
use cpp_study.Hash.Bucket.{TMap, map_find, map_insert}

pub data HashResCode : Type 0 where
  hash_success hash_memory_alloc_failed hash_index_has_existed hash_index_not_exist : HashResCode

-- `m_begin_iter` and `m_end_iter` are the entries between them, as they stand when the bucket is
-- entered.
pub record CIndex : Type 0 where
  pub size : ℕ
  pub count : ℕ
  pub key_len : ℕ
  pub val_len : ℕ
  pub hash_func : Bytes → ℕ → ℤ
  pub vec_map : List TMap
  pub search_hash_val : ℕ
  pub rest : TMap

-- The constructor. It stores through `operator[]` behind the end of a vector that has only reserved
-- its memory; the buckets are taken to be there.
pub new_index : ℕ → ℕ → ℕ → (Bytes → ℕ → ℤ) → CIndex
new_index size key_len val_len hash_func = record {
  size = size;
  count = 0;
  key_len = key_len;
  val_len = val_len;
  hash_func = hash_func;
  vec_map = replicate size [];
  search_hash_val = 0;
  rest = [];
}

-- `hashCode % m_Size` as an index: the remainder of a negative code is negative or 0.
pub bucket_of : ℤ → ℕ → Exec ℕ
bucket_of (pos n) zero = fault
bucket_of (pos n) (suc s) = done (n % suc s)
bucket_of (negsuc n) zero = fault
bucket_of (negsuc n) (suc s) = if suc n % suc s == 0 then done 0 else fault

-- The value found, if any: the code returns -1 and a NULL pointer without one.
unfoldable pub index_find : CIndex → Bytes → Exec (Option Bytes)
index_find t key = do
  i ← bucket_of (t.hash_func key t.key_len) t.size
  k ← to_key t.key_len key
  m ← load t.vec_map i
  done (map_find k m)

-- The code runs off the end of this method without a `return`, so that it has no result.
unfoldable pub index_insert : CIndex → Bytes → Bytes → Exec CIndex
index_insert t key val = do
  i ← bucket_of (t.hash_func key t.key_len) t.size
  k ← to_key t.key_len key
  v ← to_key t.val_len val
  m ← load t.vec_map i
  maps ← store t.vec_map i (map_insert k v m)
  done (record t { vec_map = maps })

unfoldable pub index_scan : CIndex → Exec CIndex
index_scan t = do m ← load t.vec_map 0; done (record t { search_hash_val = 0; rest = m })

-- The loop of Next; `none` stands for a value that is not set, at the end of the scan.
pub index_next_loop : ℕ → CIndex → Exec (Option Bytes × CIndex)
index_next_loop zero t = timeout
index_next_loop (suc fuel) t =
    let i = t.search_hash_val + 1 in
    let go_on : Exec (Option Bytes × CIndex) =
      load t.vec_map i >>= λ m. index_next_loop fuel (record t { search_hash_val = i; rest = m }) in
    elim t.rest [
      | [] ↦ if i == t.size then done (none, record t { search_hash_val = i }) else go_on
      | (k, v) ∷ r ↦ done (some v, record t { rest = r })
    ]

unfoldable pub index_next : CIndex → Exec (Option Bytes × CIndex)
index_next t = index_next_loop (t.size + 2) t

pub record CHash : Type 0 where
  pub index_count : ℕ
  pub hash_size : ℕ
  pub hash_index : List (Option CIndex)

pub new_hash : ℕ → CHash
new_hash size = record { index_count = 0; hash_size = size / 1000 + 1; hash_index = [] }

-- The array of tables, long enough for the index.
pub grow : CHash → ℕ → CHash
grow h i =
    if leb h.index_count i
    then record h {
      index_count = i + 1;
      hash_index = h.hash_index ++ replicate (i + 1 - h.index_count) none;
    }
    else h

unfoldable pub build_index : CHash → ℕ → ℕ → ℕ → (Bytes → ℕ → ℤ) → Exec (HashResCode × CHash)
build_index h i key_len val_len hash_func =
    let g = grow h i in
    let table = new_index h.hash_size key_len val_len hash_func in
    do
      old ← load g.hash_index i
      elim old [
        | some t ↦ done (hash_index_has_existed, g)
        | none ↦ do
          tables ← store g.hash_index i (some table)
          done (hash_success, record g { hash_index = tables })
      ]

-- The table at an index, or none where it is out of range or not built.
pub table_at : CHash → ℕ → Exec (Option CIndex)
table_at h i = if leb h.index_count i then done none else load h.hash_index i

-- `none` for the code is the unspecified result of CIndex::Insert.
unfoldable pub hash_insert : CHash → ℕ → Bytes → Bytes → Exec (Option HashResCode × CHash)
hash_insert h i key val = do
  found ← table_at h i
  elim found [
    | none ↦ done (some hash_index_not_exist, h)
    | some t ↦ do
      t' ← index_insert t key val
      tables ← store h.hash_index i (some t')
      done (none, record h { hash_index = tables })
  ]

-- What Find returns: an error for an index without a table, or what the table finds.
pub data Found : Type 0 where
  no_table : Found
  answer : Option Bytes → Found

unfoldable pub hash_find : CHash → ℕ → Bytes → Exec Found
hash_find h i key = do
  found ← table_at h i
  elim found [ none ↦ done no_table | some t ↦ do v ← index_find t key; done (answer v) ]

-- Scan and Next work on the table at index 0 alone, and read the array of tables unchecked.
unfoldable pub hash_scan : CHash → Exec (HashResCode × CHash)
hash_scan h = do
  found ← load h.hash_index 0
  elim found [
    | none ↦ done (hash_index_not_exist, h)
    | some t ↦ do
      t' ← index_scan t
      tables ← store h.hash_index 0 (some t')
      done (hash_success, record h { hash_index = tables })
  ]

unfoldable pub hash_next : CHash → Exec (HashResCode × Option Bytes × CHash)
hash_next h = do
  found ← load h.hash_index 0
  elim found [
    | none ↦ done (hash_index_not_exist, none, h)
    | some t ↦ do
      (v, t') ← index_next t
      tables ← store h.hash_index 0 (some t')
      done (hash_success, v, record h { hash_index = tables })
  ]

-- The loop of test_hash in hash.cpp: Next until it sets no value.
unfoldable pub scan_loop : ℕ → CHash → Exec (List Bytes × CHash)
scan_loop zero h = timeout
scan_loop (suc fuel) h = do
  (code, v, h') ← hash_next h
  elim v [ none ↦ done ([], h') | some b ↦ scan_loop fuel h' >>= λ (bs, h''). done (b ∷ bs, h'') ]
