-- ===== src/Hash/Build.antt =====
-- BuildIndex, Insert and Find of a CHash.
use cpp_study.Base.{
  ℕ, zero, suc, ◌+◌, ◌-◌, ◌≤◌, ◌<◌, ◌≡◌, ◌≢◌, refl, ap, sym, ◌∙◌, List, [], ◌∷◌, ◌++◌, Option, none,
  some, false, arith, leb, ◌==◌, if◌then◌else◌, length, length-append, length-replicate, take, set,
  length-set, get_or, replicate, Bool-cases, inl, inr,
}
use cpp_study.Base.Int.{ℤ, pos}
use cpp_study.Base.Exec.{Exec, done, Ends, ends, Ends-value, ◌>>=◌}
use cpp_study.Base.Array.{load-done, store-done, get_or-set}
use cpp_study.Hash.Key.{Bytes}
use cpp_study.Hash.Bucket.{first_value}
use cpp_study.Hash.{
  CIndex, CHash, HashResCode, hash_success, hash_index_has_existed, hash_index_not_exist, new_index,
  grow, build_index, table_at, hash_insert, hash_find, no_table, answer, index_find,
}
use cpp_study.Hash.Table.{IsTable, index_insert-IsInserted}

-- The table at an index, if it is built.
abbrev pub slot : CHash → ℕ → Option CIndex
slot h i = get_or h.hash_index i none

pub record IsHash (h : CHash) : Type 0 where
  pub counted : length h.hash_index ≡ h.index_count
  pub sized : 0 < h.hash_size
  pub tables : (i : ℕ) (t : CIndex) → slot h i ≡ some t → IsTable t

get_or_beyond {ℓ} : {A : Type ℓ} (a : List A) (i : ℕ) (d : A) → length a ≤ i → get_or a i d ≡ d
get_or_beyond [] i d h = refl
get_or_beyond (x ∷ a) zero d h = absurd (omega arith)
get_or_beyond (x ∷ a) (suc i) d h = get_or_beyond a i d (omega arith)

get_or-replicate {ℓ} : {A : Type ℓ} (n i : ℕ) (d : A) → get_or (replicate n d) i d ≡ d
get_or-replicate zero i d = refl
get_or-replicate (suc n) zero d = refl
get_or-replicate (suc n) (suc i) d = get_or-replicate n i d

get_or_padded {ℓ} :
    {A : Type ℓ} (a : List A) (n i : ℕ) (d : A) → get_or (a ++ replicate n d) i d ≡ get_or a i d
get_or_padded [] n i d = get_or-replicate n i d
get_or_padded (x ∷ a) n zero d = refl
get_or_padded (x ∷ a) n (suc i) d = get_or_padded a n i d

table_at-slot : (h : CHash) (i : ℕ) → IsHash h → table_at h i ≡ done (slot h i)
unfolding table_at
table_at-slot h i v = elim (Bool-cases (leb h.index_count i)) [
  | inl t ↦
      let beyond : length h.hash_index ≤ i = ground (arith, v.counted) in
      rw (t, get_or_beyond h.hash_index i none beyond)
  | inr t ↦
      let inside : i < length h.hash_index = ground (arith, v.counted) in
      rw t (load-done h.hash_index i none inside)
]

slot-inside : (h : CHash) (i : ℕ) (t : CIndex) → slot h i ≡ some t → i < length h.hash_index
slot-inside h i t e = elim (Bool-cases (leb (length h.hash_index) i)) [
  | inl b ↦ absurd (cc (e, get_or_beyond h.hash_index i none (ground arith)))
  | inr b ↦ ground arith
]

-- Insert and Find at an index without a table return HASH_INDEX_NOT_EXIST, and Insert changes
-- nothing.
pub hash_missing :
    (h : CHash) (i : ℕ) (key val : Bytes)
    → IsHash h
    → slot h i ≡ none
    → (hash_insert h i key val ≡ done (some hash_index_not_exist, h))
      × (hash_find h i key ≡ done no_table)
unfolding hash_insert hash_find
hash_missing h i key val v e = (rw (table_at-slot h i v, e), rw (table_at-slot h i v, e))

-- What Insert at index `i` does to the answers of Find at every index.
pub record IsStored (h : CHash) (i : ℕ) (t : CIndex) (key val : Bytes)
    (r : Option HashResCode × CHash) : Type 0 where
  pub valid : IsHash r.1
  pub self :
      (old : Option Bytes)
      → hash_find h i key ≡ done (answer old)
      → hash_find r.1 i key ≡ done (answer (some (first_value old (take t.val_len val))))
  pub others :
      (other : Bytes)
      → t.key_len ≤ length other
      → take t.key_len key ≢ take t.key_len other
      → hash_find r.1 i other ≡ hash_find h i other
  pub elsewhere : (j : ℕ) (other : Bytes) → i ≢ j → hash_find r.1 j other ≡ hash_find h j other

-- Find at an index with a table is the table's.
hash_find-table :
    (h : CHash) (i : ℕ) (t : CIndex) (key : Bytes)
    → IsHash h
    → slot h i ≡ some t
    → hash_find h i key ≡ (index_find t key >>= λ v. done (answer v))
unfolding hash_find
hash_find-table h i t key v e = rw (table_at-slot h i v, e)

hash_find-slot :
    (h g : CHash) (i : ℕ) (key : Bytes)
    → IsHash h
    → IsHash g
    → slot h i ≡ slot g i
    → hash_find h i key ≡ hash_find g i key
unfolding hash_find
hash_find-slot h g i key v w e = rw (table_at-slot h i v, table_at-slot g i w, e)

answer-injective :
    (m : Exec (Option Bytes)) (v : Option Bytes)
    → (m >>= λ x. done (answer x)) ≡ done (answer v)
    → m ≡ done v
answer-injective m v e = ground arith

-- A CHash with one table replaced by a valid one.
module _ (h : CHash) (i : ℕ) (v : IsHash h) (inside : i < length h.hash_index) (t' : CIndex)
    (w : IsTable t') where
  abbrev replaced : CHash
  replaced = record h { hash_index = set h.hash_index i (some t') }

  slot-replaced : (j : ℕ) → slot replaced j ≡ (if i == j then some t' else slot h j)
  slot-replaced j = get_or-set h.hash_index i j (some t') none inside

  replaced-IsHash : IsHash replaced
  replaced-IsHash = record {
    counted = length-set h.hash_index i (some t') ∙ v.counted;
    sized = v.sized;
    tables = λ j t e. elim (Bool-cases (i == j)) [
      | inl b ↦ let same : t' ≡ t = ground (arith, slot-replaced j) in rw same at w
      | inr b ↦ v.tables j t (ground (arith, slot-replaced j))
    ];
  }

-- Insert of a key and a value at an index with a table ends; at that index Find then finds, under
-- the key, the value that it found before or else the new one, and under a key with other bytes
-- what it found before. What Find finds at another index stays. The buffers have the bytes that the
-- table copies.
pub hash_insert-IsStored :
    (h : CHash) (i : ℕ) (t : CIndex) (key val : Bytes)
    → IsHash h
    → slot h i ≡ some t
    → t.key_len ≤ length key
    → t.val_len ≤ length val
    → Ends (IsStored h i t key val) (hash_insert h i key val)
unfolding hash_insert
hash_insert-IsStored h i t key val v e long wide =
    let inside = slot-inside h i t e in
    let (t', ran, s) = Ends-value (index_insert-IsInserted t key val (v.tables i t e) long wide) in
    let g = replaced h i v inside t' s.valid in
    let w = replaced-IsHash h i v inside t' s.valid in
    let here : slot g i ≡ some t' = ground (arith, slot-replaced h i v inside t' s.valid i) in
    rw (table_at-slot h i v, e, ran, store-done h.hash_index i (some t') inside)
      (ends (record {
        valid = w;
        self = λ old found.
            let was =
              answer-injective (index_find t key) old
                (sym (hash_find-table h i t key v e) ∙ found) in
            hash_find-table g i t' key w here ∙ rw (s.self old was);
        others = λ other long' n.
            hash_find-table g i t' other w here
            ∙ ap (λ m. m >>= λ x. done (answer x)) (s.others other long' n)
            ∙ sym (hash_find-table h i t other v e);
        elsewhere = λ j other n.
            hash_find-slot g h j other w v
              (ground (arith, slot-replaced h i v inside t' s.valid j));
      }))

slot-grow : (h : CHash) (i j : ℕ) → slot (grow h i) j ≡ slot h j
unfolding grow
slot-grow h i j = elim (Bool-cases (leb h.index_count i)) [
  | inl e ↦ rw e (get_or_padded h.hash_index (i + 1 - h.index_count) j none)
  | inr e ↦ rw e
]

grow-IsHash :
    (h : CHash) (i : ℕ) → IsHash h → IsHash (grow h i) × (i < length (grow h i).hash_index)
unfolding grow
grow-IsHash h i v = elim (Bool-cases (leb h.index_count i)) [
  | inl e ↦
      let extra = replicate (i + 1 - h.index_count) none in
      let long : length (h.hash_index ++ extra) ≡ i + 1 = ground (
        arith,
        length-append h.hash_index extra,
        length-replicate {A = Option CIndex} (i + 1 - h.index_count) none,
        v.counted,
      ) in
      rw e (
        record {
          counted = long;
          sized = v.sized;
          tables = λ j t f.
              v.tables j t (sym (get_or_padded h.hash_index (i + 1 - h.index_count) j none) ∙ f);
        },
        omega arith,
      )
  | inr e ↦ rw e (v, ground (arith, v.counted))
]

-- A fresh table has its buckets, all of them empty.
new_index-IsTable :
    (size key_len val_len : ℕ) (hash_func : Bytes → ℕ → ℤ)
    → 0 < size
    → ((key : Bytes) → key_len ≤ length key → (n : ℕ) × (hash_func key key_len ≡ pos n))
    → IsTable (new_index size key_len val_len hash_func)
unfolding new_index
new_index-IsTable size key_len val_len hash_func sized hashed = record {
  sized = sized;
  buckets = length-replicate size [];
  keys = λ i h. rw (get_or-replicate {A = List (Bytes × Bytes)} size i []) tt;
  hashed = hashed;
}

-- What BuildIndex leaves at an index that had no table.
pub record IsBuilt (h : CHash) (i key_len val_len : ℕ) (hash_func : Bytes → ℕ → ℤ)
    (r : HashResCode × CHash) : Type 0 where
  pub code : r.0 ≡ hash_success
  pub valid : IsHash r.1
  pub built : slot r.1 i ≡ some (new_index h.hash_size key_len val_len hash_func)
  pub elsewhere : (j : ℕ) (other : Bytes) → i ≢ j → hash_find r.1 j other ≡ hash_find h j other

-- BuildIndex at an index without a table, in range or not, with a hash function that returns no
-- negative code: it succeeds, the index has a new table, and what Find finds elsewhere stays.
pub build_index-IsBuilt :
    (h : CHash) (i key_len val_len : ℕ) (hash_func : Bytes → ℕ → ℤ)
    → IsHash h
    → slot h i ≡ none
    → ((key : Bytes) → key_len ≤ length key → (n : ℕ) × (hash_func key key_len ≡ pos n))
    → Ends (IsBuilt h i key_len val_len hash_func) (build_index h i key_len val_len hash_func)
unfolding build_index
build_index-IsBuilt h i key_len val_len hash_func v e hashed =
    let g = grow h i in
    let (w, inside) = grow-IsHash h i v in
    let t = new_index h.hash_size key_len val_len hash_func in
    let fresh = new_index-IsTable h.hash_size key_len val_len hash_func v.sized hashed in
    let r = replaced-IsHash g i w inside t fresh in
    let at = slot-replaced g i w inside t fresh in
    rw
      (
        load-done g.hash_index i none inside,
        slot-grow h i i ∙ e,
        store-done g.hash_index i (some t) inside,
      )
      (ends (record {
        code = refl;
        valid = r;
        built = ground (arith, at i);
        elsewhere = λ j other n.
            hash_find-slot (replaced g i w inside t fresh) h j other r v
              (ground (arith, at j, slot-grow h i j));
      }))

grow_kept : (h : CHash) (i : ℕ) → leb h.index_count i ≡ false → grow h i ≡ h
unfolding grow
grow_kept h i e = rw e

-- BuildIndex at an index with a table reports HASH_INDEX_HAS_EXISTED and changes nothing.
pub build_index_again :
    (h : CHash) (i key_len val_len : ℕ) (hash_func : Bytes → ℕ → ℤ) (t : CIndex)
    → IsHash h
    → slot h i ≡ some t
    → build_index h i key_len val_len hash_func ≡ done (hash_index_has_existed, h)
unfolding build_index
build_index_again h i key_len val_len hash_func t v e =
    let inside = slot-inside h i t e in
    let short : leb h.index_count i ≡ false = ground (arith, v.counted) in
    rw (grow_kept h i short, load-done h.hash_index i none inside, e)
      (ap (λ g. done (hash_index_has_existed, g)) (grow_kept h i short))
