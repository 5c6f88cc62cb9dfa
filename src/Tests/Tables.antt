-- ===== src/Tests/Tables.antt =====
-- A CHash of wzq_project/src/component/hash.h with tables of two buckets, keys of two bytes and
-- values of one.
use mathlib.Core.Option.{some-injective}
use mathlib.Core.Path.{subst}
use cpp_study.Base.{ℕ, zero, suc, ◌<◌, ◌≡◌, refl, List, [], ◌∷◌, some, none, arith, get_or}
use cpp_study.Base.Int.{ℤ, pos}
use cpp_study.Base.Exec.{Ends, ◌>>=◌}
use cpp_study.Hash.Key.{Bytes}
use cpp_study.Hash.Bucket.{TMap, HasKeys}
use cpp_study.Hash.{CIndex, CHash, build_index, hash_insert, hash_scan, scan_loop}
use cpp_study.Hash.Table.{IsTable}
use cpp_study.Hash.Build.{
  IsHash, IsStored, IsBuilt, slot, hash_insert-IsStored, build_index-IsBuilt,
}
use cpp_study.Hash.Scan.{all_values, IsScanned, scan-values}

abbrev first_byte : Bytes → ℕ → ℤ
first_byte key n = pos (get_or key 0 0)

abbrev buckets : List TMap
buckets = ((4 ∷ 1 ∷ [], 70 ∷ []) ∷ (6 ∷ 0 ∷ [], 71 ∷ []) ∷ []) ∷ ((5 ∷ 1 ∷ [], 72 ∷ []) ∷ []) ∷ []

abbrev table : CIndex
table = record {
  size = 2;
  count = 0;
  key_len = 2;
  val_len = 1;
  hash_func = first_byte;
  vec_map = buckets;
  search_hash_val = 0;
  rest = [];
}

abbrev tables : CHash
tables = record { index_count = 2; hash_size = 2; hash_index = some table ∷ none ∷ [] }

table_keys : (i : ℕ) → i < 2 → HasKeys 2 (get_or buckets i [])
table_keys zero h = (refl, (refl, tt))
table_keys (suc zero) h = (refl, tt)
table_keys (suc (suc i)) h = absurd (omega arith)

table-IsTable : IsTable table
table-IsTable = record {
  sized = omega arith;
  buckets = refl;
  keys = table_keys;
  hashed = λ key long. (get_or key 0 0, refl);
}

table_unique : (i : ℕ) (t : CIndex) → slot tables i ≡ some t → IsTable t
table_unique zero t e = subst (λ x. IsTable x) (some-injective table t e) table-IsTable
table_unique (suc zero) t e = absurd (ground arith)
table_unique (suc (suc i)) t e = absurd (ground arith)

tables-IsHash : IsHash tables
tables-IsHash = record { counted = refl; sized = omega arith; tables = table_unique }

hash_insert-IsStored_example :
    Ends
      (IsStored tables 0 table (6 ∷ 0 ∷ []) (73 ∷ []))
      (hash_insert tables 0 (6 ∷ 0 ∷ []) (73 ∷ []))
hash_insert-IsStored_example =
    hash_insert-IsStored tables 0 table (6 ∷ 0 ∷ []) (73 ∷ []) tables-IsHash refl (omega arith)
      (omega arith)

build_index-IsBuilt_example :
    Ends (IsBuilt tables 4 2 1 first_byte) (build_index tables 4 2 1 first_byte)
build_index-IsBuilt_example =
    build_index-IsBuilt tables 4 2 1 first_byte tables-IsHash refl
      (λ key long. (get_or key 0 0, refl))

scan-values_example :
    Ends
      (λ r. (r.0 ≡ all_values buckets) × IsScanned buckets r.1)
      (hash_scan tables >>= λ (code, h'). scan_loop 9 h')
scan-values_example = scan-values 9 tables table refl refl (omega arith) (omega arith)
