-- ===== src/Ini/Reads.antt =====
-- What the readers give.
use cpp_study.Base.{◌≡◌, refl, [], ◌∷◌, true, Option, none, arith, Option-cases, inl, inr}
use cpp_study.Base.Exec.{Ends, ends}
use cpp_study.Shm.{rs_success}
use cpp_study.Ini.{
  Text, SectionName, MapSection, map_find, map_put, map_index, or_empty, ReadIni, read_string,
}

-- An empty entry for a name that has none changes no value.
map_find-map_put-none :
    (k j : SectionName) (m : MapSection)
    → map_find k m ≡ none
    → or_empty (map_find j (map_put k [] m)) ≡ or_empty (map_find j m)
unfolding map_find map_put
map_find-map_put-none k j [] h = ground arith
map_find-map_put-none k j ((i, w) ∷ m) h = let rec = map_find-map_put-none k j m in ground arith

map_index_lem :
    (k j : SectionName) (m : MapSection)
    → ((map_index k m).0 ≡ or_empty (map_find k m))
      × (or_empty (map_find j (map_index k m).1) ≡ or_empty (map_find j m))
unfolding map_index
map_index_lem k j m = elim (Option-cases (map_find k m)) [
  | inl e ↦ rw (map_index, e) (refl, map_find-map_put-none k j m e)
  | inr (v, e) ↦ rw (map_index, e) (refl, refl)
]

-- With the file read, readString succeeds and gives the stored value, or the empty text where there
-- is none; and whatever name is read, the values that later reads give are the same as before.
pub read_string_keeps :
    (r : ReadIni) (file : Option Text) (k j : SectionName)
    → r.init_flag ≡ true
    → Ends
        (λ (code, v, s).
          (code ≡ rs_success)
          × (v ≡ or_empty (map_find k r.map_data))
          × (s.init_flag ≡ true)
          × (or_empty (map_find j s.map_data) ≡ or_empty (map_find j r.map_data)))
        (read_string r file k)
unfolding read_string
read_string_keeps r file k j ready =
    let (v, w) = map_index_lem k j r.map_data in rw ready (ends (refl, v, refl, w))
