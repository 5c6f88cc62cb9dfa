-- ===== src/Hash/Scan.antt =====
-- Scan and Next: one walk over the buckets.
use cpp_study.Base.{
  ℕ, zero, suc, ◌+◌, ◌≤◌, ◌<◌, ◌≡◌, refl, ap, sym, ◌∙◌, List, [], ◌∷◌, ◌++◌, Option, none, some,
  false, arith, ◌==◌, length, drop, set, get_or, get_elem?, Bool-cases, inl, inr,
}
use cpp_study.Base.Exec.{done, fault, Ends, ends, Ends-bind, Ends-weaken, Ends-value, ◌>>=◌}
use cpp_study.Base.Array.{load, store, load-done, store-done}
use cpp_study.Hash.Key.{Bytes}
use cpp_study.Hash.Bucket.{TMap}
use cpp_study.Hash.{
  CIndex, CHash, hash_success, index_scan, index_next_loop, index_next, hash_scan, hash_next,
  scan_loop,
}

abbrev pub values : TMap → List Bytes
values [] = []
values ((k, v) ∷ m) = v ∷ values m

-- Every value of the buckets, in their order.
abbrev pub all_values : List TMap → List Bytes
all_values [] = []
all_values (m ∷ ms) = values m ++ all_values ms

-- What a scan has still to give.
abbrev remaining : CIndex → List Bytes
remaining t = values t.rest ++ all_values (drop (t.search_hash_val + 1) t.vec_map)

record IsScanning (t : CIndex) : Type 0 where
  buckets : length t.vec_map ≡ t.size
  inside : t.search_hash_val < t.size

-- The first value left, and a scan of the others; at the end no value, and the scan behind the
-- last bucket.
abbrev Step : List Bytes → Option Bytes × CIndex → Type 0
Step [] r = (r.0 ≡ none) × (r.1.search_hash_val ≡ r.1.size) × (r.1.rest ≡ [])
Step (v ∷ vs) r = (r.0 ≡ some v) × (r.1.search_hash_val < r.1.size) × (remaining r.1 ≡ vs)

-- What Next gives, for what is left, and that it leaves the buckets alone.
record IsNext (t : CIndex) (left : List Bytes) (r : Option Bytes × CIndex) : Type 0 where
  same : r.1.vec_map ≡ t.vec_map
  same_size : r.1.size ≡ t.size
  step : Step left r

drop-get {ℓ} :
    {A : Type ℓ} (a : List A) (i : ℕ) (d : A)
    → i < length a
    → drop i a ≡ get_or a i d ∷ drop (i + 1) a
drop-get [] i d h = absurd (omega arith)
drop-get (x ∷ a) zero d h = refl
drop-get (x ∷ a) (suc i) d h =
    let e : suc i + 1 ≡ suc (i + 1) = omega arith in rw e (drop-get a i d (omega arith))

drop_all {ℓ} : {A : Type ℓ} (a : List A) (i : ℕ) → length a ≤ i → drop i a ≡ []
drop_all [] zero h = refl
drop_all [] (suc i) h = refl
drop_all (x ∷ a) zero h = absurd (omega arith)
drop_all (x ∷ a) (suc i) h = drop_all a i (omega arith)

load_beyond {ℓ} : {A : Type ℓ} (a : List A) (i : ℕ) → length a ≤ i → load a i ≡ fault
unfolding load
load_beyond [] i h = refl
load_beyond (x ∷ a) zero h = absurd (omega arith)
load_beyond (x ∷ a) (suc i) h = load_beyond a i (omega arith)

index_next_loop-step :
    (fuel : ℕ) (t : CIndex) (r : TMap)
    → t.rest ≡ r
    → IsScanning t
    → ((t' : CIndex)
        → t'.search_hash_val ≡ t.search_hash_val + 1
        → t'.size ≡ t.size
        → IsScanning t'
        → Ends (IsNext t' (remaining t')) (index_next_loop fuel t'))
    → Ends (IsNext t (remaining t)) (index_next_loop (suc fuel) t)
unfolding index_next_loop
index_next_loop-step fuel t ((k, v) ∷ r) e s next =
    rw (e, index_next_loop)
      (ends (record { same = refl; same_size = refl; step = (refl, s.inside, refl) }))
index_next_loop-step fuel t [] e s next =
    let i = t.search_hash_val + 1 in
    elim (Bool-cases (i == t.size)) [
      | inl last ↦
          let none_left = drop_all t.vec_map i (ground (arith, s.buckets)) in
          rw (e, last, none_left)
            (ends (record { same = refl; same_size = refl; step = (refl, ground arith, refl) }))
      | inr more ↦
          let inside : i < t.size = ground (arith, s.inside) in
          let m = get_or t.vec_map i [] in
          let t' : CIndex = record t { search_hash_val = i; rest = m } in
          let split = drop-get t.vec_map i [] (omega (arith, s.buckets)) in
          rw (e, more, load-done t.vec_map i [] (omega (arith, s.buckets)), split)
            (Ends-weaken (λ r n. record { same = n.same; same_size = n.same_size; step = n.step })
              (next t' refl refl (record { buckets = s.buckets; inside = inside })))
    ]

index_next_loop-Ends :
    (fuel : ℕ) (t : CIndex)
    → t.size < t.search_hash_val + fuel
    → IsScanning t
    → Ends (IsNext t (remaining t)) (index_next_loop fuel t)
index_next_loop-Ends zero t enough s = absurd (omega (arith, s.inside))
index_next_loop-Ends (suc fuel) t enough s =
    index_next_loop-step fuel t t.rest refl s
      λ t' e e' s'. index_next_loop-Ends fuel t' (omega arith) s'

-- At the end of a scan, a further Next reads behind the last bucket.
loop_past :
    (fuel : ℕ) (t : CIndex)
    → length t.vec_map ≡ t.size
    → t.search_hash_val ≡ t.size
    → t.rest ≡ []
    → index_next_loop (suc fuel) t ≡ fault
unfolding index_next_loop
loop_past fuel t buckets e r =
    let more : (t.search_hash_val + 1 == t.size) ≡ false = ground arith in
    rw (r, index_next_loop) (rw (more, load_beyond t.vec_map (t.search_hash_val + 1) (omega arith)))

next_past :
    (t : CIndex)
    → length t.vec_map ≡ t.size
    → t.search_hash_val ≡ t.size
    → t.rest ≡ []
    → index_next t ≡ fault
unfolding index_next
next_past t buckets e r =
    let fuel : t.size + 2 ≡ suc (t.size + 1) = omega arith in
    rw fuel (loop_past (t.size + 1) t buckets e r)

-- The CHash with the table at index 0 given anew.
abbrev with_first : CHash → CIndex → CHash
with_first h t = record h { hash_index = set h.hash_index 0 (some t) }

-- Scan and Next of a CHash are those of the table at index 0.
module _ (h : CHash) (t : CIndex) (first : get_elem? h.hash_index 0 ≡ some (some t)) where
  loaded : load h.hash_index 0 ≡ done (some t)
  unfolding load
  loaded = rw first

  stored : (x : Option CIndex) → store h.hash_index 0 x ≡ done (set h.hash_index 0 x)
  stored x = store-done h.hash_index 0 x (inside h.hash_index first)
    where
      inside : (a : List (Option CIndex)) → get_elem? a 0 ≡ some (some t) → 0 < length a
      inside [] e = absurd (cc e)
      inside (x ∷ a) e = omega arith

  hash_next-first :
      hash_next h ≡ (index_next t >>= λ (v, t'). done (hash_success, v, with_first h t'))
  unfolding hash_next
  hash_next-first = simp (loaded, stored)

  hash_scan-first :
      (m : TMap)
      → get_elem? t.vec_map 0 ≡ some m
      → hash_scan h ≡ done (hash_success, with_first h (record t { search_hash_val = 0; rest = m }))
  unfolding hash_scan index_scan load
  hash_scan-first m f = rw (loaded, f, stored (some (record t { search_hash_val = 0; rest = m })))

  first-with : (t' : CIndex) → get_elem? (with_first h t').hash_index 0 ≡ some (some t')
  first-with t' = by_list h.hash_index first
    where
      by_list :
          (a : List (Option CIndex))
          → get_elem? a 0 ≡ some (some t)
          → get_elem? (set a 0 (some t')) 0 ≡ some (some t')
      by_list [] e = absurd (cc e)
      by_list (x ∷ a) e = refl

-- At the end of a scan: the table at index 0 stands behind its last bucket.
pub record IsScanned (vec_map : List TMap) (h : CHash) : Type 0 where
  pub table : CIndex
  pub first : get_elem? h.hash_index 0 ≡ some (some table)
  pub same : table.vec_map ≡ vec_map
  pub past : hash_next h ≡ fault

index_next-Ends : (t : CIndex) → IsScanning t → Ends (IsNext t (remaining t)) (index_next t)
unfolding index_next
index_next-Ends t s = index_next_loop-Ends (t.size + 2) t (omega arith) s

-- One round of the loop, once Next of the table has answered.
scan_loop-last :
    (fuel : ℕ) (h : CHash) (t t' : CIndex) (got : Option Bytes)
    → get_elem? h.hash_index 0 ≡ some (some t)
    → length t.vec_map ≡ t.size
    → index_next t ≡ done (got, t')
    → IsNext t [] (got, t')
    → Ends (λ r. (r.0 ≡ []) × IsScanned t.vec_map r.1) (scan_loop (suc fuel) h)
unfolding scan_loop
scan_loop-last fuel h t t' got first buckets ran n =
    let first' = first-with h t first t' in
    let past = next_past t' (ap length n.same ∙ buckets ∙ sym n.same_size) n.step.1 n.step.2 in
    rw (hash_next-first h t first, ran, n.step.0)
      (ends (
        refl,
        record {
          table = t';
          first = first';
          same = n.same;
          past = rw (hash_next-first (with_first h t') t' first', past);
        },
      ))

scan_loop-more :
    (fuel : ℕ) (h : CHash) (t t' : CIndex) (got : Option Bytes) (v : Bytes) (vs : List Bytes)
    → get_elem? h.hash_index 0 ≡ some (some t)
    → index_next t ≡ done (got, t')
    → IsNext t (v ∷ vs) (got, t')
    → Ends (λ r. (r.0 ≡ vs) × IsScanned t'.vec_map r.1) (scan_loop fuel (with_first h t'))
    → Ends (λ r. (r.0 ≡ v ∷ vs) × IsScanned t.vec_map r.1) (scan_loop (suc fuel) h)
unfolding scan_loop
scan_loop-more fuel h t t' got v vs first ran n rest =
    rw (hash_next-first h t first, ran, n.step.0)
      (Ends-bind rest λ r q. ends (ap (◌∷◌ v) q.0, rw n.same at q.1))

scan_loop-Ends :
    (left : List Bytes) (fuel : ℕ) (h : CHash) (t : CIndex)
    → get_elem? h.hash_index 0 ≡ some (some t)
    → IsScanning t
    → remaining t ≡ left
    → length left < fuel
    → Ends (λ r. (r.0 ≡ left) × IsScanned t.vec_map r.1) (scan_loop fuel h)
scan_loop-Ends left zero h t first s e enough = absurd (omega arith)
scan_loop-Ends [] (suc fuel) h t first s e enough =
    let ((got, t'), ran, n) = Ends-value (rw e at (index_next-Ends t s)) in
    scan_loop-last fuel h t t' got first s.buckets ran n
scan_loop-Ends (v ∷ vs) (suc fuel) h t first s e enough =
    let ((got, t'), ran, n) = Ends-value (rw e at (index_next-Ends t s)) in
    let s' : IsScanning t' = record {
      buckets = ap length n.same ∙ s.buckets ∙ sym n.same_size;
      inside = n.step.1;
    } in
    scan_loop-more fuel h t t' got v vs first ran n (
      scan_loop-Ends vs fuel (with_first h t') t' (first-with h t first t') s' n.step.2
        (omega arith))

-- Scan and then Next until it sets no value: with a table at index 0 that has its buckets, at least
-- one, and with fuel above the count of its values, the walk ends, and gives every value of the
-- table once, in the order of the buckets and of the keys in each. It leaves the buckets as they
-- are, and one more Next reads behind the last bucket.
pub scan-values :
    (fuel : ℕ) (h : CHash) (t : CIndex)
    → get_elem? h.hash_index 0 ≡ some (some t)
    → length t.vec_map ≡ t.size
    → 0 < t.size
    → length (all_values t.vec_map) < fuel
    → Ends
        (λ r. (r.0 ≡ all_values t.vec_map) × IsScanned t.vec_map r.1)
        (hash_scan h >>= λ (code, h'). scan_loop fuel h')
scan-values fuel h t first buckets sized enough = by_buckets t.vec_map refl
  where
    by_buckets :
        (ms : List TMap)
        → t.vec_map ≡ ms
        → Ends
            (λ r. (r.0 ≡ all_values t.vec_map) × IsScanned t.vec_map r.1)
            (hash_scan h >>= λ (code, h'). scan_loop fuel h')
    by_buckets [] e = absurd (omega (arith, ap length e))
    by_buckets (m ∷ ms) e =
        let start : CIndex = record t { search_hash_val = 0; rest = m } in
        let all : remaining start ≡ all_values t.vec_map = rw e in
        rw (hash_scan-first h t first m (rw e)) (
          scan_loop-Ends (all_values t.vec_map) fuel (with_first h start) start
            (first-with h t first start) (record { buckets = buckets; inside = sized }) all enough)
