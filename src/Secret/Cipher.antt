-- ===== src/Secret/Cipher.antt =====
-- secret.cpp: what DoSecret writes, and what it makes of its own output.
use cpp_study.Base.{
  ℕ, ◌%◌, ◌≡◌, refl, ap, ◌∙◌, List, [], ◌∷◌, ◌++◌, map, Bool, true, ◌&&◌, ◌||◌, some, arith,
}
use cpp_study.Secret.{crypt, secret_loop, Answers, do_secret}
use cpp_study.Secret.Xor.{bit_xor_back}

-- The last byte of a file, or 0 where it is empty.
abbrev pub last_byte : List ℕ → ℕ → ℕ
last_byte [] c = c
last_byte (b ∷ input) c = last_byte input b

crypt-crypt : (key c : ℕ) → crypt key (crypt key c) ≡ c
crypt-crypt key c = bit_xor_back c (key % 256)

-- What was in cTemp before does not matter but for an empty file.
secret_loop-map :
    (key : ℕ) (input : List ℕ) (c : ℕ)
    → secret_loop key input (crypt key c) ≡ map (crypt key) input ++ last_byte input c ∷ []
unfolding secret_loop
secret_loop-map key [] c = rw (crypt-crypt key c) refl
secret_loop-map key (b ∷ input) c = ap (◌∷◌ (crypt key b)) (secret_loop-map key input b)

-- The byte that the loop puts out once the file has ended: the last one of the file as it was, or
-- the key where the file is empty.
abbrev pub extra : ℕ → List ℕ → ℕ
extra key [] = crypt key 0
extra key (b ∷ input) = last_byte input b

secret_loop-whole :
    (key : ℕ) (input : List ℕ)
    → secret_loop key input 0 ≡ map (crypt key) input ++ extra key input ∷ []
unfolding secret_loop
secret_loop-whole key [] = refl
secret_loop-whole key (b ∷ input) = ap (◌∷◌ (crypt key b)) (secret_loop-map key input b)

map-crypt :
    (key e : ℕ) (input : List ℕ)
    → map (crypt key) (map (crypt key) input ++ e ∷ []) ≡ input ++ crypt key e ∷ []
map-crypt key e [] = refl
map-crypt key e (b ∷ input) = rw (crypt-crypt key b) (ap (◌∷◌ b) (map-crypt key e input))

extra-append : (key e : ℕ) (out : List ℕ) → extra key (out ++ e ∷ []) ≡ e
extra-append key e [] = refl
extra-append key e (b ∷ out) = last_byte-append out b
  where
    last_byte-append : (xs : List ℕ) (c : ℕ) → last_byte (xs ++ e ∷ []) c ≡ e
    last_byte-append [] c = refl
    last_byte-append (x ∷ xs) c = last_byte-append xs x

append-two : (input : List ℕ) (x y : ℕ) → (input ++ x ∷ []) ++ y ∷ [] ≡ input ++ x ∷ y ∷ []
append-two [] x y = refl
append-two (b ∷ input) x y = ap (◌∷◌ b) (append-two input x y)

-- The directory is there or can be made, and the files open.
abbrev pub opens : Answers → Bool
opens a = (a.there || a.made) && a.opened

pub do_secret-opens :
    (key : ℕ) (a : Answers) → opens a ≡ true → do_secret key a ≡ some (secret_loop key a.input 0)
unfolding do_secret
do_secret-opens key a h = ground arith

-- DoSecret, where its directory and its files open, puts out each byte of the file, exclusive-or the
-- key, in order, and one byte more: the last byte of the file as it was, or the key's byte where
-- the file is empty. Run on its own output with the same key it gives the file back, with two
-- bytes behind it: that byte, exclusive-or the key, and that byte.
pub do_secret-do_secret :
    (key : ℕ) (a a' : Answers)
    → opens a ≡ true
    → opens a' ≡ true
    → do_secret key a ≡ some (a'.input)
    → let e = extra key a.input in
      (a'.input ≡ map (crypt key) a.input ++ e ∷ [])
      × (do_secret key a' ≡ some (a.input ++ crypt key e ∷ e ∷ []))
do_secret-do_secret key a a' ok ok' h =
    let e = extra key a.input in
    let once = do_secret-opens key a ok in
    let out : a'.input ≡ map (crypt key) a.input ++ e ∷ [] =
      cc (h, once, secret_loop-whole key a.input) in
    let twice : map (crypt key) a'.input ++ extra key a'.input ∷ []
        ≡ a.input ++ crypt key e ∷ e ∷ [] =
      rw (out, map-crypt key e a.input, extra-append key e (map (crypt key) a.input))
        (append-two a.input (crypt key e) e) in
    (out, do_secret-opens key a' ok' ∙ ap some (secret_loop-whole key a'.input ∙ twice))
