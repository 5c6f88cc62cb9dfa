-- ===== src/Http/Answers.antt =====
-- http.cpp: what DealRecv sends.
use cpp_study.Base.{
  ℕ, ◌<◌, ◌≤◌, ◌≡◌, ◌≢◌, ◌⊎◌, inl, inr, ◌==◌, refl, List, [], ◌∷◌, ◌++◌, Bool, true, false, not,
  ◌&&◌, arith, leb, if◌then◌else◌, length,
}
use cpp_study.Base.Exec.{Exec, fault, Ends, ends}
use cpp_study.Base.Chars.{codes, has_key, decimal}
use cpp_study.Ini.{Text}
use cpp_study.Http.{c_text, has_zero, is_unended, deal_recv}
use cpp_study.Http.Pages.{
  buffer_size, header_start, header_end, default_html, result_fmt, hello_text, page, send_buffer,
}

-- A response: a head with the length of the body, and the body, within the buffer with its 0.
pub record IsPage (body t : Text) : Type 0 where
  pub size : ℕ
  pub text : t ≡ header_start ++ (decimal size ++ (header_end ++ body))
  pub body_size : length body ≡ size
  pub fits : length t < buffer_size

default-IsPage : Ends (λ t. IsPage default_html t) (send_buffer (page default_html))
unfolding send_buffer page decimal
default-IsPage = ends (record { size = 546; text = refl; body_size = refl; fits = omega arith })

result-IsPage : Ends (λ t. IsPage result_fmt t) (send_buffer (page result_fmt))
unfolding send_buffer page decimal
result-IsPage = ends (record { size = 269; text = refl; body_size = refl; fits = omega arith })

-- What is sent for a request that has "GET " in it, or has not, and "msisdn".
abbrev pub Answer : Bool → Bool → Text → Type 0
Answer false asked t = t ≡ hello_text
Answer true false t = IsPage default_html t
Answer true true t = IsPage result_fmt t

abbrev pub AllNonzero : List ℕ → Type 0
AllNonzero [] = Unit
AllNonzero (b ∷ bytes) = (b ≢ 0) × AllNonzero bytes

-- What DealRecv comes to on the bytes that recv gave.
abbrev pub Answered : List ℕ → Exec Text → Type 0
Answered bytes m =
    ((buffer_size ≤ length bytes) × AllNonzero bytes × (m ≡ fault))
    ⊎ Ends
        (λ t.
          Answer (has_key (codes "GET ") (c_text bytes)) (has_key (codes "msisdn") (c_text bytes))
            t)
        m

no_zero : (bytes : List ℕ) → has_zero bytes ≡ false → AllNonzero bytes
no_zero [] h = tt
no_zero (b ∷ bytes) h = by_byte (b == 0) refl h (no_zero bytes)
  where
    by_byte :
        (z : Bool)
        → (b == 0) ≡ z
        → (if z then true else has_zero bytes) ≡ false
        → (has_zero bytes ≡ false → AllNonzero bytes)
        → AllNonzero (b ∷ bytes)
    by_byte true e h next = absurd (cc h)
    by_byte false e h next = ((λ x. ground (arith, e, x)), next h)

unended :
    (bytes : List ℕ) → is_unended bytes ≡ true → (buffer_size ≤ length bytes) × AllNonzero bytes
unended bytes h = by_zero (leb buffer_size (length bytes)) (has_zero bytes) refl refl h
  where
    by_zero :
        (l z : Bool)
        → leb buffer_size (length bytes) ≡ l
        → has_zero bytes ≡ z
        → (l && not z) ≡ true
        → (buffer_size ≤ length bytes) × AllNonzero bytes
    by_zero true true e f h = absurd (cc h)
    by_zero true false e f h = (ground (arith, e), no_zero bytes f)
    by_zero false z e f h = absurd (cc h)

Answer-by :
    (bytes : List ℕ) (u g m : Bool)
    → is_unended bytes ≡ u
    → has_key (codes "GET ") (c_text bytes) ≡ g
    → has_key (codes "msisdn") (c_text bytes) ≡ m
    → ((u ≡ true) × (deal_recv bytes ≡ fault)) ⊎ Ends (λ t. Answer g m t) (deal_recv bytes)
unfolding deal_recv send_buffer
Answer-by bytes true g m e f h = inl (refl, rw (deal_recv, e) refl)
Answer-by bytes false false m e f h = inr (rw (deal_recv, e, f) (ends refl))
Answer-by bytes false true false e f h = inr (rw (deal_recv, e, f, h) default-IsPage)
Answer-by bytes false true true e f h = inr (rw (deal_recv, e, f, h) result-IsPage)

-- DealRecv on the bytes of a request: it reads past its buffer only where they fill it and none of
-- them is 0. Else it sends a greeting where the request has no "GET ", and a page where it has: the
-- one for "msisdn", or the form. The head of a page gives the length of its body, and the page with
-- its 0 fits the buffer.
pub deal_recv-Answered : (bytes : List ℕ) → Answered bytes (deal_recv bytes)
deal_recv-Answered bytes =
    elim (Answer-by bytes (is_unended bytes) (has_key (codes "GET ") (c_text bytes))
      (has_key (codes "msisdn") (c_text bytes)) refl refl refl) [
        | inl (u, e) ↦ let (long, full) = unended bytes u in inl (long, full, e)
        | inr h ↦ inr h
      ]

pub deal_recv-Ends :
    (bytes : List ℕ)
    → is_unended bytes ≡ false
    → Ends
        (λ t.
          Answer
            (has_key (codes "GET ") (c_text bytes))
            (has_key (codes "msisdn") (c_text bytes))
            t)
        (deal_recv bytes)
deal_recv-Ends bytes e =
    elim (Answer-by bytes false (has_key (codes "GET ") (c_text bytes))
      (has_key (codes "msisdn") (c_text bytes)) e refl refl) [
        | inl (u, f) ↦ absurd (cc u)
        | inr h ↦ h
      ]
