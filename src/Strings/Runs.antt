-- ===== src/Strings/Runs.antt =====
-- mystring.cpp: the objects over any calls.
use cpp_study.Base.{ℕ, ◌≡◌, inl, inr, List, [], ◌∷◌, none, some, Option-cases}
use cpp_study.Base.Exec.{Exec, done, fault, timeout, ◌>>=◌, Ends, ends, Ends-weaken}
use cpp_study.Ini.{Text}
use cpp_study.Strings.{Store, output, Call, run_call, run_calls}
use cpp_study.Strings.Values.{Values, Represents}
use cpp_study.Strings.Calls.{value_call, value_calls, Allowed, read_text-value, run_call-Represents}

-- Each call is allowed in the store that the calls before it leave.
unfoldable pub AllAllowed : ℕ → Exec Store → Values → List Call → Type 0
unfolding run_call
AllAllowed junk m v [] = Unit
AllAllowed junk (done s) v (c ∷ cs) =
    Allowed s v c × AllAllowed junk (run_call junk s c) (value_call v c) cs
AllAllowed junk fault v (c ∷ cs) = ⊥
AllAllowed junk timeout v (c ∷ cs) = ⊥

then_calls :
    (junk : ℕ) (cs : List Call) (v : Values) (m : Exec Store)
    → Ends (λ t. Represents t v) m
    → ((t : Store)
        → Represents t v
        → AllAllowed junk (done t) v cs
        → Ends (λ u. Represents u (value_calls cs v)) (run_calls junk cs t))
    → AllAllowed junk m v cs
    → Ends (λ u. Represents u (value_calls cs v)) (m >>= run_calls junk cs)
then_calls junk cs v (done t) (ends p) next a = next t p a
then_calls junk cs v fault e next a = elim e [ ]
then_calls junk cs v timeout e next a = elim e [ ]

run_calls-Represents :
    (junk : ℕ) (cs : List Call) (s : Store) (v : Values)
    → Represents s v
    → AllAllowed junk (done s) v cs
    → Ends (λ t. Represents t (value_calls cs v)) (run_calls junk cs s)
unfolding run_calls AllAllowed
run_calls-Represents junk [] s v r a = ends r
run_calls-Represents junk (c ∷ cs) s v r (h, a) =
    then_calls junk cs (value_call v c) (run_call junk s c) (run_call-Represents junk s v c r h)
      (λ t p b. run_calls-Represents junk cs t (value_call v c) p b) a

-- What a store shows of the texts: each object shows its own, and without an object there is no
-- block.
pub record Shows (v : Values) (s : Store) : Type 0 where
  pub texts : (o : ℕ) (t : Text) → v o ≡ some t → output s o ≡ done t
  pub no_leak : ((o : ℕ) → v o ≡ none) → (p : ℕ) → s.blocks p ≡ none

abbrev pub no_objects : Values
no_objects o = none

abbrev pub empty_store : Store
empty_store = record { blocks = λ p. none; m_data = λ o. none }

empty-Represents : Represents empty_store no_objects
empty-Represents = record {
  held = λ o t e. absurd (cc e);
  apart = λ o u x y p e f d m. absurd (cc e);
  owned = λ p cells e. absurd (cc e);
}

Represents-Shows : (s : Store) (v : Values) → Represents s v → Shows v s
unfolding output
Represents-Shows s v r = record {
  texts = λ o t e. read_text-value s v o t r e;
  no_leak = λ none_alive p. elim (Option-cases (s.blocks p)) [
    | inl e ↦ e
    | inr (cells, e) ↦ let (o, t, f, d) = r.owned p cells e in absurd (cc (f, none_alive o))
  ];
}

-- Any calls on strings, from a heap without blocks, in which objects are constructed before they
-- are used and are not used once destroyed, and `new` gives an address in no use: no call reads or
-- releases a block that is not there, strings have values, that is, a copy and an assignment take
-- the text that the other string has then and share nothing with it, and a string that is assigned
-- to itself keeps its text. Once all strings are destroyed, no block is left.
pub run_calls-Shows :
    (junk : ℕ) (cs : List Call)
    → AllAllowed junk (done empty_store) no_objects cs
    → Ends (λ t. Shows (value_calls cs no_objects) t) (run_calls junk cs empty_store)
run_calls-Shows junk cs a =
    Ends-weaken (λ t r. Represents-Shows t (value_calls cs no_objects) r)
      (run_calls-Represents junk cs empty_store no_objects empty-Represents a)
