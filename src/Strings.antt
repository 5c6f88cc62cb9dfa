-- ===== src/Strings.antt =====
-- wzq_study/mystring.h and mystring.cpp: a class that owns a text on the heap.
--
-- The address that `new` gives is an argument, as is what it leaves in the cells. A block that was
-- released, or that `new` did not give, may be neither read nor released.
pub mod Calls
pub mod Runs
pub mod Values
use cpp_study.Base.{
  ℕ, zero, suc, ◌+◌, List, [], ◌∷◌, ◌++◌, Bool, true, false, Option, none, some, ◌==◌,
  if◌then◌else◌, length, set, drop, replicate,
}
use cpp_study.Base.Exec.{Exec, done, fault, ◌>>=◌}
use cpp_study.Base.Array.{of_option}
use cpp_study.Base.Chars.{codes}
use cpp_study.Ini.{Text}

-- The cells of each block, and the field m_data of each object.
pub record Store : Type 0 where
  pub blocks : ℕ → Option (List ℕ)
  pub m_data : ℕ → Option ℕ

abbrev pub put {ℓ} : {A : Type ℓ} → (ℕ → A) → ℕ → A → ℕ → A
put f i v j = if i == j then v else f j

-- The text in some cells, up to the first 0: strlen reads past cells without one.
abbrev pub text_in : List ℕ → Exec Text
text_in [] = fault
text_in (c ∷ cells) =
    let rest : Exec Text = do t ← text_in cells; done (c ∷ t)
    in if c == 0 then done [] else rest

unfoldable pub read_text : Store → Option ℕ → Exec Text
read_text s none = fault
read_text s (some p) = do cells ← of_option (s.blocks p); text_in cells

-- `delete[] p`
unfoldable pub delete : Store → Option ℕ → Exec Store
delete s none = done s
delete s (some p) = do
  cells ← of_option (s.blocks p)
  done (record s { blocks = put s.blocks p none })

module _ (junk : ℕ) where
  -- `m_data = new char[iLen + 1]`, strncpy of iLen bytes, and the 0 behind them.
  abbrev pub filled : Text → List ℕ
  filled t =
      let cells = replicate (suc (length t)) junk in set (t ++ drop (length t) cells) (length t) 0

  unfoldable pub new_text : Store → ℕ → ℕ → Text → Store
  new_text s o a t = record {
    blocks = put s.blocks a (some (filled t));
    m_data = put s.m_data o (some a);
  }

  -- The constructors, for the object `o`.
  unfoldable pub mystring : Store → ℕ → ℕ → Option Text → Store
  unfolding new_text
  mystring s o a none = record {
    blocks = put s.blocks a (some (set (junk ∷ []) 0 0));
    m_data = put s.m_data o (some a);
  }
  mystring s o a (some str) = new_text s o a str

  unfoldable pub copy : Store → ℕ → ℕ → ℕ → Exec Store
  unfolding read_text new_text
  copy s o a src = do t ← read_text s (s.m_data src); done (new_text s o a t)

  -- `operator =`
  unfoldable pub assign : Store → ℕ → ℕ → ℕ → Exec Store
  unfolding read_text delete new_text
  assign s o a src =
      let assigned : Exec Store = do
        freed ← delete s (s.m_data o)
        t ← read_text freed (freed.m_data src)
        done (new_text freed o a t)
      in if o == src then done s else assigned

-- The destructor.
unfoldable pub destroy : Store → ℕ → Exec Store
unfolding delete
destroy s o = do
  freed ← delete s (s.m_data o)
  done (record freed { m_data = put freed.m_data o none })

-- output: the text that it shows.
unfoldable pub output : Store → ℕ → Exec Text
unfolding read_text
output s o = read_text s (s.m_data o)

-- What a program may do with the objects; `a` is the address that `new` gives.
pub data Call : Type 0 where
  constructs : ℕ → ℕ → Option Text → Call
  copies : ℕ → ℕ → ℕ → Call
  assigns : ℕ → ℕ → ℕ → Call
  destroys : ℕ → Call

unfoldable pub run_call : ℕ → Store → Call → Exec Store
unfolding mystring copy assign destroy
run_call junk s (constructs o a str) = done (mystring junk s o a str)
run_call junk s (copies o a src) = copy junk s o a src
run_call junk s (assigns o a src) = assign junk s o a src
run_call junk s (destroys o) = destroy s o

unfoldable pub run_calls : ℕ → List Call → Store → Exec Store
unfolding run_call
run_calls junk [] s = done s
run_calls junk (c ∷ cs) s = do t ← run_call junk s c; run_calls junk cs t

-- test_mystring, with its destructors; the object `i` is m1 to m4.
unfoldable pub test_calls : (ℕ → ℕ) → List Call
test_calls address =
    constructs 1 (address 1) none
    ∷ constructs 2 (address 2) (some (codes "I am in SH!"))
    ∷ copies 3 (address 3) 2
    ∷ copies 4 (address 4) 2
    ∷ assigns 1 (address 5) 2
    ∷ destroys 4
    ∷ destroys 3
    ∷ destroys 2
    ∷ destroys 1
    ∷ []
