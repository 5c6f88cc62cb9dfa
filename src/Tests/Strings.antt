-- ===== src/Tests/Strings.antt =====
-- The calls of test_mystring, with their destructors, on addresses that are all different.
use cpp_study.Base.{ℕ, refl, inl, arith, ◌≡◌, ◌≢◌, ◌==◌, false}
use cpp_study.Base.Exec.{Ends, done}
use cpp_study.Strings.{test_calls, run_calls, run_call}
use cpp_study.Strings.Calls.{value_calls}
use cpp_study.Base.Chars.{codes}
use cpp_study.Strings.Values.{IsText}
use cpp_study.Strings.Runs.{AllAllowed, Shows, no_objects, empty_store, run_calls-Shows}

nonzero : {c : ℕ} → (c == 0) ≡ false → c ≢ 0
nonzero {c} h = ground (arith, h)

abbrev address : ℕ → ℕ
address i = i

all_allowed : AllAllowed 7 (done empty_store) no_objects (test_calls address)
unfolding AllAllowed test_calls run_call
all_allowed =
    let words : IsText (codes "I am in SH!") = (
      nonzero refl,
      (
        nonzero refl,
        (
          nonzero refl,
          (
            nonzero refl,
            (
              nonzero refl,
              (
                nonzero refl,
                (nonzero refl, (nonzero refl, (nonzero refl, (nonzero refl, (nonzero refl, tt))))),
              ),
            ),
          ),
        ),
      ),
    ) in
    (
      (refl, refl),
      (
        (refl, refl, words),
        (
          (refl, refl, (_, refl)),
          (
            (refl, refl, (_, refl)),
            (
              (inl refl, (_, refl), (_, refl)),
              ((_, refl), ((_, refl), ((_, refl), ((_, refl), tt)))),
            ),
          ),
        ),
      ),
    )

run_calls-Shows_example :
    Ends
      (λ t. Shows (value_calls (test_calls address) no_objects) t)
      (run_calls 7 (test_calls address) empty_store)
run_calls-Shows_example = run_calls-Shows 7 (test_calls address) all_allowed
