-- ===== src/Demo/TestRunner.antt =====
-- demo_services/service_x/src/test_util/test_runner.cpp: the test cases of service_x, one after the
-- other.
use msgrpc.Base.{ℕ, zero, suc, ◌+◌, ◌%◌, ◌^◌, ◌<◌, length, ◌≡◌, refl, List, [], ◌∷◌, ◌++◌, arith}

-- `get_testcases`, the `index` of `run_next_testcase`, and the world in which the test cases run.
pub record Runner {ℓ} (W : Type ℓ) : Type ℓ where
  pub testcases : List (W → W)
  pub index : ℕ
  pub world : W

module _ {ℓ} {W : Type ℓ} where
  -- The constructor `TestCaseBase::TestCaseBase`.
  abbrev pub add_testcase : (W → W) → Runner W → Runner W
  add_testcase run r = record r { testcases = r.testcases ++ run ∷ [] }

  -- `if (index < get_testcases().size()) get_testcases()[index]->run()`.
  unfoldable pub do_run_testcase : List (W → W) → ℕ → W → W
  do_run_testcase [] index w = w
  do_run_testcase (run ∷ rest) zero w = run w
  do_run_testcase (run ∷ rest) (suc index) w = do_run_testcase rest index w

  -- A `size_t` has 64 bits.
  unfoldable pub run_next_testcase : Runner W → Runner W
  unfolding do_run_testcase
  run_next_testcase r = record r {
    index = (r.index + 1) % 2 ^ 64;
    world = do_run_testcase r.testcases r.index r.world;
  }

  do_run_testcase-at :
      (before rest : List (W → W)) (run : W → W) (w : W)
      → do_run_testcase (before ++ run ∷ rest) (length before) w ≡ run w
  unfolding do_run_testcase
  do_run_testcase-at [] rest run w = refl
  do_run_testcase-at (x ∷ before) rest run w = do_run_testcase-at before rest run w

  -- When the test cases of `before` ran, the next call runs the one behind them, and turns to the
  -- one after it.
  run_next_testcase-next :
      (before rest : List (W → W)) (run : W → W) (w : W)
      → length before + 1 < 2 ^ 64
      → run_next_testcase
          (record { testcases = before ++ run ∷ rest; index = length before; world = w })
        ≡ record { testcases = before ++ run ∷ rest; index = length before + 1; world = run w }
  unfolding run_next_testcase
  run_next_testcase-next before rest run w small =
      let next : (length before + 1) % 2 ^ 64 ≡ length before + 1 = omega arith in
      rw (next, do_run_testcase-at before rest run w) refl
