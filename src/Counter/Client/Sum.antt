-- ===== src/Counter/Client/Sum.antt =====
-- `sum_counters` of src/counter.py.
use dead_nodes_tell_no_tales.Prelude.{
  ℕ, zero, suc, ◌+◌, ◌/◌, Text, Bool, true, false, Option, none, some, List, [], ◌∷◌, ◌++◌, codes,
  leb, ◌==◌, if◌then◌else◌, ℤ, pos, negsuc, ◌+ℤ◌,
}
use dead_nodes_tell_no_tales.Outcome.{index_error}
use dead_nodes_tell_no_tales.Exec.{Exec, pure, raise, lift, modify, ◌>>=◌, ◌>>◌}
use dead_nodes_tell_no_tales.Counter.Numerals.{int_of, text_of}
use dead_nodes_tell_no_tales.Counter.Client.{Client, print, get_counter}

-- The three nodes, each by host and port, and the numbers of the command.
pub record SumArgs : Type 0 where
  pub a_host : Text
  pub a_port : Text
  pub b_host : Text
  pub b_port : Text
  pub c_host : Text
  pub c_port : Text
  pub expected : ℤ
  pub timeout_ms : ℤ
  pub stable_needed : ℤ

abbrev same_int : ℤ → ℤ → Bool
same_int (pos m) (pos n) = m == n
same_int (negsuc m) (negsuc n) = m == n
same_int _ _ = false

-- m <= n, m >= n
abbrev pub le_int : ℕ → ℤ → Bool
le_int m (pos n) = leb m n
le_int m (negsuc _) = false

abbrev pub ge_int : ℕ → ℤ → Bool
ge_int m (pos n) = leb n m
ge_int m (negsuc _) = true

unfoldable pub is_expected : ℤ → ℤ → ℤ → ℤ → Bool
is_expected expected a b c = same_int ((a +ℤ b) +ℤ c) expected

unfoldable pub sum_line : ℤ → ℤ → ℤ → ℤ → Text
sum_line expected a b c =
    codes "SUM a="
    ++ text_of a
    ++ codes " b="
    ++ text_of b
    ++ codes " c="
    ++ text_of c
    ++ codes " total="
    ++ text_of ((a +ℤ b) +ℤ c)
    ++ codes " expected="
    ++ text_of expected
    ++ (if is_expected expected a b c then codes " PASS" else codes " FAIL")

abbrev missing : Text → Option ℤ → Text
missing name none = name
missing name (some _) = []

unfoldable pub waiting_line : Option ℤ → Option ℤ → Option ℤ → Text
waiting_line a b c =
    codes "SUM waiting for nodes: "
    ++ missing (codes "a") a
    ++ codes " "
    ++ missing (codes "b") b
    ++ codes " "
    ++ missing (codes "c") c

-- The next value of `stable` and whether the poll ends the loop.
unfoldable pub judge : SumArgs → ℕ → Option ℤ → Option ℤ → Option ℤ → Exec Client (ℕ × Bool)
unfolding print is_expected sum_line waiting_line
judge args stable (some a) (some b) (some c) = do
  print (sum_line args.expected a b c)
  let now = if is_expected args.expected a b c then stable + 1 else 0
  pure (now, ge_int now args.stable_needed)
judge args stable a b c = do print (waiting_line a b c); pure (0, false)

unfoldable pub poll : SumArgs → ℕ → Exec Client (ℕ × Bool)
unfolding judge
poll args stable = do
  a ← get_counter args.a_host args.a_port
  b ← get_counter args.b_host args.b_port
  c ← get_counter args.c_host args.c_port
  judge args stable a b c

-- time.sleep(0.5)
unfoldable pub nap : Client → Client
nap c = record c { slept = c.slept + 500 }

-- while elapsed <= timeout_ms, on fuel
unfoldable pub sum_loop : SumArgs → ℕ → ℕ → ℕ → Exec Client ℕ
unfolding poll nap
sum_loop args zero elapsed stable = pure 1
sum_loop args (suc fuel) elapsed stable =
    if le_int elapsed args.timeout_ms
    then (do
      (now, ended) ← poll args stable
      if ended then pure 0 else (do modify nap; sum_loop args fuel (elapsed + 100) now))
    else pure 1

-- Each round adds 100 to `elapsed`.
unfoldable pub rounds : ℤ → ℕ
rounds (pos t) = t / 100 + 1
rounds (negsuc _) = 0

-- `main` gives nine arguments.
unfoldable pub sum_counters : List Text → Exec Client ℕ
unfolding sum_loop rounds
sum_counters
      (a_host ∷ a_port ∷ b_host ∷ b_port ∷ c_host ∷ c_port ∷ expected ∷ timeout ∷ needed ∷ _) =
    do
      e ← lift (int_of expected)
      t ← lift (int_of timeout)
      k ← lift (int_of needed)
      let args : SumArgs = record {
        a_host = a_host;
        a_port = a_port;
        b_host = b_host;
        b_port = b_port;
        c_host = c_host;
        c_port = c_port;
        expected = e;
        timeout_ms = t;
        stable_needed = k;
      }
      sum_loop args (rounds t) 0 0
sum_counters _ = raise index_error
