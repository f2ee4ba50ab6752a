-- ===== src/Counter/Client/Polls.antt =====
-- The polls of `sum_counters`, when every port can be bound.
use dead_nodes_tell_no_tales.Prelude.{
  ℕ, ◌+◌, ◌*◌, ◌/◌, ◌<◌, ◌≤◌, Bytes, Text, Bool, true, false, Option, none, some, List, [], ◌∷◌,
  ◌++◌, map, length, leb, if◌then◌else◌, ◌≡◌, refl, ap, ◌∙◌, subst, arith, ◌↔◌, ◌⊎◌, Bool-cases,
  inl, inr, ℤ, pos,
}
use dead_nodes_tell_no_tales.Outcome.{Outcome, ok}
use dead_nodes_tell_no_tales.Exec.{pure, ◌>>=◌}
use dead_nodes_tell_no_tales.Counter.Numerals.{int_of}
use dead_nodes_tell_no_tales.Counter.Client.{
  Attempt, silent, answered, Client, ask, request_udp, read_answer, counter_of, get_counter, print,
}
use dead_nodes_tell_no_tales.Counter.Client.Sum.{
  SumArgs, le_int, is_expected, judge, poll, nap, sum_loop, rounds, sum_counters,
}
use dead_nodes_tell_no_tales.Counter.Client.Rounds.{sum_loop_more, sum_loop_done}
use dead_nodes_tell_no_tales.Counter.Client.Streak.{HasStreak, verdict, verdict_iff}

abbrev pub attempt_of : Option Bytes → Attempt
attempt_of none = silent
attempt_of (some datagram) = answered datagram

-- What comes in for the three requests of a poll.
pub record Answers : Type 0 where
  pub a : Option Bytes
  pub b : Option Bytes
  pub c : Option Bytes

abbrev pub attempts_of : List Answers → List Attempt
attempts_of [] = []
attempts_of (x ∷ xs) = attempt_of x.a ∷ attempt_of x.b ∷ attempt_of x.c ∷ attempts_of xs

-- The counter that the client reads from what comes in.
unfoldable pub reading : Option Bytes → Option ℤ
reading x = counter_of (read_answer (attempt_of x))

abbrev expected_of : ℤ → Option ℤ → Option ℤ → Option ℤ → Bool
expected_of e (some a) (some b) (some c) = is_expected e a b c
expected_of e a b c = false

-- All three counters are read, and their sum is the expected one.
unfoldable pub is_good : ℤ → Answers → Bool
is_good e x = expected_of e (reading x.a) (reading x.b) (reading x.c)

get_counter_run :
    (host port : Text) (p : ℤ) (x : Option Bytes) (rest : List Attempt) (c : Client)
    → int_of port ≡ ok p
    → c.attempts ≡ attempt_of x ∷ rest
    → ((get_counter host port c).0 ≡ ok (reading x)) × ((get_counter host port c).1.attempts ≡ rest)
unfolding get_counter request_udp ask reading ◌>>=◌
get_counter_run host port p none rest c h e = rw (e, h) (refl, refl)
get_counter_run host port p (some d) rest c h e = rw (e, h) (refl, refl)

-- The exit code.
abbrev code_of : Bool → ℕ
code_of found = if found then 0 else 1

-- The polls that were made, `used`, are the first of `xs`: all of them, unless a good one ended the loop.
record Polled (xs more : List Answers) (good : Bool) (r : Outcome ℕ × Client) : Type 0 where
  code : r.0 ≡ ok (code_of good)
  used : List Answers
  unread : List Answers
  split : xs ≡ used ++ unread
  left : r.1.attempts ≡ attempts_of (unread ++ more)
  ended : (good ≡ true) ⊎ (unread ≡ [])

-- The code is 0 exactly when `k` good polls stand in a row. The polls that were made, `used`, are the first of
-- `xs`, and all of them when the code is 1.
pub record Summed (k : ℕ) (polls : List Bool) (xs more : List Answers) (r : Outcome ℕ × Client)
    : Type 0 where
  pub code : ℕ
  pub exited : r.0 ≡ ok code
  pub streak : (code ≡ 0) ↔ HasStreak k polls
  pub used : List Answers
  pub unread : List Answers
  pub split : xs ≡ used ++ unread
  pub left : r.1.attempts ≡ attempts_of (unread ++ more)
  pub ended : (code ≡ 0) ⊎ ((code ≡ 1) × (unread ≡ []))

-- The next value of `stable`.
abbrev counted : Bool → ℕ → ℕ
counted good stable = if good then stable + 1 else 0

module _ (args : SumArgs) (k : ℕ) (needs : args.stable_needed ≡ pos k) (some_needed : 0 < k) where
  judge_run :
      (stable : ℕ) (a b c : Option ℤ) (s : Client)
      → ((judge args stable a b c s).0
          ≡ ok (
            counted (expected_of args.expected a b c) stable,
            leb k (counted (expected_of args.expected a b c) stable),
          ))
        × ((judge args stable a b c s).1.attempts ≡ s.attempts)
  unfolding judge print pure ◌>>=◌
  judge_run stable (some a) (some b) (some c) s = rw needs (refl, refl)
  judge_run stable (some a) (some b) none s = ground arith
  judge_run stable (some a) none c s = ground arith
  judge_run stable none b c s = ground arith

  module _ (pa pb pc : ℤ) (to_a : int_of args.a_port ≡ ok pa) (to_b : int_of args.b_port ≡ ok pb)
      (to_c : int_of args.c_port ≡ ok pc) where
    poll_run :
        (stable : ℕ) (x : Answers) (xs : List Answers) (s : Client)
        → s.attempts ≡ attempts_of (x ∷ xs)
        → ((poll args stable s).0
            ≡ ok (
              counted (is_good args.expected x) stable,
              leb k (counted (is_good args.expected x) stable),
            ))
          × ((poll args stable s).1.attempts ≡ attempts_of xs)
    unfolding poll is_good ◌>>=◌
    poll_run stable x xs s e =
        let (ra, na) = get_counter_run args.a_host args.a_port pa x.a _ s to_a e in
        let (rb, nb) =
          get_counter_run args.b_host args.b_port pb x.b _ (get_counter args.a_host args.a_port s).1
            to_b na in
        let (rc, nc) =
          get_counter_run args.c_host args.c_port pc x.c _
            (get_counter args.b_host args.b_port (get_counter args.a_host args.a_port s).1).1 to_c
            nb in
        let (rj, nj) =
          judge_run stable (reading x.a) (reading x.b) (reading x.c)
            (get_counter args.c_host args.c_port
              (get_counter args.b_host args.b_port
                (get_counter args.a_host args.a_port s).1).1).1 in
        rw (ra, rb, rc) (rj, nj ∙ nc)

    within :
        (t elapsed : ℕ)
        → args.timeout_ms ≡ pos t
        → elapsed ≤ t
        → le_int elapsed args.timeout_ms ≡ true
    within t elapsed to_t le = ap (le_int elapsed) to_t ∙ ground arith

    sum_loop_run :
        (t elapsed stable : ℕ) (xs more : List Answers) (s : Client)
        → args.timeout_ms ≡ pos t
        → elapsed + length xs * 100 ≤ t + 100
        → s.attempts ≡ attempts_of (xs ++ more)
        → Polled xs more
            (verdict k stable (map (is_good args.expected) xs))
            (sum_loop args (length xs) elapsed stable s)
    sum_loop_run t elapsed stable [] more s to_t le e = record {
      code = unfold sum_loop pure in refl;
      used = [];
      unread = [];
      split = refl;
      left = unfold sum_loop pure in e;
      ended = inr refl;
    }
    sum_loop_run t elapsed stable (x ∷ xs) more s to_t le e =
        let now : ℕ = counted (is_good args.expected x) stable in
        let (r, left) = poll_run stable x (xs ++ more) s e in
        elim (Bool-cases (leb k now)) [
          | inl h ↦
              rw
                (
                  sum_loop_done args (length xs) elapsed stable s
                      (within t elapsed to_t (omega (arith, le))) now (r ∙ ap (λ b. ok (now, b)) h),
                  h,
                )
                (record {
                  code = refl;
                  used = x ∷ [];
                  unread = xs;
                  split = refl;
                  left = left;
                  ended = inl refl;
                })
          | inr h ↦
              let p =
                sum_loop_run t (elapsed + 100) now xs more (nap (poll args stable s).1) to_t
                  (omega (arith, le)) (unfold nap in left) in
              rw
                (
                  sum_loop_more args (length xs) elapsed stable s
                      (within t elapsed to_t (omega (arith, le))) now (r ∙ ap (λ b. ok (now, b)) h),
                  h,
                )
                (record {
                  code = p.code;
                  used = x ∷ p.used;
                  unread = p.unread;
                  split = ap (λ l. x ∷ l) p.split;
                  left = p.left;
                  ended = p.ended;
                })
        ]

    sum_loop-HasStreak :
        (t : ℕ) (xs more : List Answers) (s : Client)
        → args.timeout_ms ≡ pos t
        → length xs ≡ rounds (pos t)
        → s.attempts ≡ attempts_of (xs ++ more)
        → Summed k (map (is_good args.expected) xs) xs more (sum_loop args (rounds (pos t)) 0 0 s)
    sum_loop-HasStreak t xs more s to_t many e =
        let polls : List Bool = map (is_good args.expected) xs in
        let p =
          subst
            (λ f.
              Polled xs more (verdict k 0 (map (is_good args.expected) xs)) (sum_loop args f 0 0 s))
            many (sum_loop_run t 0 0 xs more s to_t (unfold rounds in omega (arith, many)) e) in
        record {
          code = code_of (verdict k 0 (map (is_good args.expected) xs));
          exited = p.code;
          streak = (
            (λ h. (verdict_iff k polls some_needed).0 (ground (arith, h))),
            (λ h. ap code_of ((verdict_iff k polls some_needed).1 h)),
          );
          used = p.used;
          unread = p.unread;
          split = p.split;
          left = p.left;
          ended = elim p.ended [
            | inl good ↦ inl (ap code_of good)
            | inr none_left ↦ elim (Bool-cases (verdict k 0 (map (is_good args.expected) xs))) [
              | inl good ↦ inl (ap code_of good)
              | inr bad ↦ inr (ap code_of bad, none_left)
            ]
          ];
        }

-- The command `sum` with a timeout of `t` milliseconds and at least one good poll needed, on ports that are
-- numbers and can be bound, makes at most t / 100 + 1 polls, and asks for the counters no further. It ends
-- with 0 exactly when as many good polls as are needed come one after the other among the t / 100 + 1, and
-- with 1 otherwise, after all of them.
pub sum_counters-HasStreak :
    (a_host a_port b_host b_port c_host c_port expected timeout needed : Text) (pa pb pc e : ℤ)
    (t k : ℕ) (xs more : List Answers) (s : Client)
    → int_of a_port ≡ ok pa
    → int_of b_port ≡ ok pb
    → int_of c_port ≡ ok pc
    → int_of expected ≡ ok e
    → int_of timeout ≡ ok (pos t)
    → int_of needed ≡ ok (pos k)
    → 0 < k
    → length xs ≡ t / 100 + 1
    → s.attempts ≡ attempts_of (xs ++ more)
    → Summed k (map (is_good e) xs) xs more (
        sum_counters
          (a_host ∷ a_port ∷ b_host ∷ b_port ∷ c_host ∷ c_port ∷ expected ∷ timeout ∷ needed ∷ [])
          s)
unfolding sum_counters rounds ◌>>=◌
sum_counters-HasStreak a_host a_port b_host b_port c_host c_port expected timeout needed pa pb pc e
      t k xs more s to_a to_b to_c to_e to_t to_k some_needed many come =
    rw (to_e, to_t, to_k)
      (sum_loop-HasStreak
        (record {
          a_host = a_host;
          a_port = a_port;
          b_host = b_host;
          b_port = b_port;
          c_host = c_host;
          c_port = c_port;
          expected = e;
          timeout_ms = pos t;
          stable_needed = pos k;
        })
        k refl some_needed pa pb pc to_a to_b to_c t xs more s refl (unfold rounds in many) come)
