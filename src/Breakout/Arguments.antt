-- ===== src/Breakout/Arguments.antt =====
-- The fields of a body, and the command lines of the routes.
use dead_nodes_tell_no_tales.Prelude.{
  suc, Text, Bool, true, false, some, List, [], ◌∷◌, codes, starts_with, length, text_discrete, ◌≡◌,
  refl, sym, ap, ◌∙◌, arith, Bool-cases, inl, inr, ◌⊎◌, All,
}
use dead_nodes_tell_no_tales.Outcome.{Outcome, ok, raised}
use dead_nodes_tell_no_tales.Dict.{keys, get?, has}
use dead_nodes_tell_no_tales.Dict.Laws.{get?_of_has}
use dead_nodes_tell_no_tales.Dict.Sets.{mem-keys}
use dead_nodes_tell_no_tales.Breakout.Fields.{
  Value, string, other, is_container_id, ends_with, field_ok,
}
use dead_nodes_tell_no_tales.Breakout.Commands.{
  Globals, Handler, checkpoint, restore, stop, snapshot_trigger, run_sidecar, command, routes,
}
use dead_nodes_tell_no_tales.Breakout.Requests.{
  Object, subset, field_of, bad_fields, as_argument, arguments,
}

-- An absolute path or an identifier.
abbrev pub IsSafe : Text → Type 0
IsSafe s = (starts_with (codes "/") s ≡ true) ⊎ (is_container_id s ≡ true)

IsSafe-field_ok : (field s : Text) → field_ok field (string s) ≡ true → IsSafe s
unfolding field_ok
IsSafe-field_ok field s h = elim (Bool-cases (ends_with (codes "_path") field)) [
  | inl e ↦ inl (ground (arith, e, h))
  | inr e ↦ inr (ground (arith, e, h))
]

-- The arguments that are taken from a body whose fields are good.
pub record Arguments (body : Object) (fields : List Text) : Type 0 where
  pub args : List Text
  pub taken : arguments body fields ≡ ok args
  pub as_many : length args ≡ length fields
  pub safe : All IsSafe args

Arguments-cons :
    (body : Object) (field : Text) (fields : List Text) (v : Value)
    → get? text_discrete body field ≡ some v
    → field_ok field v ≡ true
    → Arguments body fields
    → Arguments body (field ∷ fields)
unfolding field_ok arguments field_of as_argument
Arguments-cons body field fields (other _) there good a = absurd (ground arith)
Arguments-cons body field fields (string s) there good a = record {
  args = s ∷ a.args;
  taken = ground (arith, there, a.taken);
  as_many = ap suc a.as_many;
  safe = (IsSafe-field_ok field s good, a.safe);
}

-- All fields are there: the bad ones are found, and if there are none, the arguments are taken.
pub checked :
    (body : Object) (fields : List Text)
    → subset fields (keys body) ≡ true
    → (Arguments body fields × (bad_fields body fields ≡ ok []))
      ⊎ ((field : Text) × (bad : List Text) × (bad_fields body fields ≡ ok (field ∷ bad)))
unfolding subset bad_fields field_of arguments
checked body [] h = inl (record { args = []; taken = refl; as_many = refl; safe = tt }, refl)
checked body (field ∷ fields) h =
    let here : has text_discrete body field ≡ true =
      sym (mem-keys text_discrete body field) ∙ ground (arith, h) in
    let (v, there) = get?_of_has text_discrete body field here in
    elim (checked body fields (ground (arith, h))) [
      | inl (a, none_bad) ↦ elim (Bool-cases (field_ok field v)) [
        | inl good ↦
            inl (
              Arguments-cons body field fields v there good a,
              ground (arith, there, none_bad, good),
            )
        | inr bad ↦ inr (field, [], ground (arith, there, none_bad, bad))
      ]
      | inr (other_field, more, some_bad) ↦ elim (Bool-cases (field_ok field v)) [
        | inl good ↦ inr (other_field, more, ground (arith, there, some_bad, good))
        | inr bad ↦ inr (field, other_field ∷ more, ground (arith, there, some_bad, bad))
      ]
    ]

abbrev is_ok : Outcome (List Text) → Bool
is_ok (ok _) = true
is_ok (raised _) = false

any_ok : (r : Outcome (List Text)) → is_ok r ≡ true → (argv : List Text) × (r ≡ ok argv)
any_ok (ok argv) h = (argv, refl)
any_ok (raised e) h = absurd (ground arith)

-- A handler, with the fields of its route, has a command line for any arguments.
abbrev pub HasCommand : Globals → Handler × List Text → Type 0
HasCommand g (handler, fields) =
    (args : List Text)
    → length args ≡ length fields
    → (argv : List Text) × (command g handler args ≡ ok argv)

one_argument :
    (g : Globals) (handler : Handler)
    → ((a : Text) → is_ok (command g handler (a ∷ [])) ≡ true)
    → (args : List Text) → length args ≡ 1
    → (argv : List Text) × (command g handler args ≡ ok argv)
one_argument g handler f [] e = absurd (omega arith)
one_argument g handler f (a ∷ []) e = any_ok (command g handler (a ∷ [])) (f a)
one_argument g handler f (a ∷ b ∷ rest) e = absurd (omega arith)

two_arguments :
    (g : Globals) (handler : Handler)
    → ((a b : Text) → is_ok (command g handler (a ∷ b ∷ [])) ≡ true)
    → (args : List Text) → length args ≡ 2
    → (argv : List Text) × (command g handler args ≡ ok argv)
two_arguments g handler f [] e = absurd (omega arith)
two_arguments g handler f (a ∷ []) e = absurd (omega arith)
two_arguments g handler f (a ∷ b ∷ []) e = any_ok (command g handler (a ∷ b ∷ [])) (f a b)
two_arguments g handler f (a ∷ b ∷ c ∷ rest) e = absurd (omega arith)

pub routes-HasCommand : (g : Globals) → All (λ e. HasCommand g e.1) routes
unfolding command
routes-HasCommand g = (
  two_arguments g checkpoint (λ a b. refl),
  (
    one_argument g restore (λ a. refl),
    (
      one_argument g stop (λ a. refl),
      (
        two_arguments g snapshot_trigger (λ a b. refl),
        (two_arguments g run_sidecar (λ a b. refl), tt),
      ),
    ),
  ),
)
