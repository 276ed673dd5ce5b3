-- ===== src/Program/Start.antt =====
-- The start of the program and its exit code.
use hotswap_operator.Prelude.{
  Option, String, Bool, true, false, ◌||◌, ◌≡◌, ◌↔◌, refl, sym, ap, ◌∙◌, none, some, List, [], ◌∷◌,
  ◌++◌, arith, Option-cases, inl, inr,
}
use hotswap_operator.Program.{
  Flags, Call, get_config, new_manager, add_prober, setup_reconciler, add_healthz_check,
  add_readyz_check, start, Exit, Answers, exit_1, after_start, after_readyz, after_healthz,
  after_reconciler, after_prober, after_manager, after_config, manager_options, main,
}

clash : {b : Bool} → b ≡ false → b ≡ true → ⊥
clash e h = cc

-- One call after the other, and the end with 1 at the first error.
unfoldable run_calls : Answers → List Call → List Call → Exit
run_calls answer made [] = record { calls = made; code = 0 }
run_calls answer made (c ∷ cs) = elim (answer made c) [
  | none ↦ run_calls answer (c ∷ made) cs
  | some e ↦ exit_1 (c ∷ made)
]

-- None of the calls, made one after the other, is answered with an error.
abbrev pub Succeed : Answers → List Call → List Call → Type 0
Succeed answer made [] = Unit
Succeed answer made (c ∷ cs) = (answer made c ≡ none) × Succeed answer (c ∷ made) cs

run_calls_ok :
    (answer : Answers) (made : List Call) (c : Call) (cs : List Call)
    → answer made c ≡ none
    → run_calls answer made (c ∷ cs) ≡ run_calls answer (c ∷ made) cs
unfolding run_calls
run_calls_ok answer made c cs e = rw (e, run_calls)

run_calls_err :
    (answer : Answers) (made : List Call) (c : Call) (cs : List Call) {e : String}
    → answer made c ≡ some e
    → run_calls answer made (c ∷ cs) ≡ record { calls = c ∷ made; code = 1 }
unfolding run_calls
run_calls_err answer made c cs e = rw (e, run_calls)

run_calls-code :
    (answer : Answers) (made cs : List Call)
    → ((run_calls answer made cs).code ≡ 0) ↔ Succeed answer made cs
run_calls-code answer made [] = (λ h. tt, λ h. unfold run_calls in refl)
run_calls-code answer made (c ∷ cs) = elim (Option-cases (answer made c)) [
  | inl ok ↦
      let (there, back) = run_calls-code answer (c ∷ made) cs in
      rw (run_calls_ok answer made c cs ok) (λ h. (ok, there h), λ h. back h.1)
  | inr (e, error) ↦ (
    λ h. absurd (
        let code = sym (ap (λ x. x.code) (run_calls_err answer made c cs error)) ∙ h in
        omega arith),
    λ h. absurd (let bad = sym error ∙ h.0 in cc),
  )
]

abbrev pub is_start : Call → Bool
is_start start = true
is_start get_config = false
is_start (new_manager o) = false
is_start add_prober = false
is_start setup_reconciler = false
is_start (add_healthz_check name) = false
is_start (add_readyz_check name) = false

-- `start` is among the calls.
abbrev pub has_start : List Call → Bool
has_start [] = false
has_start (c ∷ cs) = is_start c || has_start cs

neither : (a b : Bool) → (a || b) ≡ false → (a ≡ false) × (b ≡ false)
neither a b h = ground arith

or_false : {a b : Bool} → a ≡ false → b ≡ false → (a || b) ≡ false
or_false {a} {b} e f = ground arith

run_calls_before :
    (answer : Answers) (made cs : List Call)
    → has_start made ≡ false
    → has_start cs ≡ false
    → has_start (run_calls answer made (cs ++ start ∷ [])).calls ≡ true
    → Succeed answer made cs
run_calls_before answer made [] a b h = tt
run_calls_before answer made (c ∷ cs) a b h =
    let (first, rest) = neither (is_start c) (has_start cs) b in
    elim (Option-cases (answer made c)) [
      | inl ok ↦ (
        ok,
        run_calls_before answer (c ∷ made) cs (or_false first a) rest (
            sym (ap (λ x. has_start x.calls) (run_calls_ok answer made c (cs ++ start ∷ []) ok))
            ∙ h),
      )
      | inr (e, error) ↦ absurd (
          clash (or_false first a) (
            sym (ap (λ x. has_start x.calls) (run_calls_err answer made c (cs ++ start ∷ []) error))
            ∙ h))
    ]

-- The calls of `main` before that of `Start`.
abbrev pub preparations : Flags → List Call
preparations flags =
    get_config
    ∷ new_manager (manager_options flags)
    ∷ add_prober
    ∷ setup_reconciler
    ∷ add_healthz_check "healthz"
    ∷ add_readyz_check "readyz"
    ∷ []

-- What follows an answer.
abbrev goes_on : Answers → List Call → List Call → Option String → Exit
goes_on answer made cs none = run_calls answer made cs
goes_on answer made cs (some e) = exit_1 made

run_calls-cons :
    (answer : Answers) (made : List Call) (c : Call) (cs : List Call)
    → run_calls answer made (c ∷ cs) ≡ goes_on answer (c ∷ made) cs (answer made c)
run_calls-cons answer made c cs = elim (Option-cases (answer made c)) [
  | inl ok ↦ run_calls_ok answer made c cs ok ∙ ap (goes_on answer (c ∷ made) cs) (sym ok)
  | inr (e, error) ↦
      run_calls_err answer made c cs error ∙ ap (goes_on answer (c ∷ made) cs) (sym error)
]

after_start_lem :
    (answer : Answers) (made : List Call) (o : Option String)
    → after_start made o ≡ goes_on answer made [] o
unfolding after_start run_calls
after_start_lem answer made none = refl
after_start_lem answer made (some e) = refl

after_readyz_lem :
    (answer : Answers) (made : List Call) (o : Option String)
    → after_readyz answer made o ≡ goes_on answer made (start ∷ []) o
unfolding after_readyz
after_readyz_lem answer made none =
    after_start_lem answer _ _ ∙ sym (run_calls-cons answer made start [])
after_readyz_lem answer made (some e) = refl

after_healthz_lem :
    (answer : Answers) (made : List Call) (o : Option String)
    → after_healthz answer made o ≡ goes_on answer made (add_readyz_check "readyz" ∷ start ∷ []) o
unfolding after_healthz
after_healthz_lem answer made none =
    after_readyz_lem answer _ _ ∙ sym (run_calls-cons answer made _ _)
after_healthz_lem answer made (some e) = refl

abbrev checks : List Call
checks = add_healthz_check "healthz" ∷ add_readyz_check "readyz" ∷ start ∷ []

after_reconciler_lem :
    (answer : Answers) (made : List Call) (o : Option String)
    → after_reconciler answer made o ≡ goes_on answer made checks o
unfolding after_reconciler
after_reconciler_lem answer made none =
    after_healthz_lem answer _ _ ∙ sym (run_calls-cons answer made _ _)
after_reconciler_lem answer made (some e) = refl

after_prober_lem :
    (answer : Answers) (made : List Call) (o : Option String)
    → after_prober answer made o ≡ goes_on answer made (setup_reconciler ∷ checks) o
unfolding after_prober
after_prober_lem answer made none =
    after_reconciler_lem answer _ _ ∙ sym (run_calls-cons answer made _ _)
after_prober_lem answer made (some e) = refl

after_manager_lem :
    (answer : Answers) (made : List Call) (o : Option String)
    → after_manager answer made o ≡ goes_on answer made (add_prober ∷ setup_reconciler ∷ checks) o
unfolding after_manager
after_manager_lem answer made none =
    after_prober_lem answer _ _ ∙ sym (run_calls-cons answer made _ _)
after_manager_lem answer made (some e) = refl

after_config_lem :
    (flags : Flags) (answer : Answers) (made : List Call) (o : Option String)
    → after_config flags answer made o
      ≡ goes_on answer made
          (new_manager (manager_options flags) ∷ add_prober ∷ setup_reconciler ∷ checks)
          o
unfolding after_config
after_config_lem flags answer made none =
    after_manager_lem answer _ _ ∙ sym (run_calls-cons answer made _ _)
after_config_lem flags answer made (some e) = refl

main-run_calls :
    (flags : Flags) (answer : Answers)
    → main flags answer ≡ run_calls answer [] (preparations flags ++ start ∷ [])
unfolding main
main-run_calls flags answer = after_config_lem flags answer _ _ ∙ sym (run_calls-cons answer [] _ _)

-- The program exits with 0 exactly if none of its seven calls is answered with an error, the configuration of the
-- cluster first and `Start` last, and it starts the manager only after the configuration has been read and the
-- manager made, with the prober, the reconciler and both checks, without an error.
pub main_lem :
    (flags : Flags) (answer : Answers)
    → (((main flags answer).code ≡ 0) ↔ Succeed answer [] (preparations flags ++ start ∷ []))
      × (has_start (main flags answer).calls ≡ true → Succeed answer [] (preparations flags))
main_lem flags answer = rw (main-run_calls flags answer) (
  run_calls-code answer [] (preparations flags ++ start ∷ []),
  run_calls_before answer [] (preparations flags) refl refl,
)
