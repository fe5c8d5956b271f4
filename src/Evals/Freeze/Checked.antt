-- ===== src/Evals/Freeze/Checked.antt =====
-- main of freeze_gold.py: what it leaves, and its `--check` after it.
use test_analyst_agent.Common.{
  ℕ, arith, String, true, false, ◌≡◌, ◌⊎◌, refl, ap, Option, none, some, List, [], ◌∷◌, Memᴰ, inl,
  inr, Bool-cases, str_eq, keep-Mem,
}
use mathlib.Core.Path.{subst}
use test_analyst_agent.Database.{Cursor}
use test_analyst_agent.Common.Int.{ℤ}
use test_analyst_agent.Guards.Parser.{Parser}
use test_analyst_agent.Guards.Checks.{Guards}
use test_analyst_agent.Evals.Dataset.{Question, answerable_of}
use test_analyst_agent.Evals.Dataset.Valid.{Found}
use test_analyst_agent.Evals.Expected.{Files, load_frozen}
use test_analyst_agent.Evals.Freeze.{
  Args, End, ended, broken_off, chosen, is_none_chosen, exit_after, freeze_all, freeze_main,
}
use test_analyst_agent.Evals.Freeze.Left.{OfQuestion, freeze_all-Left}
use test_analyst_agent.Evals.Freeze.Fresh.{Fresh, Fresh-check, freeze_all-Fresh}

chosen-Mem :
    (only : Option String) (qs : List Question) (q : Question) → Memᴰ q (chosen only qs) → Memᴰ q qs
chosen-Mem none qs q m = m
chosen-Mem (some id) qs q m = elim (Bool-cases (str_eq id "")) [
  | inl e ↦ rw e at m
  | inr e ↦ (keep-Mem _ q qs (rw e at m)).0
]

chosen_there :
    (only : Option String) (dataset : List Question) (q : Question)
    → Memᴰ q (chosen only (answerable_of dataset))
    → Memᴰ q dataset
chosen_there only dataset q m =
    (keep-Mem _ q dataset (chosen-Mem only (answerable_of dataset) q m)).0

module _ (digest : String → String) (P : Parser) (g : Guards) (answer : String → Cursor)
    (took : String → ℕ) (stamp : String → String) (float_of : String → Option ℤ)
    (as_of : Option String) where
  -- Where no write of a file fails and no conversion of a cell raises: however else freeze_gold.py ends,
  -- every file of the gold answers is as it was, or holds the result of a question of its id: of a query
  -- that the guard rails accept, with a row at least and all of the rows that the database has for it,
  -- at most 1000, each cell in its plain form.
  pub freeze_main-Left :
      (args : Args) (dataset : List Question) (files : Files) (id : String)
      → (load_frozen id
            (freeze_main digest P g answer took stamp float_of as_of args dataset files).0
          ≡ load_frozen id files)
        ⊎ OfQuestion digest P g answer took stamp float_of as_of id dataset (
            load_frozen id
              (freeze_main digest P g answer took stamp float_of as_of args dataset files).0)
  unfolding freeze_main
  freeze_main-Left args dataset files id =
      let qs = chosen args.only (answerable_of dataset) in
      elim (Bool-cases (is_none_chosen args.only qs)) [
        | inl e ↦ rw e (inl refl)
        | inr e ↦ elim (Bool-cases args.check_only) [
          | inl c ↦ rw (e, c) (inl refl)
          | inr c ↦
              rw (e, c)
                (elim (freeze_all-Left digest P g answer took stamp float_of as_of id qs files []) [
                  | inl same ↦ inl same
                  | inr (q, m, own, r, there, gold) ↦
                      inr (q, chosen_there args.only dataset q m, own, r, there, gold)
                ])
        ]
      ]

  two_apart : ◌≡◌ {A = Option ℕ} (some 2) (some 0) → ⊥
  two_apart h = ground arith

  exit_zero :
      (e : End) → exit_after digest P g answer took stamp float_of as_of e ≡ some 0 → e ≡ ended []
  exit_zero (ended []) h = refl
  exit_zero (ended (f ∷ fs)) h = cc
  exit_zero broken_off h = cc

  -- After a run that freezes every answerable question, or the chosen one, with exit code 0, `--check`
  -- of the same questions exits with 0 and leaves the files, if no two questions share an id.
  pub freeze_main-Checked :
      (only : Option String) (dataset : List Question) (files files' : Files)
      → Found dataset
      → freeze_main digest P g answer took stamp float_of as_of
          (record { only = only; check_only = false })
          dataset
          files
        ≡ (files', some 0)
      → freeze_main digest P g answer took stamp float_of as_of
          (record { only = only; check_only = true })
          dataset
          files'
        ≡ (files', some 0)
  unfolding freeze_main
  freeze_main-Checked only dataset files files' found h =
      let qs = chosen only (answerable_of dataset) in
      let all = freeze_all digest P g answer took stamp float_of as_of qs files [] in
      elim (Bool-cases (is_none_chosen only qs)) [
        | inl e ↦ absurd (two_apart (ap (λ (p : Files × Option ℕ). p.1) (rw e at h)))
        | inr e ↦
            let h' : (all.0, exit_after digest P g answer took stamp float_of as_of all.1)
                ≡ (files', some 0) =
              rw e at h in
            let left = ap (λ (p : Files × Option ℕ). p.0) h' in
            let end = exit_zero all.1 (ap (λ (p : Files × Option ℕ). p.1) h') in
            let fresh = freeze_all-Fresh digest P g answer took stamp float_of as_of dataset qs in
            rw e (
              ap (λ n. (files', some n))
                (Fresh-check digest qs files' (λ q m.
                  subst (λ f. Fresh digest f q) left
                    (fresh q files [] found (chosen_there only dataset)
                      (chosen_there only dataset q m) end (inl m)))))
      ]
