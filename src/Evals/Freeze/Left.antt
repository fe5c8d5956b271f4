-- ===== src/Evals/Freeze/Left.antt =====
-- The files that a run of freeze_gold.py leaves, whatever ends it.
use test_analyst_agent.Common.{
  ℕ, String, Bool, true, false, ◌≡◌, ◌⊎◌, refl, sym, ◌∙◌, Option, some, List, [], ◌∷◌, ◌++◌, Memᴰ,
  inl, inr, Bool-cases, get-put, eq_iff, str_eq, if◌then◌else◌,
}
use test_analyst_agent.Database.{Cursor}
use test_analyst_agent.Common.Int.{ℤ}
use test_analyst_agent.Guards.Parser.{Parser}
use test_analyst_agent.Guards.Checks.{Guards}
use test_analyst_agent.Evals.Dataset.{Question}
use test_analyst_agent.Evals.Expected.{FrozenResult, Files, save_frozen, load_frozen}
use test_analyst_agent.Evals.Freeze.{
  Attempt, frozen, failed, raised, Failure, broken_off, freeze_one, freeze_all,
}
use test_analyst_agent.Evals.Freeze.Frozen.{Gold, freeze_one-Gold}

pub if-true : {A : Type 0} {b : Bool} (x y : A) → b ≡ true → (if b then x else y) ≡ x
if-true x y e = rw e refl

pub if-false : {A : Type 0} {b : Bool} (x y : A) → b ≡ false → (if b then x else y) ≡ y
if-false x y e = rw e refl

pub load-save :
    (id : String) (r : FrozenResult) (files : Files)
    → load_frozen id (save_frozen r files)
      ≡ (if str_eq r.question_id id then some r else load_frozen id files)
unfolding load_frozen save_frozen
load-save id r files = get-put r.question_id id r files

pub Attempt-cases :
    (a : Attempt)
    → ((r : FrozenResult) × (a ≡ frozen r)) ⊎ (((f : Failure) × (a ≡ failed f)) ⊎ (a ≡ raised))
Attempt-cases (frozen r) = inl (r, refl)
Attempt-cases (failed f) = inr (inl (f, refl))
Attempt-cases raised = inr (inr refl)

module _ (digest : String → String) (P : Parser) (g : Guards) (answer : String → Cursor)
    (took : String → ℕ) (stamp : String → String) (float_of : String → Option ℤ)
    (as_of : Option String) where
  pub at_frozen :
      (q : Question) (qs : List Question) (files : Files) (fs : List Failure) (r : FrozenResult)
      → freeze_one digest P g answer took stamp float_of as_of q ≡ frozen r
      → freeze_all digest P g answer took stamp float_of as_of (q ∷ qs) files fs
        ≡ freeze_all digest P g answer took stamp float_of as_of qs (save_frozen r files) fs
  unfolding freeze_all
  at_frozen q qs files fs r e = rw (e, freeze_all) refl

  pub at_failed :
      (q : Question) (qs : List Question) (files : Files) (fs : List Failure) (f : Failure)
      → freeze_one digest P g answer took stamp float_of as_of q ≡ failed f
      → freeze_all digest P g answer took stamp float_of as_of (q ∷ qs) files fs
        ≡ freeze_all digest P g answer took stamp float_of as_of qs files (fs ++ f ∷ [])
  unfolding freeze_all
  at_failed q qs files fs f e = rw (e, freeze_all) refl

  pub at_raised :
      (q : Question) (qs : List Question) (files : Files) (fs : List Failure)
      → freeze_one digest P g answer took stamp float_of as_of q ≡ raised
      → freeze_all digest P g answer took stamp float_of as_of (q ∷ qs) files fs
        ≡ (files, broken_off)
  unfolding freeze_all
  at_raised q qs files fs e = rw (e, freeze_all) refl

  -- A file with the result of a question's own query.
  abbrev pub OfQuestion : String → List Question → Option FrozenResult → Type 0
  OfQuestion id qs file =
      (q : Question) × Memᴰ q qs
      × (q.id ≡ id)
      × (r : FrozenResult) × (file ≡ some r)
      × Gold digest P g answer took stamp float_of as_of q r

  after-OfQuestion :
      (id : String) (q : Question) (qs : List Question) {file : Option FrozenResult}
      → OfQuestion id qs file
      → OfQuestion id (q ∷ qs) file
  after-OfQuestion id q qs (q', m, e, r, l, gold) = (q', Memᴰ.tail m, e, r, l, gold)

  pub freeze_all-Left :
      (id : String) (qs : List Question) (files : Files) (fs : List Failure)
      → (load_frozen id (freeze_all digest P g answer took stamp float_of as_of qs files fs).0
          ≡ load_frozen id files)
        ⊎ OfQuestion id qs
            (load_frozen id (freeze_all digest P g answer took stamp float_of as_of qs files fs).0)
  freeze_all-Left id [] files fs = unfold freeze_all in inl refl
  freeze_all-Left id (q ∷ qs) files fs =
      elim (Attempt-cases (freeze_one digest P g answer took stamp float_of as_of q)) [
        | inl (r, e) ↦
            rw (at_frozen q qs files fs r e)
              (elim (freeze_all-Left id qs (save_frozen r files) fs) [
                | inl same ↦ elim (Bool-cases (str_eq r.question_id id)) [
                  | inl own ↦
                      let gold =
                        freeze_one-Gold digest P g answer took stamp float_of as_of q r e in
                      inr (
                        q,
                        Memᴰ.head refl,
                        sym gold.own_id ∙ (eq_iff r.question_id id).0 own,
                        r,
                        same ∙ load-save id r files ∙ if-true _ _ own,
                        gold,
                      )
                  | inr other ↦ inl (same ∙ load-save id r files ∙ if-false _ _ other)
                ]
                | inr found ↦ inr (after-OfQuestion id q qs found)
              ])
        | inr (inl (f, e)) ↦
            rw (at_failed q qs files fs f e) (elim (freeze_all-Left id qs files (fs ++ f ∷ [])) [
              | inl same ↦ inl same
              | inr found ↦ inr (after-OfQuestion id q qs found)
            ])
        | inr (inr e) ↦ rw (at_raised q qs files fs e) (inl refl)
      ]
