-- ===== src/Evals/Runner/Written.antt =====
-- The report that run_reference.py writes.
use test_analyst_agent.Common.{
  String, Bool, false, ◌≡◌, ◌⊎◌, refl, sym, ap, ◌∙◌, Option, none, some, List, [], ◌∷◌, ◌++◌, inl,
  inr, Bool-cases,
}
use mathlib.Core.Path.{subst}
use mathlib.Core.List.{append_assoc, append-nil}
use test_analyst_agent.Evals.Bridge.{Recording}
use test_analyst_agent.Evals.Runner.{
  Item, World, Told, Asked, told, timed_out, RunEntry, Body, ran, stopped, raised, after_timeout,
  is_broken, aborted_entry, followed, with_waiting, with_state, waiting_ids, approved_by_runner,
  body, run_items, run_main, chosen, with_items,
}

-- A file is written behind the first entry.
abbrev pub written : List RunEntry → Option (List RunEntry)
written [] = none
written (e ∷ es) = some (e ∷ es)

Body-cases :
    (b : Body)
    → ((e : RunEntry) × (b ≡ ran e)) ⊎ (((e : RunEntry) × (b ≡ stopped e)) ⊎ (b ≡ raised))
Body-cases (ran e) = inl (e, refl)
Body-cases (stopped e) = inr (inl (e, refl))
Body-cases raised = inr (inr refl)

written-more : (es : List RunEntry) (e : RunEntry) → some (es ++ e ∷ []) ≡ written (es ++ e ∷ [])
written-more [] e = refl
written-more (x ∷ es) e = refl

module _ (w : World) (pressure : Bool) where
  -- The entries of the questions up to the first one that breaks the run or raises.
  unfoldable pub ran_entries : List Item → List RunEntry
  unfolding body
  ran_entries [] = []
  ran_entries (item ∷ items) =
      let rest = ran_entries items in elim (body w pressure item) [ ran e ↦ e ∷ rest | _ ↦ [] ]

  at_ran :
      (item : Item) (items : List Item) (e : RunEntry)
      → body w pressure item ≡ ran e
      → ran_entries (item ∷ items) ≡ e ∷ ran_entries items
  unfolding ran_entries
  at_ran item items e h = rw (h, ran_entries) refl

  at_stopped :
      (item : Item) (items : List Item) (e : RunEntry)
      → body w pressure item ≡ stopped e
      → ran_entries (item ∷ items) ≡ []
  unfolding ran_entries
  at_stopped item items e h = rw (h, ran_entries) refl

  at_raised :
      (item : Item) (items : List Item)
      → body w pressure item ≡ raised
      → ran_entries (item ∷ items) ≡ []
  unfolding ran_entries
  at_raised item items h = rw (h, ran_entries) refl

  run_items-Written :
      (items : List Item) (runs : List RunEntry) (file : Option (List RunEntry))
      → file ≡ written runs
      → (run_items w pressure items runs file).0 ≡ written (runs ++ ran_entries items)
  unfolding run_items
  run_items-Written [] runs file h = unfold ran_entries in h ∙ ap written (sym (append-nil runs))
  run_items-Written (item ∷ items) runs file h = elim (Body-cases (body w pressure item)) [
    | inl (e, r) ↦ rw (at_ran item items e r) (
        rw (r, run_items)
          (run_items-Written items (runs ++ e ∷ []) (some (runs ++ e ∷ [])) (written-more runs e)
            ∙ ap written (append_assoc runs (e ∷ []) (ran_entries items))))
    | inr (inl (e, r)) ↦
        rw (at_stopped item items e r) (rw (r, run_items) (h ∙ ap written (sym (append-nil runs))))
    | inr (inr r) ↦
        rw (at_raised item items r) (rw (r, run_items) (h ∙ ap written (sym (append-nil runs))))
  ]

  -- An entry of a question that was not given up.
  abbrev Whole : Item → Body → Type 0
  Whole item (ran e) = (e.item ≡ item) × (e.aborted ≡ false)
  Whole item (stopped e) = Unit
  Whole item raised = Unit

  followed-Whole :
      (item : Item) (t : Told) (second : Asked) (recording : Option Recording)
      → Whole item (followed item t second recording)
  followed-Whole item t timed_out recording = tt
  followed-Whole item t (told second) none = tt
  followed-Whole item t (told second) (some recording) = (refl, refl)

  waiting-Whole :
      (item : Item) (t : Told) (recording : Recording) (ids : List String)
      → Whole item (with_waiting w pressure item t recording ids)
  waiting-Whole item t recording [] = (refl, refl)
  waiting-Whole item t recording (id ∷ ids) =
      followed-Whole item t (w.asked_again item (id ∷ ids)) (w.since_again item)

  state-Whole :
      (item : Item) (t : Told) (o : Option Recording) → Whole item (with_state w pressure item t o)
  state-Whole item t none = tt
  state-Whole item t (some recording) =
      waiting-Whole item t recording
        (waiting_ids (approved_by_runner w pressure item) recording.proposals)

  body-Whole : (item : Item) → Whole item (body w pressure item)
  unfolding body
  body-Whole item =
      let t = after_timeout w.timeout (w.asked item) in
      elim (Bool-cases (is_broken t)) [
        | inl e ↦ rw e tt
        | inr e ↦ rw e (state-Whole item t (w.since item))
      ]

  -- Entries of the first questions in their order, none of them aborted.
  abbrev pub FirstOf : List Item → List RunEntry → Type 0
  FirstOf items [] = Unit
  FirstOf [] (e ∷ es) = ⊥
  FirstOf (item ∷ items) (e ∷ es) = (e.item ≡ item) × (e.aborted ≡ false) × FirstOf items es

  ran-FirstOf : (items : List Item) → FirstOf items (ran_entries items)
  ran-FirstOf [] = unfold ran_entries in tt
  ran-FirstOf (item ∷ items) = elim (Body-cases (body w pressure item)) [
    | inl (e, r) ↦
        let (own, whole) = subst (Whole item) r (body-Whole item) in
        rw (at_ran item items e r) (own, whole, ran-FirstOf items)
    | inr (inl (e, r)) ↦ rw (at_stopped item items e r) tt
    | inr (inr r) ↦ rw (at_raised item items r) tt
  ]

  -- The report's file at the end of a run.
  pub record Report (items : List Item) (file : Option (List RunEntry)) : Type 0 where
    pub holds : file ≡ written (ran_entries items)
    pub first : FirstOf items (ran_entries items)

  with_items-Report : (items : List Item) → Report items (with_items w pressure items).0
  with_items-Report [] = unfold ran_entries in record { holds = refl; first = tt }
  with_items-Report (item ∷ items) = record {
    holds = run_items-Written (item ∷ items) [] none refl;
    first = ran-FirstOf (item ∷ items);
  }

  -- The report that a run writes holds the entries of its questions up to the first one that breaks the
  -- run or ends it with an exception, in their order, and no aborted one; where it has none there is no
  -- file.
  pub run_main-Report :
      (only : Option String) (items : List Item)
      → Report (chosen w pressure only items) (run_main w pressure only items).0
  unfolding run_main
  run_main-Report only items = with_items-Report (chosen w pressure only items)

  cut_at :
      (before after : List Item) (item : Item) (e : RunEntry)
      → body w pressure item ≡ stopped e
      → ran_entries (before ++ item ∷ after) ≡ ran_entries before
  cut_at [] after item e h = at_stopped item after e h ∙ unfold ran_entries in refl
  cut_at (x ∷ before) after item e h = elim (Body-cases (body w pressure x)) [
    | inl (e', r) ↦
        rw (at_ran x (before ++ item ∷ after) e' r, at_ran x before e' r)
          (ap (λ l. e' ∷ l) (cut_at before after item e h))
    | inr (inl (e', r)) ↦
        rw (at_stopped x (before ++ item ∷ after) e' r, at_stopped x before e' r) refl
    | inr (inr r) ↦ rw (at_raised x (before ++ item ∷ after) r, at_raised x before r) refl
  ]

  timed_out-stopped :
      (item : Item)
      → w.asked item ≡ timed_out
      → body w pressure item ≡ stopped (aborted_entry item (after_timeout w.timeout timed_out))
  unfolding body
  timed_out-stopped item h = rw h refl

  -- A question for which the agent's first turn times out ends the run: the report holds no entry of it, and
  -- none of the questions behind it, whatever would come of these.
  pub run_main-timed_out :
      (before after : List Item) (item : Item)
      → w.asked item ≡ timed_out
      → (run_main w pressure none (before ++ item ∷ after)).0 ≡ written (ran_entries before)
  unfolding run_main
  run_main-timed_out before after item h =
      (with_items-Report (before ++ item ∷ after)).holds
      ∙ ap written (cut_at before after item _ (timed_out-stopped item h))
