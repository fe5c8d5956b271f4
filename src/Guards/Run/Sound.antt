-- ===== src/Guards/Run/Sound.antt =====
-- A query that passes `Guards.check`.
use test_analyst_agent.Common.{
  ◌≡◌, refl, sym, ap, ◌∙◌, ℕ, suc, ◌≤◌, String, true, false, not, ◌&&◌, Option, none, some, List,
  [], ◌∷◌, any, all, ltb, is_in, str_eq, strip_statement, arith, inl, inr, Bool-cases,
}
use mathlib.Core.Path.{subst}
use test_analyst_agent.Guards.Verdict.{Verdict}
use test_analyst_agent.Guards.Parser.{Parser, Parsing, statements, parse_error, token_error}
use test_analyst_agent.Guards.Checks.{
  Guards, has_dot, limit_value, make_limit, read_only, one_query, parsed, present, allowlist,
  used_tables, used_columns, masking_ok, joins_ok, lacking, ReadOnly, reads, fails, raises,
}
use test_analyst_agent.Guards.Run.{
  check, row_limit, cut, limited_at, is_required, default_filters, with_statement, with_resolved,
  verdict_of,
}

module _ (P : Parser) (g : Guards) where
  open P use {
    Expression, is_query, is_write, walk, limit_of, set_limit, limit_of-set_limit, print, qualify,
    parse,
  }

  -- How a statement that is to run comes from the one that was checked, with the row limit reported:
  -- it is the same one, whose own row limit is a number within `max_rows`, whatever its options are; or
  -- that one has no such number, and FETCH FIRST max_rows ROWS ONLY is put in the place of its limit.
  pub data LimitedFrom (e limited : Expression) (n : ℕ) : Type 0 where
    kept :
        limited ≡ e → limit_value (limit_of e) ≡ some n → n ≤ g.max_rows → LimitedFrom e limited n
    replaced :
        ((m : ℕ) → limit_value (limit_of e) ≡ some m → suc g.max_rows ≤ m)
        → limited ≡ set_limit (make_limit g.max_rows) e
        → limit_of limited ≡ some (make_limit g.max_rows)
        → n ≡ g.max_rows
        → LimitedFrom e limited n

  cut-LimitedFrom :
      (e : Expression)
      → ((m : ℕ) → limit_value (limit_of e) ≡ some m → suc g.max_rows ≤ m)
      → LimitedFrom e (cut P g e).statement g.max_rows
  cut-LimitedFrom e big = replaced big refl (limit_of-set_limit (make_limit g.max_rows) e) refl

  limited_at-LimitedFrom :
      (e : Expression) (o : Option ℕ)
      → limit_value (limit_of e) ≡ o
      → let l = limited_at P g e o in LimitedFrom e l.statement l.row_limit
  limited_at-LimitedFrom e none h = cut-LimitedFrom e (λ m h'. absurd (nothing m (sym h ∙ h')))
    where
      nothing : (m : ℕ) → none ≡ some m → ⊥
      nothing m q = cc
  limited_at-LimitedFrom e (some n) h = elim (Bool-cases (ltb g.max_rows n)) [
    | inl big ↦ rw big (cut-LimitedFrom e (λ m h'. above m (sym h ∙ h') big))
    | inr small ↦ rw small (kept refl h (ground arith))
  ]
    where
      above : (m : ℕ) → some n ≡ some m → ltb g.max_rows n ≡ true → suc g.max_rows ≤ m
      above m q big = ground arith

  row_limit-LimitedFrom :
      (e : Expression) → let l = row_limit P g e in LimitedFrom e l.statement l.row_limit
  unfolding row_limit
  row_limit-LimitedFrom e = limited_at-LimitedFrom e (limit_value (limit_of e)) refl

  -- One query and nothing that writes.
  pub record Reads (sql : String) (e : Expression) : Type 0 where
    pub found : List (Option Expression)
    pub parses : parse (strip_statement sql) ≡ statements found
    pub alone : present P g found ≡ e ∷ []
    pub queries : is_query e ≡ true
    pub harmless : any is_write (walk e) ≡ false

  -- Every table is of the dictionary, and the columns resolve.
  pub record Allowed (e resolved : Expression) : Type 0 where
    pub schemas : all has_dot (used_tables P g e) ≡ true
    pub known : all (λ t. is_in t g.allowed) (used_tables P g e) ≡ true
    pub resolves : qualify g.schema e ≡ some resolved

  pub record Harmless (resolved : Expression) : Type 0 where
    pub unmasked : any (λ c. is_in c g.masked) (used_columns P g resolved) ≡ false
    pub joined : joins_ok P g resolved ≡ true
    pub filtered : lacking P g is_required resolved ≡ false

  -- The statement of an accepted text, and the text that is to run.
  pub record Accepted (sql : String) (v : Verdict) : Type 0 where
    pub statement : Expression
    pub resolved : Expression
    pub reads : Reads sql statement
    pub allowed : Allowed statement resolved
    pub harmless : Harmless resolved
    pub limited : Expression
    pub rows : ℕ
    pub printed : v.sql ≡ print limited
    pub row_limit : v.row_limit ≡ some rows
    pub cut_from : LimitedFrom statement limited rows

  one_query-Reads :
      (sql : String) (found : List (Option Expression)) (es : List Expression) (e : Expression)
      → parse (strip_statement sql) ≡ statements found
      → present P g found ≡ es
      → one_query P g es ≡ reads e
      → Reads sql e
  one_query-Reads sql found [] e p q h = absurd (ground arith)
  one_query-Reads sql found (x ∷ y ∷ es) e p q h = absurd (ground arith)
  one_query-Reads sql found (x ∷ []) e p q h =
      elim (Bool-cases (is_query x && not (any is_write (walk x)))) [
        | inl good ↦
            let same : x ≡ e = ground arith in
            record {
              found = found;
              parses = p;
              alone = q ∙ ap (λ y. y ∷ []) same;
              queries = ap is_query (sym same) ∙ ground arith;
              harmless = ap (λ y. any is_write (walk y)) (sym same) ∙ ground arith;
            }
        | inr bad ↦ absurd (ground arith)
      ]

  parsed-Reads :
      (sql : String) (o : Parsing Expression) (e : Expression)
      → parse (strip_statement sql) ≡ o
      → parsed P g o ≡ reads e
      → Reads sql e
  parsed-Reads sql parse_error e p h = absurd (ground arith)
  parsed-Reads sql token_error e p h = absurd (ground arith)
  parsed-Reads sql (statements found) e p h =
      one_query-Reads sql found (present P g found) e p refl h

  read_only-Reads : (sql : String) (e : Expression) → read_only P g sql ≡ reads e → Reads sql e
  unfolding read_only
  read_only-Reads sql e h = elim (Bool-cases (str_eq (strip_statement sql) "")) [
    | inl blank ↦ absurd (ground arith)
    | inr text ↦ parsed-Reads sql (parse (strip_statement sql)) e refl (rw text at h)
  ]

  allowlist-Allowed : (e r : Expression) → allowlist P g e ≡ some r → Allowed e r
  unfolding allowlist
  allowlist-Allowed e r h =
      elim (Bool-cases
        (all has_dot (used_tables P g e) && all (λ t. is_in t g.allowed) (used_tables P g e))) [
          | inl good ↦ record {
            schemas = ground arith;
            known = ground arith;
            resolves = rw good at h;
          }
          | inr bad ↦ absurd (ground arith)
        ]

  verdict_of-Harmless :
      (statement resolved : Expression)
      → (verdict_of P g statement resolved).ok ≡ true
      → Harmless resolved
  unfolding default_filters masking_ok
  verdict_of-Harmless statement resolved h = record {
    unmasked = ground arith;
    joined = ground arith;
    filtered = ground arith;
  }

  with_resolved-Accepted :
      (sql : String) (e : Expression) (o : Option Expression)
      → Reads sql e
      → allowlist P g e ≡ o
      → (with_resolved P g sql e o).ok ≡ true
      → Accepted sql (with_resolved P g sql e o)
  with_resolved-Accepted sql e none p q h = absurd (ground arith)
  with_resolved-Accepted sql e (some r) p q h = record {
    statement = e;
    resolved = r;
    reads = p;
    allowed = allowlist-Allowed e r q;
    harmless = verdict_of-Harmless e r h;
    limited = (row_limit P g e).statement;
    rows = (row_limit P g e).row_limit;
    printed = refl;
    row_limit = refl;
    cut_from = row_limit-LimitedFrom e;
  }

  with_statement-Accepted :
      (sql : String) (o : ReadOnly Expression) (v : Verdict)
      → read_only P g sql ≡ o
      → with_statement P g sql o ≡ some v
      → v.ok ≡ true
      → Accepted sql v
  with_statement-Accepted sql fails v q e h = absurd (ground arith)
  with_statement-Accepted sql raises v q e h = cc
  with_statement-Accepted sql (reads x) v q e h =
      let same : with_resolved P g sql x (allowlist P g x) ≡ v = cc in
      subst (Accepted sql) same (
        with_resolved-Accepted sql x (allowlist P g x) (read_only-Reads sql x q) refl
          (ap (λ (w : Verdict). w.ok) same ∙ h))

  -- A text whose verdict is ok is one query in which nothing writes; its tables carry a schema and are
  -- of the dictionary; its columns resolve and none is masked; its joins are declared; no table
  -- lacks a required filter; and what is to run is the print of that query, where the count of its own
  -- row limit is a number within `max_rows`, or else of that query with FETCH FIRST max_rows ROWS ONLY in
  -- the place of its limit. The limit reported is that count; the options of a limit that is kept,
  -- PERCENT and WITH TIES, are not looked at.
  pub check-Accepted :
      (sql : String) (v : Verdict) → check P g sql ≡ some v → v.ok ≡ true → Accepted sql v
  unfolding check
  check-Accepted sql v e h = with_statement-Accepted sql (read_only P g sql) v refl e h
