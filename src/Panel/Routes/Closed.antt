-- ===== src/Panel/Routes/Closed.antt =====
-- What the panel lets a request see and change that has no session.
use test_analyst_agent.Common.{
  String, Bool, true, false, ◌≡◌, ◌≢◌, ◌&&◌, Option-cases, refl, sym, Option, none, some, OrderBy,
  arith, inl, inr, eq_iff, str_eq, Bool-cases,
}
use mathlib.Core.Path.{subst}
use test_analyst_agent.Panel.{Response, signed_in, to_login}
use test_analyst_agent.Panel.Routes

-- The reply carries nothing of the store: the form, a way back to it, or the cookie for the password.
pub data Blank (app : Routes.Panel) : Routes.Request → Routes.Reply → Type 0 where
  form : Blank app Routes.get_login (Routes.shows Routes.login_form)
  entered : Blank app (Routes.post_login app.password) (Routes.gives_cookie app.secret)
  wrong :
      {password : String}
      → password ≢ app.password
      → Blank app (Routes.post_login password) Routes.wrong_password
  unreadable :
      {password : String}
      → Blank app (Routes.post_login password) (Routes.acts Response.server_error)
  left : Blank app Routes.post_logout Routes.drops_cookie
  sent_back : {request : Routes.Request} → Blank app request (Routes.acts to_login)

-- A request leaves the state and gets a blank reply.
pub record Closed (app : Routes.Panel) (request : Routes.Request) (state : Routes.State)
    (after : Routes.State × Routes.Reply) : Type 0 where
  pub same : after.0 ≡ state
  pub blank : Blank app request after.1

-- What the constant-time comparison says where it says something.
digest-equal : (a b : String) (c : Bool) → Routes.compare_digest a b ≡ some c → str_eq a b ≡ c
digest-equal a b c h = elim (Bool-cases (Routes.is_ascii a && Routes.is_ascii b)) [
  | inl e ↦ bit_inj (str_eq a b) c (rw e at h)
  | inr e ↦ absurd (empty_apart c (rw e at h))
]
  where
    bit_inj : (x y : Bool) → some x ≡ some y → x ≡ y
    bit_inj x y h = cc

    empty_apart : (y : Bool) → none ≡ some y → ⊥
    empty_apart y h = cc

login-Blank :
    (app : Routes.Panel) (password : String)
    → Blank app (Routes.post_login password) (Routes.login app password)
unfolding Routes.login
login-Blank app password =
    let digest = Routes.compare_digest password app.password in
    elim (Option-cases digest) [
      | inl e ↦ rw e unreadable
      | inr (true, e) ↦
          let own = (eq_iff password app.password).0 (digest-equal password app.password true e) in
          rw e (
            subst (λ p. Blank app (Routes.post_login p) (Routes.gives_cookie app.secret)) (sym own)
              entered)
      | inr (false, e) ↦
          let other = digest-equal password app.password false e in
          rw e (wrong (λ same. absurd (apart ((eq_iff password app.password).1 same) other)))
    ]
  where
    apart : {b : Bool} → b ≡ true → b ≡ false → ⊥
    apart a b = ground arith

module _ (orders : (A : Type 0) → OrderBy A) where
  -- A request without the cookie of the session changes nothing, neither the store nor the candidates, and
  -- is shown nothing of them: it gets the form for the password, is sent back to it, or gets the cookie
  -- where it sends the panel's own password.
  pub handle-Closed :
      (app : Routes.Panel) (meeting : Routes.Meeting) (cookie : Option String)
      (request : Routes.Request) (state : Routes.State)
      → signed_in (record { cookie = cookie; secret = app.secret }) ≡ false
      → Closed app request state (Routes.handle orders app meeting cookie request state)
  unfolding Routes.handle
  handle-Closed app meeting cookie Routes.get_login (s, f) h = record { same = refl; blank = form }
  handle-Closed app meeting cookie (Routes.post_login password) (s, f) h = record {
    same = refl;
    blank = login-Blank app password;
  }
  handle-Closed app meeting cookie Routes.post_logout (s, f) h = record {
    same = refl;
    blank = left;
  }
  handle-Closed app meeting cookie Routes.get_queue (s, f) h =
      rw h (record { same = refl; blank = sent_back })
  handle-Closed app meeting cookie Routes.get_queue_rows (s, f) h =
      rw h (record { same = refl; blank = sent_back })
  handle-Closed app meeting cookie (Routes.post_approve id by note) (s, f) h =
      rw h (record { same = refl; blank = sent_back })
  handle-Closed app meeting cookie (Routes.post_reject id by note) (s, f) h =
      rw h (record { same = refl; blank = sent_back })
  handle-Closed app meeting cookie (Routes.post_amend id sql by note) (s, f) h =
      rw h (record { same = refl; blank = sent_back })
  handle-Closed app meeting cookie Routes.get_history (s, f) h =
      rw h (record { same = refl; blank = sent_back })
  handle-Closed app meeting cookie (Routes.get_one id) (s, f) h =
      rw h (record { same = refl; blank = sent_back })
  handle-Closed app meeting cookie Routes.get_limits (s, f) h =
      rw h (record { same = refl; blank = sent_back })
  handle-Closed app meeting cookie (Routes.post_grant user extra reason) (s, f) h =
      rw h (record { same = refl; blank = sent_back })
  handle-Closed app meeting cookie (Routes.post_policy key value by reason) (s, f) h =
      rw h (record { same = refl; blank = sent_back })
  handle-Closed app meeting cookie Routes.get_evals (s, f) h =
      rw h (record { same = refl; blank = sent_back })
  handle-Closed app meeting cookie (Routes.post_candidate id by) (s, f) h =
      rw h (record { same = refl; blank = sent_back })
