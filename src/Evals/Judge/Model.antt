-- ===== src/Evals/Judge/Model.antt =====
-- judge_with_model of judge.py, from the body that the network gives back. The prompt that it sends is
-- not modelled.
use test_analyst_agent.Common.{
  String, Bool, Option, none, some, List, [], ◌∷◌, str_eq, if◌then◌else◌,
}
use test_analyst_agent.Evals.Compare.Values.{Floats}

-- What json.loads makes of a text. A field that a text names twice counts once, with its last value:
-- `fields` has each name once.
mutual
  pub data Json (Float : Type 0) : Type 0 where
    null : Json Float
    boolean : Bool → Json Float
    number : Float → Json Float
    text : String → Json Float
    array : Items Float → Json Float
    object : Fields Float → Json Float

  pub data Items (Float : Type 0) : Type 0 where
    nil : Items Float
    cons : Json Float → Items Float → Items Float

  pub data Fields (Float : Type 0) : Type 0 where
    end : Fields Float
    field : String → Json Float → Fields Float → Fields Float

-- A request: no key or no usable answer (URLError, TimeoutError, JSONDecodeError), or a body.
pub data Reply (Float : Type 0) : Type 0 where
  no_key : Reply Float
  no_answer : Reply Float
  body : Json Float → Reply Float

-- JudgeUnavailable, which `judge` catches, or any other exception, which it does not.
pub data Fault : Type 0 where
  unavailable crash : Fault

pub data Judged {ℓ} (A : Type ℓ) : Type ℓ where
  judged : A → Judged A
  fault : Fault → Judged A

abbrev pub and_then {ℓ κ} : {A : Type ℓ} {B : Type κ} → Judged A → (A → Judged B) → Judged B
and_then (judged a) f = f a
and_then (fault e) f = fault e

module _ (F : Floats) (loads : String → Option (Json F.Float)) where
  open F use {Float, of_text, nought}

  abbrev pub lookup : String → Fields Float → Option (Json Float)
  lookup k end = none
  lookup k (field j v fs) = if str_eq j k then some v else lookup k fs

  abbrev found_or : Fault → Option (Json Float) → Judged (Json Float)
  found_or e none = fault e
  found_or e (some j) = judged j

  -- j[k] for a text: a KeyError is caught, a TypeError is not
  abbrev pub at_key : String → Json Float → Judged (Json Float)
  at_key k (object fs) = found_or unavailable (lookup k fs)
  at_key k j = fault crash

  abbrev first_char : String → Judged (Json Float)
  first_char String.[] = fault unavailable
  first_char (String.◌∷◌ c s) = judged (text (String.◌∷◌ c String.[]))

  -- j[0]
  abbrev pub at_first : Json Float → Judged (Json Float)
  at_first (array nil) = fault unavailable
  at_first (array (cons j rest)) = judged j
  at_first (object fs) = fault unavailable
  at_first (text s) = first_char s
  at_first j = fault crash

  abbrev parse : Json Float → Judged (Json Float)
  parse (text s) = found_or unavailable (loads s)
  parse j = fault crash

  abbrev or_default : Json Float → Option (Json Float) → Json Float
  or_default d none = d
  or_default d (some j) = j

  -- float(x) of a parsed value
  abbrev float_of : (Bool → Float) → Json Float → Judged Float
  float_of of_bool (number x) = judged x
  float_of of_bool (boolean b) = judged (of_bool b)
  float_of of_bool (text s) = elim (of_text s) [ none ↦ fault crash | some x ↦ judged x ]
  float_of of_bool j = fault crash

  abbrev text_of : Json Float → Judged String
  text_of (text s) = judged s
  text_of j = fault crash

  abbrev cons_text : Judged String → Judged (List String) → Judged (List String)
  cons_text (fault e) rest = fault e
  cons_text (judged s) (fault e) = fault e
  cons_text (judged s) (judged rest) = judged (s ∷ rest)

  abbrev items_of : Items Float → Judged (List String)
  items_of nil = judged []
  items_of (cons j rest) = cons_text (text_of j) (items_of rest)

  abbrev names_of : Fields Float → List String
  names_of end = []
  names_of (field k v fs) = k ∷ names_of fs

  abbrev chars_of : String → List String
  chars_of String.[] = []
  chars_of (String.◌∷◌ c s) = String.◌∷◌ c String.[] ∷ chars_of s

  -- list(x), whose members are to be texts: `judge` joins them, or hands them to a list[str]
  abbrev texts_of : Json Float → Judged (List String)
  texts_of (array items) = items_of items
  texts_of (text s) = judged (chars_of s)
  texts_of (object fs) = judged (names_of fs)
  texts_of j = fault crash

  pub record Opinion : Type 0 where
    pub score : Float
    pub reasons : List String
    pub unsupported : List String

  abbrev opinion_of : (Bool → Float) → Fields Float → Judged Opinion
  opinion_of of_bool fs =
      and_then (float_of of_bool (or_default (number nought) (lookup "score" fs))) (λ score.
        and_then (texts_of (or_default (array nil) (lookup "reasons" fs))) (λ reasons.
          and_then (texts_of (or_default (array nil) (lookup "unsupported" fs))) (λ unsupported.
            judged (record { score = score; reasons = reasons; unsupported = unsupported }))))

  -- parsed.get wants an object
  abbrev read_opinion : (Bool → Float) → Json Float → Judged Opinion
  read_opinion of_bool (object fs) = opinion_of of_bool fs
  read_opinion of_bool j = fault crash

  abbrev pub content_of : Json Float → Judged (Json Float)
  content_of j = and_then (at_key "choices" j) (λ choices.
      and_then (at_first choices) (λ choice. and_then (at_key "message" choice) (at_key "content")))

  -- judge_with_model
  unfoldable pub judge_with_model : (Bool → Float) → Reply Float → Judged Opinion
  judge_with_model of_bool no_key = fault unavailable
  judge_with_model of_bool no_answer = fault unavailable
  judge_with_model of_bool (body j) =
      and_then (content_of j) (λ content. and_then (parse content) (read_opinion of_bool))
