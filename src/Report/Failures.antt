-- ===== src/Report/Failures.antt =====
-- internal/domain/report/attribution.go and signature.go: whom a failure belongs to, and what
-- identifies it.
use honryu.Base.{
  ℕ, Bool, true, false, ◌&&◌, ◌||◌, List, [], ◌∷◌, ◌++◌, none, some, String, str_eq, if◌then◌else◌,
  is_empty, length, leb, ltb,
}
use honryu.Base.Ints.{ℤ, pos, leb_ℤ, ◌+ℤ◌, wrap64, ltb_ℤ, eqb_ℤ}
use honryu.Base.Text.{Text, chars, to_lower, contains, atoi, trim_space, same_text, take_runes}
use honryu.Metrics.{ErrorGroup}

pub data Side : Type 0 where
  target engine unknown : Side

abbrev pub engine_faults : List Text
engine_faults =
    chars "too many open files"
    ∷ chars "cannot assign requested address"
    ∷ chars "outofmemoryerror"
    ∷ chars "out of memory"
    ∷ chars "cannot allocate memory"
    ∷ chars "taurus internal exception"
    ∷ chars "tool error"
    ∷ chars "no space left on device"
    ∷ []

abbrev pub target_faults : List Text
target_faults =
    chars "connection refused"
    ∷ chars "connection reset"
    ∷ chars "connection timed out"
    ∷ chars "read timed out"
    ∷ chars "i/o timeout"
    ∷ chars "timeout awaiting"
    ∷ chars "no route to host"
    ∷ chars "eofexception"
    ∷ chars "unexpected eof"
    ∷ chars "remote end closed connection"
    ∷ chars "connection aborted"
    ∷ []

-- A loop over phrases.
unfoldable pub any_phrase : Text → List Text → Bool
unfolding contains
any_phrase msg [] = false
any_phrase msg (phrase ∷ phrases) = contains msg phrase || any_phrase msg phrases

-- `n >= 100 && n <= 599`, where the code is a number.
unfoldable pub is_response_code : Text → Bool
unfolding atoi trim_space
is_response_code code = elim (atoi (trim_space code)) [
  | none ↦ false
  | some n ↦ leb_ℤ (pos 100) n && leb_ℤ n (pos 599)
]

unfoldable pub attribute_error : ErrorGroup → Side
unfolding is_response_code to_lower any_phrase
attribute_error e =
    let msg : Text = to_lower e.message in
    if is_response_code e.response_code
    then target
    else if is_empty msg
    then unknown
    else if any_phrase msg engine_faults
    then engine
    else if any_phrase msg target_faults
    then target
    else unknown

abbrev pub max_exemplars : ℕ
max_exemplars = 3

abbrev pub max_exemplar_len : ℕ
max_exemplar_len = 300

pub record Signature : Type 0 where
  pub label : String
  pub response_code : Text
  pub side : Side

abbrev pub same_side : Side → Side → Bool
same_side target target = true
same_side engine engine = true
same_side unknown unknown = true
same_side _ _ = false

-- `==` on signatures.
abbrev pub same_signature : Signature → Signature → Bool
same_signature s t =
    str_eq s.label t.label && same_text s.response_code t.response_code && same_side s.side t.side

unfoldable pub new_signature : String → ErrorGroup → Signature
unfolding attribute_error
new_signature label e =
    let code : Text = trim_space e.response_code in
    record {
      label = label;
      response_code = if is_response_code code then code else [];
      side = attribute_error e;
    }

-- What an `ErrorSignature` holds beside its signature.
pub record ErrorCount : Type 0 where
  pub count : ℤ
  pub exemplars : List Text

unfoldable pub seen_exemplar : Text → List Text → Bool
unfolding same_text
seen_exemplar msg [] = false
seen_exemplar msg (seen ∷ exemplars) = same_text seen msg || seen_exemplar msg exemplars

-- The wording that is kept of a message: `take_runes` changes none that is short enough.
unfoldable pub wording : Text → Text
unfolding trim_space take_runes
wording msg =
    let msg' : Text = trim_space msg in
    if ltb max_exemplar_len (length msg') then take_runes max_exemplar_len msg' else msg'

-- `addExemplar`, on the wordings kept.
unfoldable pub add_exemplar : Text → List Text → List Text
unfolding wording seen_exemplar
add_exemplar msg exemplars =
    if is_empty (trim_space msg) || leb max_exemplars (length exemplars)
    then exemplars
    else if seen_exemplar (wording msg) exemplars
    then exemplars
    else exemplars ++ wording msg ∷ []

-- The loop of `MergeExemplars`.
unfoldable pub add_exemplars : List Text → List Text → List Text
unfolding add_exemplar
add_exemplars exemplars [] = exemplars
add_exemplars exemplars (msg ∷ msgs) = add_exemplars (add_exemplar msg exemplars) msgs

unfoldable pub merge_exemplars : List Text → List Text → List Text
unfolding add_exemplars
merge_exemplars kept incoming = add_exemplars (add_exemplars [] kept) incoming

pub record Attribution : Type 0 where
  pub target : ℤ
  pub engine : ℤ
  pub unknown : ℤ

unfoldable pub total : Attribution → ℤ
total a = wrap64 (wrap64 (a.target +ℤ a.engine) +ℤ a.unknown)

-- `EngineImpaired`, of a report's attribution.
unfoldable pub engine_impaired : Attribution → Bool
engine_impaired a = if eqb_ℤ a.engine (pos 0) then false else ltb_ℤ a.target a.engine
