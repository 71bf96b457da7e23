-- ===== src/Admin/Errors.antt =====
-- `BizError` of app/core/errors.py in Project-source/forge-server, over the dictionary that is read from
-- error-codes.yaml. The details of an error are left to the caller's type.
use navtra_license.Prelude.{
  ℕ, List, [], ◌∷◌, Option, none, some, String, map, ◌==◌, string_eq, if◌then◌else◌,
}

-- An entry: `http`, `log_level` where it has one, and the messages by language.
pub record ErrorEntry : Type 0 where
  pub http : ℕ
  pub level : Option String
  pub messages : List (String × String)

abbrev pub ErrorDictionary : Type 0
ErrorDictionary = List (String × ErrorEntry)

unfoldable pub find_entry : ErrorDictionary → String → Option ErrorEntry
find_entry [] code = none
find_entry ((name, entry) ∷ rest) code =
    let later = find_entry rest code in if name == code then some entry else later

pub record BizError (D : Type 0) : Type 0 where
  pub code : String
  pub details : Option D
  pub entry : ErrorEntry

abbrev keep_entry : {D : Type 0} → String → Option D → Option ErrorEntry → Option (BizError D)
keep_entry code details none = none
keep_entry code details (some e) = some (record { code = code; details = details; entry = e })

-- `BizError(code, details)`: none where it raises `KeyError`. The properties read the entry again.
unfoldable pub new_biz_error :
    {D : Type 0} → ErrorDictionary → String → Option D → Option (BizError D)
unfolding find_entry
new_biz_error dictionary code details = keep_entry code details (find_entry dictionary code)

-- `msgs.get(lang)`, where it is a text that is not empty.
unfoldable pub text_for : List (String × String) → String → Option String
text_for [] lang = none
text_for ((name, text) ∷ rest) lang =
    let later = text_for rest lang in
    if name == lang then (if text == "" then none else some text) else later

module _ {D : Type 0} where
  abbrev pub http_status : BizError D → ℕ
  http_status e = e.entry.http

  abbrev pub log_level : BizError D → String
  log_level e = elim e.entry.level [ none ↦ "warning" | some level ↦ level ]

  -- `message`
  unfoldable pub message_of : BizError D → String → String
  unfolding text_for
  message_of e lang = elim (text_for e.entry.messages lang) [
    | some text ↦ text
    | none ↦ elim (text_for e.entry.messages "zh-CN") [ some text ↦ text | none ↦ e.code ]
  ]

-- What a client gets.
pub record Envelope (D : Type 0) : Type 0 where
  pub code : String
  pub message : String
  pub details : Option D
  pub request_id : String

abbrev pub envelope : {D : Type 0} → BizError D → String → String → Envelope D
envelope e request_id lang = record {
  code = e.code;
  message = message_of e lang;
  details = e.details;
  request_id = request_id;
}

abbrev pub all_codes : ErrorDictionary → List String
all_codes dictionary = map (λ row. row.0) dictionary
