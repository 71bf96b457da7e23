-- ===== src/Tests/Errors.antt =====
-- Two entries of the dictionary.
use navtra_license.Prelude.{ℕ, ◌≡◌, refl, [], ◌∷◌, none, some, string_eq}
use navtra_license.Admin.Errors.{ErrorDictionary, BizError, new_biz_error, message_of, envelope}

abbrev dictionary0 : ErrorDictionary
dictionary0 =
    (
      "AUTH_REQUIRED",
      record { http = 401; level = some "info"; messages = ("zh-CN", "login") ∷ ("en", "") ∷ [] },
    )
    ∷ (
      "PERM_DENIED",
      record { http = 403; level = none; messages = ("en", "Permission denied.") ∷ [] },
    )
    ∷ []

abbrev denied0 : BizError ℕ
denied0 = record {
  code = "PERM_DENIED";
  details = none;
  entry = record { http = 403; level = none; messages = ("en", "Permission denied.") ∷ [] };
}

registered0 : new_biz_error {D = ℕ} dictionary0 "PERM_DENIED" none ≡ some denied0
unfolding new_biz_error string_eq
registered0 = refl

unregistered0 : new_biz_error {D = ℕ} dictionary0 "OTHER" none ≡ none
unfolding new_biz_error string_eq
unregistered0 = refl

no_chinese0 : (envelope denied0 "req" "zh-CN").message ≡ "PERM_DENIED"
unfolding message_of string_eq
no_chinese0 = refl

in_english0 : (envelope denied0 "req" "en").message ≡ "Permission denied."
unfolding message_of string_eq
in_english0 = refl
