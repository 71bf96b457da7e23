-- ===== src/Services/Edge/Match.antt =====
-- `_match_binding` of app/services/edge.py in Project-source/forge-server: which active binding is
-- the caller's. A dict of signals is a list of pairs.
pub mod Laws
use navtra_license.Prelude.{
  ℕ, suc, ◌+◌, Bool, true, false, ◌&&◌, not, List, [], ◌∷◌, Option, none, some, String, is_none,
  leb, count_by, find_first, ◌==◌, string_eq, option_eq, if◌then◌else◌,
}
use navtra_license.Models.{Binding, Signals}

-- The truth of an optional text, and `a or b`.
abbrev pub given : Option String → Bool
given none = false
given (some s) = not (s == "")

abbrev pub or_text : Option String → Option String → Option String
or_text a b = if given a then a else b

abbrev pub has_signals : Option Signals → Bool
has_signals none = false
has_signals (some []) = false
has_signals (some (s ∷ ss)) = true

abbrev pub or_signals : Option Signals → Option Signals → Option Signals
or_signals a b = if has_signals a then a else b

abbrev signals_of : Option Signals → Signals
signals_of none = []
signals_of (some s) = s

-- `b.signals.get(k) == v`
same_signal : Signals → String × String → Bool
same_signal [] (k, v) = false
same_signal ((j, w) ∷ s) (k, v) = let rest = same_signal s (k, v) in if j == k then w == v else rest

-- How many of the caller's signals the binding has.
unfoldable pub overlap : Signals → Signals → ℕ
unfolding same_signal
overlap signals own = count_by (same_signal own) signals

-- `_FUZZY_MIN`
abbrev pub fuzzy_min : ℕ
fuzzy_min = 2

abbrev pub by_uid : String → Binding → Bool
by_uid uid b = b.deployment_uid == some uid

abbrev pub by_fingerprint : String → Binding → Bool
by_fingerprint fp b = is_none b.deployment_uid && (b.fingerprint == fp)

abbrev pub by_signals : Signals → Binding → Bool
by_signals signals b =
    is_none b.deployment_uid
    && (has_signals b.signals && leb fuzzy_min (overlap signals (signals_of b.signals)))

-- The fallback on signals.
fuzzy : List Binding → Option Signals → Option Binding
fuzzy bindings none = none
fuzzy bindings (some []) = none
fuzzy bindings (some (s ∷ ss)) = find_first (by_signals (s ∷ ss)) bindings

unfoldable pub match_binding :
    List Binding → String → Option String → Option Signals → Option Binding
unfolding fuzzy overlap
match_binding bindings fingerprint deployment_uid signals =
    if given deployment_uid
    then elim deployment_uid [ none ↦ none | some uid ↦ find_first (by_uid uid) bindings ]
    else elim (find_first (by_fingerprint fingerprint) bindings) [
      | some b ↦ some b
      | none ↦ fuzzy bindings signals
    ]
