-- ===== src/Services/Edge/Match/Laws.antt =====
-- Which binding is taken for the caller's.
use navtra_license.Prelude.{
  ◌≤◌, ◌≡◌, ◌≢◌, refl, Bool, true, false, ◌⊎◌, inl, inr, List, [], ◌∷◌, Option, none, some, String,
  arith, All, find_first, find_first-All, Among, ◌==◌, string_eq, option_eq, Option-cases,
  Bool-cases,
}
use navtra_license.Models.{Binding, Signals}
use navtra_license.Services.Edge.Match.{
  given, signals_of, overlap, by_uid, by_fingerprint, by_signals, fuzzy, fuzzy_min, match_binding,
}

-- The identity that justifies a match: the deployment uid where the caller sends one, else the
-- fingerprint or two common signals of a binding that has no deployment uid.
abbrev pub SameIdentity : String → Option String → Option Signals → Binding → Type 0
SameIdentity fingerprint deployment_uid signals b =
    ((given deployment_uid ≡ true) × (b.deployment_uid ≡ deployment_uid))
    ⊎ ((given deployment_uid ≡ false)
        × (b.deployment_uid ≡ none)
        × ((b.fingerprint ≡ fingerprint)
            ⊎ (fuzzy_min ≤ overlap (signals_of signals) (signals_of b.signals))))

found :
    (p : Binding → Bool) (bs : List Binding) {b : Binding} → find_first p bs ≡ some b → p b ≡ true
found p bs e = (find_first-All (λ _. Unit {0}) p bs (everything bs) e).1
  where
    everything : (xs : List Binding) → All (λ _. Unit {0}) xs
    everything [] = tt
    everything (x ∷ xs) = (tt, everything xs)

fuzzy-found :
    (bs : List Binding) (signals : Option Signals) {b : Binding}
    → fuzzy bs signals ≡ some b
    → (b.deployment_uid ≡ none) × (fuzzy_min ≤ overlap (signals_of signals) (signals_of b.signals))
unfolding fuzzy
fuzzy-found bs none e = absurd (ground arith)
fuzzy-found bs (some []) e = absurd (ground arith)
fuzzy-found bs (some (s ∷ ss)) {b} e =
    let hit = found (by_signals (s ∷ ss)) bs e in (ground arith, ground arith)

-- A binding that is matched has the deployment uid that the caller sends; where it sends none the
-- binding has none, and has its fingerprint or at least two of its signals.
pub match_binding-SameIdentity :
    (bs : List Binding) (fingerprint : String) (deployment_uid : Option String)
    (signals : Option Signals) {b : Binding}
    → match_binding bs fingerprint deployment_uid signals ≡ some b
    → SameIdentity fingerprint deployment_uid signals b
unfolding match_binding
match_binding-SameIdentity bs fingerprint none signals {b} e =
    elim (Option-cases (find_first (by_fingerprint fingerprint) bs)) [
      | inr (c, f) ↦
          let hit = found (by_fingerprint fingerprint) bs f in
          inr (refl, ground arith, inl (ground arith))
      | inl f ↦
          let (alone, common) = fuzzy-found bs signals {b = b} (ground arith) in
          inr (refl, alone, inr common)
    ]
match_binding-SameIdentity bs fingerprint (some uid) signals {b} e = elim (Bool-cases (uid == "")) [
  | inl empty ↦ elim (Option-cases (find_first (by_fingerprint fingerprint) bs)) [
    | inr (c, f) ↦
        let hit = found (by_fingerprint fingerprint) bs f in
        inr (ground arith, ground arith, inl (ground arith))
    | inl f ↦
        let (alone, common) = fuzzy-found bs signals {b = b} (ground arith) in
        inr (ground arith, alone, inr common)
  ]
  | inr full ↦
      let hit = found (by_uid uid) bs {b = b} (ground arith) in inl (ground arith, ground arith)
]

known_host :
    (bs : List Binding) (p : Binding → Bool) (b : Binding)
    → Among b bs
    → p b ≡ true
    → find_first p bs ≢ none
unfolding find_first
known_host [] p b m h e = elim m [ ]
known_host (x ∷ xs) p b (inl same) h e = ground arith
known_host (x ∷ xs) p b (inr later) h e = ground (arith, known_host xs p b later h)

-- Some binding is matched where one among them has the deployment uid that the caller sends, and,
-- where it sends none, where one has no deployment uid and its fingerprint.
pub match_binding-ne-none :
    (bs : List Binding) (fingerprint : String) (deployment_uid : Option String)
    (signals : Option Signals) (b : Binding)
    → Among b bs
    → ((given deployment_uid ≡ true) × (b.deployment_uid ≡ deployment_uid))
      ⊎ ((given deployment_uid ≡ false) × (b.deployment_uid ≡ none) × (b.fingerprint ≡ fingerprint))
    → match_binding bs fingerprint deployment_uid signals ≢ none
unfolding match_binding
match_binding-ne-none bs fingerprint none signals b m (inl (sent, bound)) e = absurd (ground arith)
match_binding-ne-none bs fingerprint none signals b m (inr (unsent, alone, same)) e =
    ground (arith, known_host bs (by_fingerprint fingerprint) b m)
match_binding-ne-none bs fingerprint (some uid) signals b m (inl (sent, bound)) e =
    ground (arith, known_host bs (by_uid uid) b m)
match_binding-ne-none bs fingerprint (some uid) signals b m (inr (unsent, alone, same)) e =
    ground (arith, known_host bs (by_fingerprint fingerprint) b m)
