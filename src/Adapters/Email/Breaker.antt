-- ===== src/Adapters/Email/Breaker.antt =====
-- When the breaker of the failover is open.
use mathlib.Core.List.{append_assoc, append-nil}
use navtra_license.Prelude.{
  ℕ, ◌+◌, ◌≤◌, ◌≡◌, ◌⊎◌, ◌↔◌, refl, sym, ◌∙◌, ap, subst, Bool, true, false, List, [], ◌∷◌, ◌++◌,
  length, All, All-append, max, leb→le, inl, inr, Bool-cases, arith,
}
use navtra_license.Adapters.Email.{EmailAdapter, Failover, new_failover, is_open, send}
use navtra_license.Adapters.Email.Laws.{send_all, open_stays}

-- The primary refuses a message.
abbrev pub Refused : EmailAdapter → (EmailAdapter → Bool) → Type 0
Refused primary takes = takes primary ≡ false

-- Among the messages there are `n` in a row that the primary refuses.
abbrev pub Burst : ℕ → EmailAdapter → List (EmailAdapter → Bool) → Type 0
Burst n primary messages =
    (before : List (EmailAdapter → Bool)) × (burst : List (EmailAdapter → Bool)) × (after : List
      (EmailAdapter → Bool))
    × (messages ≡ before ++ (burst ++ after))
    × (length burst ≡ n)
    × All (Refused primary) burst

-- The last `n` messages were refused by the primary.
abbrev Tail : ℕ → EmailAdapter → List (EmailAdapter → Bool) → Type 0
Tail n primary messages =
    (before : List (EmailAdapter → Bool)) × (last : List (EmailAdapter → Bool)) × (messages
      ≡ before ++ last)
    × (length last ≡ n)
    × All (Refused primary) last

length-append : {A : Type 0} (xs ys : List A) → length (xs ++ ys) ≡ length xs + length ys
length-append [] ys = omega arith
length-append (x ∷ xs) ys = omega (arith, length-append xs ys)

-- What the service remembers of the messages that it was given.
record Remembers (n : ℕ) (p : EmailAdapter) (history : List (EmailAdapter → Bool)) (s : Failover)
    : Type 0 where
  primary_is : s.primary ≡ p
  threshold_is : s.threshold ≡ n
  told :
      ((is_open s ≡ true) × Burst n p history)
      ⊎ ((is_open s ≡ false) × Tail s.consecutive_failures p history)

module _ (n : ℕ) (p : EmailAdapter) (positive : 1 ≤ n) where
  later :
      (history : List (EmailAdapter → Bool)) (m : EmailAdapter → Bool)
      → Burst n p history
      → Burst n p (history ++ (m ∷ []))
  later history m (before, burst, after, split, size, refused) = (
    before,
    burst,
    after ++ (m ∷ []),
    ap (λ h. h ++ (m ∷ [])) split
        ∙ (append_assoc before (burst ++ after) (m ∷ [])
            ∙ ap (λ t. before ++ t) (append_assoc burst after (m ∷ []))),
    size,
    refused,
  )

  longer :
      (c : ℕ) (history : List (EmailAdapter → Bool)) (m : EmailAdapter → Bool)
      → m p ≡ false
      → Tail c p history
      → Tail (c + 1) p (history ++ (m ∷ []))
  longer c history m bad (before, last, split, size, refused) = (
    before,
    last ++ (m ∷ []),
    ap (λ h. h ++ (m ∷ [])) split ∙ append_assoc before last (m ∷ []),
    omega (arith, length-append last (m ∷ []), size),
    All-append (Refused p) last (m ∷ []) refused (bad, tt),
  )

  -- A refusal in a row of `c`: either `n` were reached, or not yet.
  counted :
      (c : ℕ) (history : List (EmailAdapter → Bool)) (s : Failover)
      → s.threshold ≡ n
      → s.consecutive_failures ≡ c
      → c ≤ n
      → Tail c p history
      → ((is_open s ≡ true) × Burst n p history)
        ⊎ ((is_open s ≡ false) × Tail s.consecutive_failures p history)
  counted c history s thr fails most (before, last, split, size, refused) =
      elim (Bool-cases (is_open s)) [
        | inr off ↦ inr (off, (before, last, split, size ∙ sym fails, refused))
        | inl on ↦ inl (
          on,
          (
            before,
            last,
            [],
            split ∙ ap (λ t. before ++ t) (sym (append-nil last)),
            (let reached : s.threshold ≤ s.consecutive_failures = leb→le _ _ on in omega arith),
            refused,
          ),
        )
      ]

  step :
      (history : List (EmailAdapter → Bool)) (m : EmailAdapter → Bool) (s : Failover)
      → Remembers n p history s
      → Remembers n p (history ++ (m ∷ [])) (send m s).service
  unfolding send
  step history m s r = elim r.told [
    | inl (on, burst) ↦ rw on (record {
      primary_is = r.primary_is;
      threshold_is = r.threshold_is;
      told = inl (on, later history m burst);
    })
    | inr (off, tail) ↦ elim (Bool-cases (m s.primary)) [
      | inl good ↦
          rw (off, good)
            (record {
              primary_is = r.primary_is;
              threshold_is = r.threshold_is;
              told =
                  counted 0 (history ++ (m ∷ [])) (record s { consecutive_failures = 0 })
                    r.threshold_is refl (omega arith)
                    (history ++ (m ∷ []), [], sym (append-nil (history ++ (m ∷ []))), refl, tt);
            })
      | inr bad ↦
          rw (off, bad)
            (record {
              primary_is = r.primary_is;
              threshold_is = r.threshold_is;
              told =
                  counted (s.consecutive_failures + 1) (history ++ (m ∷ []))
                    (record s { consecutive_failures = s.consecutive_failures + 1 }) r.threshold_is
                    refl (below s off r.threshold_is)
                    (longer s.consecutive_failures history m (ap m (sym r.primary_is) ∙ bad) tail);
            })
    ]
  ]
    where
      below : (t : Failover) → is_open t ≡ false → t.threshold ≡ n → t.consecutive_failures + 1 ≤ n
      below t off thr = ground arith

  steps :
      (history messages : List (EmailAdapter → Bool)) (s : Failover)
      → Remembers n p history s
      → Remembers n p (history ++ messages) (send_all messages s)
  steps history [] s r = subst (λ h. Remembers n p h s) (sym (append-nil history)) r
  steps history (m ∷ ms) s r =
      subst (λ h. Remembers n p h (send_all ms (send m s).service))
        (append_assoc history (m ∷ []) ms)
        (steps (history ++ (m ∷ [])) ms (send m s).service (step history m s r))

-- Sending does not change what the service was made of.
send-keeps :
    (m : EmailAdapter → Bool) (s : Failover)
    → ((send m s).service.primary ≡ s.primary) × ((send m s).service.threshold ≡ s.threshold)
unfolding send
send-keeps m s = elim (Bool-cases (is_open s)) [
  | inl on ↦ rw on (refl, refl)
  | inr off ↦ elim (Bool-cases (m s.primary)) [
    | inl good ↦ rw (off, good) (refl, refl)
    | inr bad ↦ rw (off, bad) (refl, refl)
  ]
]

send_all-keeps :
    (ms : List (EmailAdapter → Bool)) (s : Failover)
    → ((send_all ms s).primary ≡ s.primary) × ((send_all ms s).threshold ≡ s.threshold)
send_all-keeps [] s = (refl, refl)
send_all-keeps (m ∷ ms) s =
    let (p, t) = send-keeps m s in
    let (q, u) = send_all-keeps ms (send m s).service in (q ∙ p, u ∙ t)

send_all-append :
    (xs ys : List (EmailAdapter → Bool)) (s : Failover)
    → send_all (xs ++ ys) s ≡ send_all ys (send_all xs s)
send_all-append [] ys s = refl
send_all-append (x ∷ xs) ys s = send_all-append xs ys (send x s).service

one_refusal :
    (m : EmailAdapter → Bool) (s : Failover)
    → is_open s ≡ false
    → m s.primary ≡ false
    → (send m s).service.consecutive_failures ≡ s.consecutive_failures + 1
unfolding send
one_refusal m s off bad = rw (off, bad) refl

-- Refusals in a row are all counted, or the breaker is open.
refusals :
    (ms : List (EmailAdapter → Bool)) (s : Failover)
    → All (Refused s.primary) ms
    → (is_open (send_all ms s) ≡ true)
      ⊎ ((send_all ms s).consecutive_failures ≡ s.consecutive_failures + length ms)
refusals [] s h = inr (omega arith)
refusals (m ∷ ms) s (bad, more) = elim (Bool-cases (is_open s)) [
  | inl on ↦ inl (ap is_open (open_stays (m ∷ ms) s m on).0 ∙ on)
  | inr off ↦
      let fails = one_refusal m s off bad in
      elim (refusals ms (send m s).service
        (subst (λ p. All (Refused p) ms) (sym (send-keeps m s).0) more)) [
          | inl on ↦ inl on
          | inr counted_ ↦ inr (omega (arith, counted_, fails))
        ]
]

burst_opens :
    (burst : List (EmailAdapter → Bool)) (s : Failover)
    → All (Refused s.primary) burst
    → length burst ≡ s.threshold
    → is_open (send_all burst s) ≡ true
burst_opens burst s refused size = elim (refusals burst s refused) [
  | inl on ↦ on
  | inr counted_ ↦ let same = (send_all-keeps burst s).1 in ground (arith, same, counted_, size)
]

-- After any messages to a new service, however the primary and the fallback take each, the breaker is
-- open exactly where some of the messages, as many in a row as the threshold says and at least one,
-- were ones that the primary refuses: such a row opens it, whatever came before, and no message after
-- it, also where the primary would take it, closes it again.
pub open_exactly :
    (primary fallback : EmailAdapter) (threshold : ℕ) (messages : List (EmailAdapter → Bool))
    → (is_open (send_all messages (new_failover primary fallback threshold)) ≡ true)
      ↔ Burst (max 1 threshold) primary messages
open_exactly primary fallback threshold messages = (there_was, opens)
  where
    there_was :
        is_open (send_all messages (new_failover primary fallback threshold)) ≡ true
        → Burst (max 1 threshold) primary messages
    there_was on =
        let r =
          steps (max 1 threshold) primary (omega arith) [] messages
            (new_failover primary fallback threshold)
            (record {
              primary_is = refl;
              threshold_is = refl;
              told = inr (ground arith, ([], [], refl, refl, tt));
            }) in
        elim r.told [ inl (_, burst) ↦ burst | inr (off, _) ↦ absurd (ground arith) ]

    opens :
        Burst (max 1 threshold) primary messages
        → is_open (send_all messages (new_failover primary fallback threshold)) ≡ true
    opens (before, burst, after, split, size, refused) =
        let s = send_all before (new_failover primary fallback threshold) in
        let (same_primary, same_threshold) =
          send_all-keeps before (new_failover primary fallback threshold) in
        let on =
          burst_opens burst s (subst (λ p. All (Refused p) burst) (sym same_primary) refused)
            (size ∙ sym same_threshold) in
        ap (λ ms. is_open (send_all ms (new_failover primary fallback threshold))) split
        ∙ (ap is_open
              (send_all-append before (burst ++ after) (new_failover primary fallback threshold))
            ∙ (ap is_open (send_all-append burst after s)
                ∙ (ap is_open (open_stays after (send_all burst s) (λ a. true) on).0 ∙ on)))
