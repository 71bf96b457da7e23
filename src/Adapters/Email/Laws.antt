-- ===== src/Adapters/Email/Laws.antt =====
-- The failover over many messages, and its breaker once it is open.
use navtra_license.Prelude.{◌≡◌, refl, Bool, true, List, [], ◌∷◌, ap, ◌∙◌}
use navtra_license.Adapters.Email.{EmailAdapter, Failover, is_open, send}

-- Messages one after the other; each comes with what the adapters do with it.
abbrev pub send_all : List (EmailAdapter → Bool) → Failover → Failover
send_all [] s = s
send_all (takes ∷ rest) s = send_all rest (send takes s).service

open_send :
    (takes : EmailAdapter → Bool) (s : Failover) → is_open s ≡ true → (send takes s).service ≡ s
unfolding send
open_send takes s on = rw on refl

-- Once the breaker is open it stays open: whatever messages follow and however well the primary would
-- take them, the service does not change, and the primary is not called again.
pub open_stays :
    (messages : List (EmailAdapter → Bool)) (s : Failover) (takes : EmailAdapter → Bool)
    → is_open s ≡ true
    → (send_all messages s ≡ s) × ((send takes (send_all messages s)).called ≡ s.fallback ∷ [])
unfolding send
open_stays [] s takes on = (refl, rw on refl)
open_stays (m ∷ ms) s takes on =
    let same = open_send m s on in
    let (stays, called) = open_stays ms s takes on in
    (ap (send_all ms) same ∙ stays, ap (λ v. (send takes (send_all ms v)).called) same ∙ called)
