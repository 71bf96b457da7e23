-- ===== src/Tests/Redis.antt =====
-- A Redis as functions of its keys, which does what the services rely on.
use navtra_license.Prelude.{
  ℕ, suc, ◌+◌, ◌≡◌, refl, Bool, true, false, ◌&&◌, not, List, [], ◌∷◌, Option, none, some, String,
  ltb, contains, filter_by, ◌==◌, nat_eq, string_eq, arith, inl, inr, Bool-cases, if◌then◌else◌,
}
use navtra_license.Admin.Sessions.{Session, SessionStore}
use navtra_license.Admin.Sessions.Laws.{SessionLaws}
use navtra_license.Admin.Limits.{Counters}
use navtra_license.Admin.Limits.Laws.{Entry, seen, kept_end, given_end, CounterLaws}
use navtra_license.Admin.Auth.{ResetTokens}
use navtra_license.Admin.Auth.Reset.{TokenLaws}

pub record Redis : Type 0 where
  pub sessions : String → Option (Session × ℕ)
  pub index : ℕ → List String
  pub entries : String → Entry
  pub flags : String → Option ℕ
  pub tokens : String → Option String

abbrev live_session : Option (Session × ℕ) → ℕ → Option Session
live_session none t = none
live_session (some (s, end)) t = if ltb t end then some s else none

abbrev flag_live : Option ℕ → ℕ → Bool
flag_live none t = false
flag_live (some end) t = ltb t end

abbrev pub empty : Redis
empty = record {
  sessions = λ k. none;
  index = λ u. [];
  entries = λ k. none;
  flags = λ k. none;
  tokens = λ k. none;
}

abbrev pub store0 : SessionStore Redis
store0 = record {
  get = λ r t sid. live_session (r.sessions sid) t;
  set = λ r now sid s ex. record r {
    sessions = λ k. if k == sid then some (s, now + ex) else r.sessions k;
  };
  delete = λ r sid. record r { sessions = λ k. if k == sid then none else r.sessions k };
  sadd = λ r u sid. record r { index = λ v. if v == u then sid ∷ r.index v else r.index v };
  srem = λ r u sid. record r {
    index = λ v. if v == u then filter_by (λ x. not (x == sid)) (r.index v) else r.index v;
  };
  smembers = λ r u. r.index u;
  delete_index = λ r u. record r { index = λ v. if v == u then [] else r.index v };
}

contains-removed :
    (sid sid' : String) (sids : List String)
    → contains (filter_by (λ x. not (x == sid)) sids) sid'
      ≡ (not (sid' == sid) && contains sids sid')
unfolding filter_by
contains-removed sid sid' [] = ground arith
contains-removed sid sid' (x ∷ xs) = ground (arith, contains-removed sid sid' xs)

pub store0_laws : SessionLaws store0
store0_laws = record {
  get-set = λ r now sid s ex t sid'. elim (Bool-cases (sid' == sid)) [
    | inl same ↦ rw same refl
    | inr other ↦ rw other refl
  ];
  get-delete = λ r sid t sid'. elim (Bool-cases (sid' == sid)) [
    | inl same ↦ rw same refl
    | inr other ↦ rw other refl
  ];
  get-sadd = λ r u sid t sid'. refl;
  get-srem = λ r u sid t sid'. refl;
  get-delete_index = λ r u t sid'. refl;
  smembers-set = λ r now sid s ex u. refl;
  smembers-delete = λ r sid u. refl;
  smembers-sadd = λ r u sid u' sid'. elim (Bool-cases (u' == u)) [
    | inl same ↦ rw same refl
    | inr other ↦ rw other refl
  ];
  smembers-srem = λ r u sid u' sid'. elim (Bool-cases (u' == u)) [
    | inl same ↦ rw same (contains-removed sid sid' (r.index u'))
    | inr other ↦ rw other refl
  ];
  smembers-delete_index =
      λ r u u'. elim (Bool-cases (u' == u)) [ inl same ↦ rw same refl | inr other ↦ rw other refl ];
}

abbrev pub counters0 : Counters Redis
counters0 = record {
  incr = λ r now key. (
    suc (seen (r.entries key) now),
    record r {
      entries = λ k.
          if k == key
          then some (suc (seen (r.entries key) now), kept_end (r.entries key) now)
          else r.entries k;
    },
  );
  expire = λ r now key ex. record r {
    entries = λ k. if k == key then given_end (r.entries key) now ex else r.entries k;
  };
  delete_counter = λ r key. record r { entries = λ k. if k == key then none else r.entries k };
  set_flag =
      λ r now key ex. record r { flags = λ k. if k == key then some (now + ex) else r.flags k };
  flag_set = λ r now key. flag_live (r.flags key) now;
  delete_flag = λ r key. record r { flags = λ k. if k == key then none else r.flags k };
}

pub self_equal : (s : String) → (s == s) ≡ true
self_equal s = ground arith

unfoldable pub counters0_laws : CounterLaws counters0
counters0_laws = record {
  entry = λ r k. r.entries k;
  flag_end = λ r k. r.flags k;
  incr-value = λ r now k. refl;
  incr-entry = λ r now k. rw (self_equal k) refl;
  expire-entry = λ r now k ex. rw (self_equal k) refl;
  set_flag-entry = λ r now k ex k'. refl;
  set_flag-end = λ r now k ex. rw (self_equal k) refl;
  flag_set-end = λ r now k end e. rw e refl;
}

abbrev pub tokens0 : ResetTokens Redis
tokens0 = record {
  get = λ r now key. r.tokens key;
  set = λ r now key user_id ex. record r {
    tokens = λ k. if k == key then some user_id else r.tokens k;
  };
  delete = λ r key. record r { tokens = λ k. if k == key then none else r.tokens k };
}

pub tokens0_laws : TokenLaws tokens0
tokens0_laws = record { get-delete = λ r now key. rw (self_equal key) refl }
