-- ===== src/Sdk/Fingerprint/Laws.antt =====
-- What an injected deployment uid can do, and that an install id stays.
use Prim.Native.String.{◌++◌ as ◌<>◌}
use navtra_license.Prelude.{
  ◌≤◌, ◌≡◌, refl, ap, ◌∙◌, true, false, List, [], ◌∷◌, Option, none, some, String, ◌==◌, string_eq,
  leb, le→leb, leb→le, length, codes, arith, inl, inr, Option-cases, Bool-cases, if◌then◌else◌,
}
use navtra_license.Sdk.Host.{Host, is_space, strip_chars, filled}
use navtra_license.Sdk.Fingerprint.{
  uid_env, in_container, in_dev, deployment_uid, file_text, read_first, machine_id, override_uid,
  raw_machine_id, deployment_fingerprint, collect_signals, ensure_install_id, InstallId,
}

-- The same host with other values of two variables, the injected uid and the replacement keys.
abbrev pub inject : Option String → Option String → Host → Host
inject uid keys h = record h {
  env = λ name.
      if name == uid_env then uid else (if name == "FORGE_EMBEDDED_KEYS" then keys else h.env name);
}

-- The same host with a file that was written.
abbrev pub with_file : String → String → Host → Host
with_file path text h = record h {
  is_file = λ p. if p == path then true else h.is_file p;
  read = λ p. if p == path then some text else h.read p;
}

read_first-inject :
    (uid keys : Option String) (h : Host) (paths : List String)
    → read_first (inject uid keys h) paths ≡ read_first h paths
unfolding read_first
read_first-inject uid keys h [] = refl
read_first-inject uid keys h (p ∷ ps) =
    ap (λ rest. elim (file_text h p) [ none ↦ rest | some v ↦ some v ])
      (read_first-inject uid keys h ps)

machine_id-inject :
    (uid keys : Option String) (h : Host) → machine_id (inject uid keys h) ≡ machine_id h
unfolding machine_id
machine_id-inject uid keys h =
    rw (read_first-inject uid keys h ("/etc/machine-id" ∷ "/var/lib/dbus/machine-id" ∷ [])) refl

pub in_dev-inject : (uid keys : Option String) (h : Host) → in_dev (inject uid keys h) ≡ in_dev h
unfolding in_dev string_eq
in_dev-inject uid keys h = refl

in_container-inject :
    (uid keys : Option String) (h : Host) → in_container (inject uid keys h) ≡ in_container h
unfolding in_container string_eq
in_container-inject uid keys h = refl

no_override : (h : Host) → in_dev h ≡ false → override_uid h ≡ none
unfolding override_uid
no_override h off = rw off refl

no_uid : (h : Host) → in_dev h ≡ false → in_container h ≡ false → deployment_uid h ≡ none
unfolding deployment_uid
no_uid h off bare = elim (Option-cases (filled (h.env uid_env))) [
  | inl unset_ ↦ rw (deployment_uid, unset_) refl
  | inr (uid, set_) ↦ rw (deployment_uid, set_, off, bare) refl
]

raw_machine_id-inject :
    (uid keys : Option String) (h : Host)
    → in_dev h ≡ false
    → raw_machine_id (inject uid keys h) ≡ raw_machine_id h
unfolding raw_machine_id
raw_machine_id-inject uid keys h off =
    rw
      (
        raw_machine_id,
        no_override (inject uid keys h) (in_dev-inject uid keys h ∙ off),
        no_override h off,
        machine_id-inject uid keys h,
      )
      refl

-- Outside of development, an injected uid (or keys) changes neither the fingerprint nor a signal, and without a
-- container it is not even sent.
pub injected_uid :
    (sha256 : String → String) (uid keys : Option String) (h : Host)
    → in_dev h ≡ false
    → (deployment_fingerprint sha256 (inject uid keys h) ≡ deployment_fingerprint sha256 h)
      × (collect_signals sha256 (inject uid keys h) ≡ collect_signals sha256 h)
      × (in_container h ≡ false → deployment_uid (inject uid keys h) ≡ none)
unfolding deployment_fingerprint collect_signals deployment_uid
injected_uid sha256 uid keys h off = (
  ap sha256 (raw_machine_id-inject uid keys h off),
  rw
      (
        read_first-inject uid keys h ("/sys/class/dmi/id/product_uuid" ∷ []),
        read_first-inject uid keys h ("/sys/class/dmi/id/board_serial" ∷ []),
        read_first-inject uid keys h ("/sys/class/dmi/id/product_serial" ∷ []),
        machine_id-inject uid keys h,
      )
      refl,
  λ bare.
      no_uid (inject uid keys h) (in_dev-inject uid keys h ∙ off)
        (in_container-inject uid keys h ∙ bare),
)

self_equal : (s : String) → (s == s) ≡ true
self_equal s = ground arith

not_empty : (s : String) → 16 ≤ length (codes s) → (s == "") ≡ false
not_empty s long = elim (Bool-cases (s == "")) [
  | inl empty ↦ let is : s ≡ "" = ground arith in absurd (omega (arith, rw is at long))
  | inr full ↦ full
]

read_written :
    (h : Host) (path text : String)
    → strip_chars is_space text ≡ text
    → 16 ≤ length (codes text)
    → read_first (with_file path text h) (path ∷ []) ≡ some text
unfolding read_first
read_written h path text plain long =
    rw (read_first, self_equal path, plain, not_empty text long, self_equal path) refl

kept :
    (h : Host) (path existing third fourth : String)
    → read_first h (path ∷ []) ≡ some existing
    → 16 ≤ length (codes existing)
    → ensure_install_id h path third fourth ≡ record { id = existing; written = none }
unfolding ensure_install_id
kept h path existing third fourth there long =
    rw (ensure_install_id, there, le→leb 16 (length (codes existing)) long) refl

-- What the file holds after a start.
abbrev pub after_start : Host → String → InstallId → Host
after_start h path i = elim i.written [ none ↦ h | some text ↦ with_file path text h ]

fresh-kept :
    (h : Host) (path first second third fourth : String)
    → strip_chars is_space (first <> second) ≡ first <> second
    → 16 ≤ length (codes (first <> second))
    → ensure_install_id h path first second
      ≡ record { id = first <> second; written = some (first <> second) }
    → ensure_install_id
        (after_start h path (ensure_install_id h path first second))
        path
        third
        fourth
      ≡ record { id = (ensure_install_id h path first second).id; written = none }
fresh-kept h path first second third fourth plain long e = rw e (
    kept (with_file path (first <> second) h) path (first <> second) third fourth
      (read_written h path (first <> second) plain long) long)

-- An install id stays: where the file could be written, the next start answers the id of this one,
-- the one that was drawn or the one that was there, and writes nothing.
pub ensure_install_id_twice :
    (h : Host) (path first second third fourth : String)
    → strip_chars is_space (first <> second) ≡ first <> second
    → 16 ≤ length (codes (first <> second))
    → ensure_install_id
        (after_start h path (ensure_install_id h path first second))
        path
        third
        fourth
      ≡ record { id = (ensure_install_id h path first second).id; written = none }
unfolding ensure_install_id
ensure_install_id_twice h path first second third fourth plain long =
    elim (Option-cases (read_first h (path ∷ []))) [
      | inl missing ↦
          fresh-kept h path first second third fourth plain long
            (rw (ensure_install_id, missing) refl)
      | inr (existing, there) ↦ elim (Bool-cases (leb 16 (length (codes existing)))) [
        | inl enough ↦
            rw (kept h path existing first second there (leb→le 16 _ enough))
              (kept h path existing third fourth there (leb→le 16 _ enough))
        | inr short ↦
            fresh-kept h path first second third fourth plain long
              (rw (ensure_install_id, there, short) refl)
      ]
    ]
