-- ===== src/Sdk/Fingerprint.antt =====
-- verifier-sdk/python/forge_verifier/fingerprint.py: the identity of a host. `getnode` is a 48-bit number.
pub mod Laws
use Prim.Native.String
use Prim.Native.String.{◌++◌ as ◌<>◌}
use navtra_license.Prelude.{
  ℕ, ◌/◌, ◌%◌, Bool, true, false, ◌&&◌, ◌||◌, List, [], ◌∷◌, Option, none, some, String, is_some,
  ltb, leb, lower_text, codes, length, ◌==◌, nat_eq, string_eq, if◌then◌else◌,
}
use navtra_license.Sdk.Host.{Host, is_space, strip_chars, in_text, after_last, hex, filled}

abbrev pub dev_env : String
dev_env = "FORGE_SDK_DEV"

abbrev pub uid_env : String
uid_env = "FORGE_DEPLOYMENT_UID"

abbrev cgroup_in_container : Option String → Bool
cgroup_in_container none = false
cgroup_in_container (some blob) =
    in_text "docker" blob || (in_text "kubepods" blob || in_text "containerd" blob)

-- `_in_container`
unfoldable pub in_container : Host → Bool
in_container h =
    is_some (filled (h.env "KUBERNETES_SERVICE_HOST"))
    || (h.exists "/.dockerenv" || cgroup_in_container (h.read "/proc/1/cgroup"))

unfoldable pub in_dev : Host → Bool
in_dev h = is_some (filled (h.env dev_env))

-- `deployment_uid`
unfoldable pub deployment_uid : Host → Option String
unfolding in_container in_dev
deployment_uid h = elim (filled (h.env uid_env)) [
  | none ↦ none
  | some uid ↦ if in_dev h || in_container h then some uid else none
]

-- The text of a file without surrounding space, where it has one.
abbrev pub file_text : Host → String → Option String
file_text h path = elim (h.read path) [
  | none ↦ none
  | some text ↦ if h.is_file path then filled (some (strip_chars is_space text)) else none
]

-- `_read_first`
unfoldable pub read_first : Host → List String → Option String
read_first h [] = none
read_first h (path ∷ paths) =
    let rest = read_first h paths in elim (file_text h path) [ none ↦ rest | some v ↦ some v ]

-- The loop over the lines of `ioreg`.
unfoldable pub platform_uuid : List String → Option String
platform_uuid [] = none
platform_uuid (line ∷ lines) =
    let rest = platform_uuid lines in
    if in_text "IOPlatformUUID" line
    then some (strip_chars (λ c. c == 34) (strip_chars is_space (after_last 61 line line)))
    else rest

-- `_machine_id`
unfoldable pub machine_id : Host → Option String
unfolding read_first platform_uuid
machine_id h =
    if h.system == "Linux"
    then read_first h ("/etc/machine-id" ∷ "/var/lib/dbus/machine-id" ∷ [])
    else (if h.system == "Darwin"
        then (elim h.ioreg_lines [ none ↦ none | some lines ↦ platform_uuid lines ])
        else (if h.system == "Windows" then h.machine_guid else none))

-- `_dmi`
abbrev pub dmi : Host → String → Option String
dmi h field = read_first h (("/sys/class/dmi/id/" <> field) ∷ [])

-- `_cpu_sig`; `os.cpu_count()` prints as a number or `None`.
abbrev pub cpu_sig : Host → Option String
cpu_sig h =
    let info = h.machine <> ("|" <> (h.processor <> ("|" <> h.cpu_count))) in
    if strip_chars (λ c. c == 124) info == "" then none else some info

-- `_mac`: the multicast bit says that `getnode` invented the address.
abbrev pub mac : Host → Option String
mac h = if h.getnode / 1099511627776 % 2 == 1 then none else some (hex 12 h.getnode)

abbrev pub platform_prefix : String → String
platform_prefix system =
    if system == "Linux"
    then "linux"
    else (if system == "Darwin"
        then "macos"
        else (if system == "Windows" then "windows" else lower_text system))

-- The dev override, where it is on.
unfoldable pub override_uid : Host → Option String
unfolding in_dev
override_uid h = if in_dev h then filled (h.env uid_env) else none

-- `_raw_machine_id`
unfoldable pub raw_machine_id : Host → String
unfolding machine_id override_uid
raw_machine_id h = elim (override_uid h) [
  | some uid ↦ "override:" <> uid
  | none ↦ elim (filled (machine_id h)) [
    | some id ↦ platform_prefix h.system <> (":" <> id)
    | none ↦ "fallback:" <> (h.node <> (":" <> hex 12 h.getnode))
  ]
]

module _ (sha256 : String → String) where
  unfoldable pub deployment_fingerprint : Host → String
  deployment_fingerprint h = sha256 (raw_machine_id h)

  -- Signals that are there, hashed.
  unfoldable pub hash_signals : List (String × Option String) → List (String × String)
  hash_signals [] = []
  hash_signals ((k, v) ∷ rest) = elim (filled v) [
    | none ↦ hash_signals rest
    | some s ↦ (k, sha256 s) ∷ hash_signals rest
  ]

  unfoldable pub collect_signals : Host → List (String × String)
  unfolding hash_signals
  collect_signals h = hash_signals (
      ("dmi_product_uuid", dmi h "product_uuid")
      ∷ ("board_serial", dmi h "board_serial")
      ∷ ("disk_serial", dmi h "product_serial")
      ∷ ("cpu_sig", cpu_sig h)
      ∷ ("machine_id", machine_id h)
      ∷ ("mac", mac h)
      ∷ [])

-- What is tried on the file of the install id: the text that is written, where one is.
pub record InstallId : Type 0 where
  pub id : String
  pub written : Option String

-- `ensure_install_id`, with the two `uuid4().hex` that it draws
unfoldable pub ensure_install_id : Host → String → String → String → InstallId
ensure_install_id h path first second =
    let fresh : InstallId = record { id = first <> second; written = some (first <> second) } in
    elim (read_first h (path ∷ [])) [
      | none ↦ fresh
      | some existing ↦
          if leb 16 (length (codes existing))
          then record { id = existing; written = none }
          else fresh
    ]
