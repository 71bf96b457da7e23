-- ===== src/Adapters/Storage.antt =====
-- app/adapters/object_storage/base.py of Project-source/forge-server: the choice of a provider, and the
-- listing of a bucket page by page. The client of the provider is a parameter.
pub mod Laws
use navtra_license.Prelude.{
  ℕ, zero, suc, Bool, true, false, List, [], ◌∷◌, ◌++◌, Option, none, some, String, map, ◌==◌,
  string_eq, if◌then◌else◌,
}

pub data StorageAdapter : Type 0 where
  local s3 azure_blob aliyun_oss google_storage tencent_cos volcengine_tos huawei_obs :
      StorageAdapter

-- `get_object_storage_adapter`: none where it raises `ValueError`.
unfoldable pub get_object_storage_adapter : String → Option StorageAdapter
get_object_storage_adapter t =
    if t == "local"
    then some local
    else (if t == "s3"
        then some s3
        else (if t == "azure-blob"
            then some azure_blob
            else (if t == "aliyun-oss"
                then some aliyun_oss
                else (if t == "google-storage"
                    then some google_storage
                    else (if t == "tencent-cos"
                        then some tencent_cos
                        else (if t == "volcengine-tos"
                            then some volcengine_tos
                            else (if t == "huawei-obs" then some huawei_obs else none)))))))

-- `ObjectStat`
pub record ObjectStat : Type 0 where
  pub key : String
  pub size : ℕ
  pub etag : Option String
  pub content_type : Option String
  pub last_modified : Option String

-- An item of `Contents`, with `str(…)` of an instant that is there.
pub record S3Object : Type 0 where
  pub key : String
  pub size : Option ℕ
  pub etag : Option String
  pub last_modified : Option String

-- A reply of `list_objects_v2`; a field that is missing is none, or false.
pub record ListReply : Type 0 where
  pub contents : List S3Object
  pub is_truncated : Bool
  pub next_token : Option String

abbrev pub size_or_zero : Option ℕ → ℕ
size_or_zero none = 0
size_or_zero (some n) = n

abbrev pub stat_of : S3Object → ObjectStat
stat_of o = record {
  key = o.key;
  size = size_or_zero o.size;
  etag = o.etag;
  content_type = none;
  last_modified = o.last_modified;
}

-- `if token: kw["ContinuationToken"] = token`
abbrev pub token_given : Option String → Option String
token_given none = none
token_given (some t) = if t == "" then none else some t

module _ (list_objects_v2 : String → String → Option String → ListReply) where
  -- The loop of `list`, with at most so many replies: none where they did not suffice.
  unfoldable pub list_from : ℕ → String → String → Option String → Option (List ObjectStat)
  list_from zero bucket prefix token = none
  list_from (suc fuel) bucket prefix token =
      let reply = list_objects_v2 bucket prefix (token_given token) in
      let rest = list_from fuel bucket prefix reply.next_token in
      if reply.is_truncated
      then (elim rest [ none ↦ none | some more ↦ some (map stat_of reply.contents ++ more) ])
      else some (map stat_of reply.contents)

  -- `list`
  abbrev pub list_objects : ℕ → String → String → Option (List ObjectStat)
  list_objects fuel bucket prefix = list_from fuel bucket prefix none
