-- ===== src/Flags.antt =====
-- internal/resources/flags.go: the flags of a role's pods, the file that carries them and the annotation
-- that tells which of them a pod was started with. A loop over a map takes the entries in the order in
-- which Go meets them. The first sixteen hex characters of a SHA-256 are a parameter, `digest`.
pub mod Digests
pub mod Changed
use kubernetes_operator.Prelude.{
  String, Bool, true, false, not, ◌&&◌, Option, none, some, List, [], ◌∷◌, map, filter, concat,
  ◌==◌, if◌then◌else◌,
}
use kubernetes_operator.Prelude.Map.{Map, lookup, insert}
use kubernetes_operator.Prelude.Ranges.{Entries}
use kubernetes_operator.Prelude.Sorted.{sort_by}
use kubernetes_operator.Prelude.Pieces.{cut, split_at}
use kubernetes_operator.Settings.{is_runtime, setting_value, has_key}
use kubernetes_operator.Settings.Spelling.{normalize}

-- `slices.Sorted(maps.Keys(m))`
unfoldable pub sorted_keys : Entries String → List String
unfolding sort_by
sorted_keys entries = sort_by (λ s. s) (map (λ (e : String × String). e.0) entries)

-- `defaultFlags`
unfoldable pub default_flags : Map String
unfolding concat
default_flags =
    ("log_level", "INFO")
    ∷ ("also_log_to_stderr", "true")
    ∷ ("log_retention_days", "35")
    ∷ ("system_user_internal_hash_file", "/etc/memgraph/system-user/hash")
    ∷ []

unfoldable pub merge_flags : List String → Map String → Map String → Map String
unfolding insert normalize setting_value
merge_flags [] role flags = flags
merge_flags (k ∷ ks) role flags =
    merge_flags ks role (insert (normalize k) (setting_value role k) flags)

-- `roleFlags`
unfoldable pub role_flags : (Map String → Entries String) → Map String → Map String
unfolding merge_flags sorted_keys default_flags
role_flags range role = merge_flags (sorted_keys (range role)) role default_flags

unfoldable pub file_lines : List String → Map String → String
unfolding concat setting_value
file_lines [] flags = ""
file_lines (k ∷ ks) flags =
    concat ("--" ∷ k ∷ "=" ∷ setting_value flags k ∷ "\n" ∷ file_lines ks flags ∷ [])

-- `flagFile`
unfoldable pub flag_file : (Map String → Entries String) → Map String → String
unfolding file_lines sorted_keys
flag_file range flags = file_lines (sorted_keys (range flags)) flags

module _ (digest : String → String) where
  unfoldable pub digest_lines : List String → Map String → String
  unfolding concat setting_value is_runtime
  digest_lines [] flags = ""
  digest_lines (k ∷ ks) flags =
      let rest = digest_lines ks flags in
      if is_runtime k
      then rest
      else concat (k ∷ "=" ∷ digest (setting_value flags k) ∷ "\n" ∷ rest ∷ [])

  -- `flagsDigests`
  unfoldable pub flags_digests : (Map String → Entries String) → Map String → String
  unfolding digest_lines sorted_keys
  flags_digests range flags = digest_lines (sorted_keys (range flags)) flags

unfoldable pub add_piece : Option (String × String) → Map String → Map String
unfolding insert
add_piece none digests = digests
add_piece (some (key, digest)) digests =
    if not (key == "") then insert key digest digests else digests

unfoldable pub parse_lines : List String → Map String → Map String
unfolding add_piece cut
parse_lines [] digests = digests
parse_lines (line ∷ lines) digests = parse_lines lines (add_piece (cut "=" line) digests)

-- `ParseFlagsDigests`
unfoldable pub parse_flags_digests : String → Map String
unfolding parse_lines split_at
parse_flags_digests annotation = parse_lines (split_at "\n" annotation) []

-- `for key, digest := range current { if old[key] != digest { changed[key] = true } }`
unfoldable pub new_keys : Entries String → Map String → List String
unfolding setting_value
new_keys [] old = []
new_keys ((key, digest) ∷ current) old =
    let rest = new_keys current old in
    if not (setting_value old key == digest) then key ∷ rest else rest

-- `for key := range old { if _, ok := current[key]; !ok { changed[key] = true } }`
unfoldable pub gone_keys : Entries String → Map String → List String
unfolding has_key
gone_keys [] current = []
gone_keys ((key, digest) ∷ old) current =
    let rest = gone_keys old current in if not (has_key current key) then key ∷ rest else rest

unfoldable pub mark : List String → Map String → Map String
unfolding insert
mark [] changed = changed
mark (k ∷ ks) changed = mark ks (insert k "" changed)

-- `ChangedFlags`; the values of the set are of no use.
unfoldable pub changed_flags : (Map String → Entries String) → String → String → List String
unfolding parse_flags_digests new_keys gone_keys mark sorted_keys
changed_flags range before after =
    let old = parse_flags_digests before in
    let current = parse_flags_digests after in
    sorted_keys
      (range (mark (gone_keys (range old) current) (mark (new_keys (range current) old) [])))
