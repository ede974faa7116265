-- ===== src/Mcp/Fix.antt =====
-- services/mcp_server.py: `_fix_info`, which reads the versions with a fix from what grype reported.
use argus_sbomguard.Common.{
  List, [], ◌∷◌, nat_eq, list_eq, Text, text, Outcome, return, raise, ◌>>=◌, type_error,
}
use argus_sbomguard.Common.Json.{
  Json, null, str, arr, obj, Items, Fields, end, field, items, get, or_else,
}
use argus_sbomguard.Models.{Vulnerability}

abbrev chars_of : Text → List Json
chars_of [] = []
chars_of (c ∷ s) = str (c ∷ []) ∷ chars_of s

abbrev keys_of : Fields → List Json
keys_of end = []
keys_of (field k v fs) = str k ∷ keys_of fs

-- `list(value)`
abbrev listed : Json → Outcome (List Json)
listed (arr l) = return (items l)
listed (str s) = return (chars_of s)
listed (obj fs) = return (keys_of fs)
listed _ = raise type_error

-- `_fix_info`
unfoldable pub fix_info : Vulnerability → Outcome (List Json × Json)
unfolding get or_else
fix_info v = do
  fix ← get (or_else v.extra_data (obj end)) (text "fix") null
  versions ← get (or_else fix (obj end)) (text "versions") null
  fixed_versions ← listed (or_else versions (arr Items.nil))
  state ← get (or_else fix (obj end)) (text "state") null
  return (fixed_versions, state)
