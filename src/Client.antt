-- ===== src/Client.antt =====
-- src/client_cmd/main.go: the flag of the descriptors and the request that is sent.
pub mod Flags
use api_ratelimit.Common.{GoString, text, none, List, [], ◌∷◌, ◌++◌}
use api_ratelimit.Common.Strings.{split_byte}
use api_ratelimit.Request.{Entry, Descriptor, Request}
use api_ratelimit.Srv.{and_found, Result, found, failed}

abbrev pub invalid_list : GoString
invalid_list = text "invalid descriptor list"

abbrev pub entry_of_parts : List GoString → Result Entry
entry_of_parts (key ∷ value ∷ []) = found (record { key = key; value = value })
entry_of_parts _ = failed invalid_list

-- descriptorsValue.Set: the loop over the pairs
unfoldable pub entries_of : List GoString → Result (List Entry)
unfolding split_byte
entries_of [] = found []
entries_of (pair ∷ pairs) =
    and_found (entry_of_parts (split_byte pair b'='))
      λ entry. and_found (entries_of pairs) λ entries. found (entry ∷ entries)

-- main.go, descriptorsValue.Set, which is called for each flag in order
unfoldable pub set_descriptors : GoString → List Descriptor → Result (List Descriptor)
unfolding entries_of
set_descriptors arg descriptors =
    and_found (entries_of (split_byte arg b','))
      λ entries. found (descriptors ++ record { entries = entries; limit = none } ∷ [])

-- descriptorsValue.String: the inner loop
unfoldable pub entries_string : List Entry → GoString
entries_string [] = []
entries_string (e ∷ es) =
    text " <key=" ++ (e.key ++ (text ", value=" ++ (e.value ++ (text "> " ++ entries_string es))))

-- main.go, descriptorsValue.String
unfoldable pub descriptors_string : List Descriptor → GoString
unfolding entries_string
descriptors_string [] = []
descriptors_string (d ∷ ds) =
    text "[" ++ (entries_string d.entries ++ (text "] " ++ descriptors_string ds))

-- main.go, main: the request that is sent
unfoldable pub client_request : GoString → List Descriptor → Request
client_request domain descriptors = record {
  domain = domain;
  descriptors = descriptors;
  hits_addend = 1;
}
