-- ===== src/Parse/Path.antt =====
-- internal/parse/path.go. nativeWindowsPathSeparators, a constant of the platform, is a parameter.
use socat.Prelude.Text.{has_prefix, contains_byte, contains_text, codes}
use socat.Prelude.{
  true, ◌==◌, if◌then◌else◌, ◌&&◌, ◌∷◌, [], some, none, ◌||◌, Option, false, leb, List, Bytes, Bool,
  ℕ,
}

-- Whether `c` is an ASCII letter, the test of a drive letter.
unfoldable pub is_letter : ℕ → Bool
is_letter c = (leb b'A' c && leb c b'Z') || (leb b'a' c && leb c b'z')

unfoldable pub has_windows_volume : Bytes → Bool
unfolding is_letter
has_windows_volume [] = false
has_windows_volume (c ∷ []) = false
has_windows_volume (c ∷ d ∷ rest) = (is_letter c && d == b':') || (c == b'\\' && d == b'\\')

-- The colon of X:\ or X:/ that ends `part`, the bytes since the last separator, before `rest`.
unfoldable pub is_windows_drive_colon : Bytes → Bytes → Bool
unfolding is_letter
is_windows_drive_colon (c ∷ []) (n ∷ rest) = is_letter c && (n == b'\\' || n == b'/')
is_windows_drive_colon _ _ = false

-- socketDataIndex without the spelling: `none` stands for -1.
unfoldable pub socket_data_index : Bytes → Option ℕ
socket_data_index name =
    if contains_text name (codes "SOCKET-CONNECT" ∷ codes "SOCKET-LISTEN" ∷ [])
    then some 2
    else if contains_text name (
        codes "SOCKET-SENDTO"
        ∷ codes "SOCKET-DATAGRAM"
        ∷ codes "SOCKET-RECV"
        ∷ codes "SOCKET-RECVFROM"
        ∷ [])
    then some 3
    else none

abbrev path_types : List Bytes
path_types =
    codes "OPEN"
    ∷ codes "FILE"
    ∷ codes "CREATE"
    ∷ codes "CREAT"
    ∷ codes "GOPEN"
    ∷ codes "PIPE"
    ∷ codes "FIFO"
    ∷ codes "ECHO"
    ∷ []

module _ (windows : Bool) where
  -- looksLikePath from a byte on
  unfoldable pub path_bytes : Bytes → Bool
  path_bytes [] = false
  path_bytes (c ∷ rest) =
      let later = path_bytes rest in
      if c == b'/'
      then true
      else if c == b'\\'
      then windows
      else if c == b':' || c == b','
      then false
      else later

  unfoldable pub looks_like_path : Bytes → Bool
  unfolding has_windows_volume path_bytes
  looks_like_path s = has_windows_volume s || path_bytes s

  unfoldable pub looks_like_windows_path : Bytes → Bool
  unfolding has_windows_volume
  looks_like_windows_path s = has_windows_volume s || (windows && contains_byte b'\\' s)

  -- pathParamType of a name in capitals
  unfoldable pub path_param_type : Bytes → Bool
  path_param_type name =
      contains_text name path_types || (windows && has_prefix name (codes "UNIX"))
