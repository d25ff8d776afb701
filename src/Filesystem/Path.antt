-- ===== src/Filesystem/Path.antt =====
-- filesystem/path.go, path_unix.go, path_windows.go and socket_*.go: which names and paths the
-- package takes. Texts are bytes, in UTF-8 where the code looks at characters.
pub mod Text
pub mod Component
pub mod Device
pub mod Windows
pub mod Names
pub mod Whole
mod Examples
use primordium.Base.{
  ℕ, suc, ◌-◌, Bool, true, false, not, ◌&&◌, ◌||◌, Bytes, codes, bytes_eq, ltb, leb, ◌==◌, List, [],
  ◌∷◌, ◌++◌, Option, none, some, all, length, drop, if◌then◌else◌,
}
use primordium.Errors.{Error, Result, ok, err, panic, wrap, wrap_two, ◌>>=◌, ◌>>◌}
use primordium.Fault.{err_invalid_argument}
use primordium.Filesystem.Errors.{
  err_invalid_path, err_invalid_path_too_long, err_invalid_path_empty, err_forbidden_chars,
  err_forbidden_keywords, err_no_ending_space_dot,
}
use primordium.Filesystem.Platform.{Goos, linux, darwin, windows, bsd}
use primordium.Filesystem.Path.Text.{any, is_blank, fold, last_is, split_on}

-- filesystem/consts.go
abbrev pub path_component_max_length : ℕ
path_component_max_length = 255

-- `[\x{0}/]` of path_unix.go
unfoldable pub reserved_unix : ℕ → Bool
reserved_unix c = c == 0 || c == b'/'

-- `^([.]|[.][.])$`
unfoldable pub keyword_unix : Bytes → Bool
keyword_unix s = bytes_eq s (codes ".") || bytes_eq s (codes "..")

-- `[\x{0}-\x{1f}<>:"/\\|?*]` of path_windows.go
unfoldable pub reserved_windows : ℕ → Bool
reserved_windows c =
    ltb c 0x20
    || c == b'<'
    || c == b'>'
    || c == b':'
    || c == 0x22
    || c == b'/'
    || c == 0x5c
    || c == b'|'
    || c == b'?'
    || c == b'*'

-- `[1-9¹²³]`, in UTF-8, and what follows it.
unfoldable pub port_digit : Bytes → Option Bytes
port_digit [] = none
port_digit (c ∷ []) = if leb b'1' c && leb c b'9' then some [] else none
port_digit (c ∷ d ∷ s) =
    if leb b'1' c && leb c b'9'
    then some (d ∷ s)
    else if c == 0xc2 && (d == 0xb9 || d == 0xb2 || d == 0xb3)
    then some s
    else none

-- `([.].*)?$`; the dot of `.*` stands for no newline.
unfoldable pub extension : Bytes → Bool
extension [] = true
extension (c ∷ s) = c == b'.' && not (any (λ d. d == 0x0a) s)

-- `(con|prn|nul|aux|com[1-9¹²³]|lpt[1-9¹²³])` on three letters in lower case, and what follows.
unfoldable pub device : Bytes → Bytes → Bool
device word s =
    if bytes_eq word (codes "con")
      || bytes_eq word (codes "prn")
      || bytes_eq word (codes "nul")
      || bytes_eq word (codes "aux")
    then extension s
    else if bytes_eq word (codes "com") || bytes_eq word (codes "lpt")
    then elim (port_digit s) [ none ↦ false | some rest ↦ extension rest ]
    else false

-- `(?i)^(con|…)([.].*)?$`
unfoldable pub keyword_windows : Bytes → Bool
keyword_windows (a ∷ b ∷ c ∷ s) = device (fold a ∷ fold b ∷ fold c ∷ []) s
keyword_windows _ = false

-- `validatePlatformSpecific` of path_unix.go
unfoldable pub validate_unix : Bytes → Result (Unit {0})
validate_unix s =
    if any reserved_unix s
    then err (wrap err_forbidden_chars)
    else if keyword_unix s
    then err (wrap err_forbidden_keywords)
    else ok tt

-- `validatePlatformSpecific` of path_windows.go; the last byte of an empty text panics.
unfoldable pub validate_windows : Bytes → Result (Unit {0})
validate_windows s =
    if any reserved_windows s
    then err (wrap err_forbidden_chars)
    else if keyword_windows s
    then err (wrap err_forbidden_keywords)
    else if length s == 0
    then panic
    else if last_is b'.' s || last_is b' ' s
    then err (wrap err_no_ending_space_dot)
    else ok tt

unfoldable pub validate_platform_specific : Goos → Bytes → Result (Unit {0})
validate_platform_specific windows s = validate_windows s
validate_platform_specific _ s = validate_unix s

-- `errors.Join(ErrInvalidPath, err)` around the platform's error.
abbrev pub join_invalid : Result (Unit {0}) → Result (Unit {0})
join_invalid (ok _) = ok tt
join_invalid (err e) = err (wrap_two err_invalid_path e)
join_invalid panic = panic

unfoldable pub validate_path_component : Goos → Bytes → Result (Unit {0})
validate_path_component os s =
    if ltb path_component_max_length (length s)
    then err (wrap_two err_invalid_path err_invalid_path_too_long)
    else if is_blank s
    then err (wrap_two err_invalid_path err_invalid_path_empty)
    else join_invalid (validate_platform_specific os s)

-- `os.PathSeparator`
abbrev pub separator : Goos → ℕ
separator windows = 0x5c
separator _ = b'/'

-- `fmt.Errorf("%w: …: %w", fault.ErrInvalidArgument, component, err)`
abbrev pub wrap_invalid : Result (Unit {0}) → Result (Unit {0})
wrap_invalid (ok _) = ok tt
wrap_invalid (err e) = err (wrap_two err_invalid_argument e)
wrap_invalid panic = panic

-- The loop of `ValidatePath`: the first component that is not empty and not valid ends it.
unfoldable pub validate_components : Goos → List Bytes → Result (Unit {0})
validate_components os [] = ok tt
validate_components os (c ∷ cs) =
    let rest = validate_components os cs in
    if length c == 0 then rest else (wrap_invalid (validate_path_component os c) >> rest)

-- `filepath.VolumeName` gives a prefix, whose length is `volume`; on Unix it is empty.
unfoldable pub validate_path : (Bytes → ℕ) → Goos → Bytes → Result (Unit {0})
validate_path volume os path =
    validate_components os (split_on (separator os) (drop (volume path) path))

-- `maxSocketPathLen`
abbrev pub max_socket_path_len : Goos → ℕ
max_socket_path_len linux = 108
max_socket_path_len windows = 108
max_socket_path_len _ = 104

unfoldable pub validate_socket_path : Goos → Bytes → Result (Unit {0})
validate_socket_path os path =
    if ltb (max_socket_path_len os - 1) (length path)
    then err (wrap err_invalid_argument)
    else ok tt
