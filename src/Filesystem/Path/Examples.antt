-- ===== src/Filesystem/Path/Examples.antt =====
-- filesystem/path*.go: runs of the model, most of them from the package's tests, and the theorems at
-- concrete names.
use primordium.Base.{
  ◌≡◌, ◌↔◌, refl, All, Bytes, codes, bytes_eq, replicate, ◌∷◌, ◌++◌, [], length, ◌+◌, ◌≤◌,
}
use primordium.Errors.{Result, ok, err, wrap, wrap_two}
use primordium.Fault.{err_invalid_argument}
use primordium.Filesystem.Errors.{
  err_invalid_path, err_forbidden_keywords, err_invalid_path_too_long, err_invalid_path_empty,
}
use primordium.Filesystem.Platform.{Goos, linux, windows}
use primordium.Filesystem.Path.Text.{
  any, is_blank, space, space_two, space_three, fold, last_is, split_on,
}
use primordium.Filesystem.Path.{
  reserved_unix, keyword_unix, reserved_windows, keyword_windows, device, port_digit, extension,
  separator, validate_unix, validate_windows, validate_platform_specific, validate_path_component,
  validate_components, validate_path, validate_socket_path,
}
use primordium.Filesystem.Path.Component.{Checks, validate_path_component-windows}
use primordium.Filesystem.Path.Whole.{
  EmptyOrName, ChecksPath, validate_path_iff, validate_path-ChecksPath, validate_socket_path_iff,
  linux_size,
}

check : Goos → Bytes → Result (Unit {0})
unfolding validate_path_component validate_platform_specific validate_unix validate_windows
    reserved_unix keyword_unix reserved_windows keyword_windows device port_digit extension any
    is_blank space space_two space_three fold last_is bytes_eq
check os s = validate_path_component os s

check_path : Goos → Bytes → Result (Unit {0})
unfolding check validate_path validate_components split_on
check_path os s = validate_path (λ _. 0) os s

dotted : check linux (codes ".start.dot") ≡ ok tt
unfolding check
dotted = refl

infinity : check linux (0xe2 ∷ 0x88 ∷ 0x9e ∷ []) ≡ ok tt
unfolding check
infinity = refl

ideographic_space :
    check linux (0xe3 ∷ 0x80 ∷ 0x80 ∷ 0x20 ∷ [])
    ≡ err (wrap_two err_invalid_path err_invalid_path_empty)
unfolding check
ideographic_space = refl

longest : check linux (replicate 255 b'A') ≡ ok tt
unfolding check
longest = refl

too_long :
    check linux (replicate 256 b'A') ≡ err (wrap_two err_invalid_path err_invalid_path_too_long)
unfolding check
too_long = refl

superscript_port :
    check windows (codes "com" ++ (0xc2 ∷ 0xb2 ∷ []) ++ codes ".whatever")
    ≡ err (wrap_two err_invalid_path (wrap err_forbidden_keywords))
unfolding check
superscript_port = refl

mixed_case :
    check windows (codes "nUl") ≡ err (wrap_two err_invalid_path (wrap err_forbidden_keywords))
unfolding check
mixed_case = refl

traversal :
    check_path linux (codes "/foo/../bar")
    ≡ err (wrap_two err_invalid_argument (wrap_two err_invalid_path (wrap err_forbidden_keywords)))
unfolding check_path
traversal = refl

double_separator : check_path linux (codes "/foo//bar") ≡ ok tt
unfolding check_path
double_separator = refl

test_on_windows : validate_path_component windows (codes "test") ≡ ok tt
unfolding check
test_on_windows = refl

validate_path_iff_example :
    (validate_path (λ _. 2) windows (codes "C:music.Com1.txt") ≡ ok tt)
    ↔ All (EmptyOrName windows) (split_on (separator windows) (codes "music.Com1.txt"))
validate_path_iff_example = validate_path_iff (λ _. 2) windows (codes "C:music.Com1.txt")

validate_path-ChecksPath_example : ChecksPath (validate_path (λ _. 2) windows (codes "C:a|b"))
validate_path-ChecksPath_example = validate_path-ChecksPath (λ _. 2) windows (codes "C:a|b")

validate_socket_path_iff_example :
    ((validate_socket_path linux (codes "/run/x") ≡ ok tt) ↔ (length (codes "/run/x") + 1 ≤ 108))
    × Checks err_invalid_argument (validate_socket_path linux (codes "/run/x"))
validate_socket_path_iff_example = validate_socket_path_iff (codes "/run/x") linux_size

plain_on_windows : validate_path_component windows (codes "com.flac") ≡ ok tt
unfolding check validate_path_component validate_platform_specific validate_windows reserved_windows
    keyword_windows device port_digit extension any is_blank space space_two space_three fold
    last_is bytes_eq
plain_on_windows = refl

validate_path_component-windows_example : validate_path_component linux (codes "com.flac") ≡ ok tt
validate_path_component-windows_example =
    validate_path_component-windows linux (codes "com.flac") plain_on_windows
