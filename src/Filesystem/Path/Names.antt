-- ===== src/Filesystem/Path/Names.antt =====
-- filesystem/path.go: which components pass, on each platform.
use primordium.Base.{◌≤◌, ◌≡◌, ◌↔◌, false, Bytes, length, arith}
use primordium.Errors.{ok}
use primordium.Filesystem.Platform.{Goos, linux, darwin, windows, bsd}
use primordium.Filesystem.Path.Text.{is_blank}
use primordium.Filesystem.Path.{validate_platform_specific, validate_path_component}
use primordium.Filesystem.Path.Component.{
  IsUnixName, passes_iff, not-blank-length, validate_path_component_iff,
}
use primordium.Filesystem.Path.Windows.{IsPlatformName, validate_windows_iff}

-- A name that Windows takes.
pub record IsWindowsName (s : Bytes) : Type 0 where
  pub short : length s ≤ 255
  pub visible : is_blank s ≡ false
  pub platform : IsPlatformName s

-- A name that the platform takes.
abbrev pub IsName : Goos → Bytes → Type 0
IsName windows s = IsWindowsName s
IsName _ s = IsUnixName s

windows_iff : (s : Bytes) → (validate_path_component windows s ≡ ok tt) ↔ IsWindowsName s
unfolding validate_platform_specific
windows_iff s =
    let whole = passes_iff windows s in
    (
      λ h.
          let (l, b, p) = whole.0 h in
          record {
            short = l;
            visible = b;
            platform = (validate_windows_iff s (not-blank-length s b)).0 p;
          },
      λ n. whole.1 (
        n.short,
        n.visible,
        (validate_windows_iff s (not-blank-length s n.visible)).1 n.platform,
      ),
    )

-- On every platform a component passes exactly when it is a name there. Outside Windows: at most 255
-- bytes, not blank, with no NUL and no slash, and neither "." nor "..". On Windows: at most 255
-- bytes, not blank, with no control character and none of `<>:"/\|?*`, not a device with or without an
-- extension, and with no dot or space at the end.
pub validate_path_component-IsName :
    (os : Goos) (s : Bytes) → (validate_path_component os s ≡ ok tt) ↔ IsName os s
validate_path_component-IsName windows s = windows_iff s
validate_path_component-IsName linux s = validate_path_component_iff linux s (ground arith)
validate_path_component-IsName darwin s = validate_path_component_iff darwin s (ground arith)
validate_path_component-IsName bsd s = validate_path_component_iff bsd s (ground arith)
