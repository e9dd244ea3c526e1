-- ===== src/BackendSelection/Detect.antt =====
-- backend_selection.go: `DetectBackend` and `IsQuantumEnabled`.
use qzmq.Common.{
  ℕ, ◌+◌, Bool, true, false, not, ◌&&◌, ◌||◌, leb, text_eq, if◌then◌else◌, [], ◌∷◌, map, Option,
  none, some, ◌==◌,
}
use qzmq.Common.Text.{Text, text}

-- A `BackendType` is a string; `other` is one that names no backend.
pub data BackendType : Type 0 where
  stub pebbe luxzmq czmq : BackendType
  other : Text → BackendType

abbrev pub Environment : Type 0
Environment = Text → Text

-- `strings.ToLower` on the letters of ASCII. No other character has a lower case letter of the
-- backends' names.
abbrev pub lower : ℕ → ℕ
lower c = if leb 65 c && leb c 90 then c + 32 else c

abbrev pub to_lower : Text → Text
to_lower t = map lower t

abbrev pub starts_with : Text → Text → Bool
starts_with t [] = true
starts_with [] (p ∷ ps) = false
starts_with (c ∷ cs) (p ∷ ps) = c == p && starts_with cs ps

-- `strings.Contains`.
abbrev pub contains : Text → Text → Bool
contains [] part = starts_with [] part
contains (c ∷ cs) part = starts_with (c ∷ cs) part || contains cs part

-- The `switch` on the name, with no case for another name.
unfoldable pub named_backend : Text → Option BackendType
named_backend name =
    if text_eq name (text "stub")
    then some stub
    else if text_eq name (text "pebbe")
    then some pebbe
    else if text_eq name (text "luxzmq")
    then some luxzmq
    else if text_eq name (text "czmq")
    then some czmq
    else none

module _ (getenv : Environment) where
  -- The backend that QZMQ_BACKEND asks for.
  unfoldable pub explicit_backend : Option BackendType
  explicit_backend =
      let backend = getenv (text "QZMQ_BACKEND") in
      if not (text_eq backend []) then named_backend (to_lower backend) else none

  unfoldable pub tagged_backend : Option BackendType
  tagged_backend =
      let build_tags = getenv (text "GO_BUILD_TAGS") in
      if contains build_tags (text "stub")
      then some stub
      else if contains build_tags (text "pebbe")
      then some pebbe
      else if contains build_tags (text "czmq")
      then some czmq
      else none

  unfoldable pub no_cgo : Bool
  no_cgo = text_eq (getenv (text "CGO_ENABLED")) (text "0")

  unfoldable pub detect_backend : BackendType
  detect_backend = elim explicit_backend [
    | some b ↦ b
    | none ↦ elim tagged_backend [ some b ↦ b | none ↦ if no_cgo then stub else luxzmq ]
  ]

  unfoldable pub is_quantum_enabled : Bool
  is_quantum_enabled = not (text_eq (getenv (text "QZMQ_QUANTUM")) (text "false"))
