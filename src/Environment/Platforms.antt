-- ===== src/Environment/Platforms.antt =====
-- `GetExecutablePath` (src/platformIndependent.h) as it is built on Windows and on macOS.
use open_ddw.Base.{
  ℕ, zero, suc, ◌+◌, ◌≡◌, refl, Option, none, some, [], ◌∷◌, ◌==◌, arith, if◌then◌else◌, length,
  leb, Bool-cases, inl, inr,
}
use open_ddw.Base.Text.{Text, text}
use open_ddw.Dds.{Outcome, done, throws}
use open_ddw.Environment.{path_loop, remove_filename, has_slash}

-- `GetModuleFileName` gets the size of the buffer and answers what it wrote to it. As on Linux,
-- `none` says that the rounds did not suffice.
unfoldable pub windows_path_loop : (ℕ → Text) → ℕ → ℕ → Option Text
windows_path_loop get_module_file_name zero size = none
windows_path_loop get_module_file_name (suc rounds) size =
    let size' = size + 200 in
    let again = windows_path_loop get_module_file_name rounds size' in
    let s = get_module_file_name size' in if length s == size' then again else some s

-- `_NSGetExecutablePath` gets the buffer's size. It succeeds with the bytes of the path, or fails and
-- says what size it needs.
pub data NsAnswer : Type 0 where
  wrote : Text → NsAnswer
  needs : ℕ → NsAnswer

-- `resize(size, '\0')` of the text: what is not written stays 0.
abbrev pub padded : Text → ℕ → Text
padded [] zero = []
padded [] (suc n) = 0 ∷ padded [] n
padded (c ∷ t) zero = c ∷ t
padded (c ∷ t) (suc n) = c ∷ padded t n

unfoldable pub apple_executable_path : (ℕ → NsAnswer) → Outcome Text
apple_executable_path ns_get = elim (ns_get 200) [
  | wrote s ↦ done (padded s 200)
  | needs size ↦ elim (ns_get size) [
    | wrote s ↦ done (padded s size)
    | needs size' ↦ throws (text "Error getting the executable path")
  ]
]

-- On Windows the loop is the one on Linux, for a `readlink` that does not fail.
windows_path_loop-path_loop :
    (get : ℕ → Text) (rounds size : ℕ)
    → path_loop (λ n. some (get n)) rounds size
      ≡ (elim (windows_path_loop get rounds size) [ none ↦ none | some s ↦ some (done s) ])
unfolding path_loop windows_path_loop
windows_path_loop-path_loop get zero size = refl
windows_path_loop-path_loop get (suc rounds) size =
    ground (arith, windows_path_loop-path_loop get rounds (size + 200))

has_slash-padded : (t : Text) (n : ℕ) → has_slash (padded t n) ≡ has_slash t
has_slash-padded [] zero = refl
has_slash-padded [] (suc n) = has_slash-padded [] n
has_slash-padded (c ∷ t) zero = refl
has_slash-padded (c ∷ t) (suc n) = ground (arith, has_slash-padded t n)

remove_filename-padded : (t : Text) (n : ℕ) → remove_filename (padded t n) ≡ remove_filename t
unfolding remove_filename
remove_filename-padded [] zero = refl
remove_filename-padded [] (suc n) = rw (has_slash-padded [] n)
remove_filename-padded (c ∷ t) zero = refl
remove_filename-padded (c ∷ t) (suc n) =
    ground (arith, has_slash-padded t n, remove_filename-padded t n)

-- What is documented of `_NSGetExecutablePath`: it writes the path where the buffer is large enough
-- for it, and says its size otherwise.
abbrev pub Gets : (ℕ → NsAnswer) → Text → Type 0
Gets ns_get path =
    (size : ℕ)
    → ns_get size ≡ (if leb (length path + 1) size then wrote path else needs (length path + 1))

-- On macOS the path that comes back ends with bytes of 0, but its directory is that of the path.
apple_executable_path-directory :
    (ns_get : ℕ → NsAnswer) (path : Text)
    → Gets ns_get path
    → (s : Text) × (apple_executable_path ns_get ≡ done s)
      × (remove_filename s ≡ remove_filename path)
unfolding apple_executable_path
apple_executable_path-directory ns_get path g = elim (Bool-cases (leb (length path + 1) 200)) [
  | inl short ↦
      (padded path 200, rw (g 200, short, apple_executable_path), remove_filename-padded path 200)
  | inr long ↦ (
    padded path (length path + 1),
    rw (apple_executable_path, g 200, long, g (length path + 1)) (ground arith),
    remove_filename-padded path (length path + 1),
  )
]
