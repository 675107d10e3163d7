-- ===== src/Prelude/Text.antt =====
-- Python's `str` as the native text, which is compared whole, and as a list of code points where
-- the code looks inside.
use Prim.Native.Nat.{ℕ}
use Prim.Native.Char.{code}
use Prim.Native.String.{String}
use mathlib.Core.Bool.{Bool, true, false, ◌&&◌, ◌||◌}
use mathlib.Core.List.{List, [], ◌∷◌}
use mathlib.Core.Option.{Option, none, some}
use mathlib.Core.Path.{◌≡◌, refl, ap}
pub use text.Mathlib.Text.{◌==◌ as str_eq}
pub use Prim.Native.String.{◌++◌ as ◌<>◌}
pub use text.Mathlib.TextEquality.{eq_iff}
use generic_coding_agent.Prelude.Tests.{leb, ◌==◌, if◌then◌else◌}
use generic_coding_agent.Prelude.Lists.{all}

abbrev pub codes : String → List ℕ
codes String.[] = []
codes (String.◌∷◌ c s) = code c ∷ codes s

-- `str.isspace`, the characters that `str.strip()` removes.
abbrev pub is_space : ℕ → Bool
is_space c =
    (leb 9 c && leb c 13)
    || (leb 28 c && leb c 32)
    || c == 133
    || c == 160
    || c == 5760
    || (leb 8192 c && leb c 8202)
    || c == 8232
    || c == 8233
    || c == 8239
    || c == 8287
    || c == 12288

-- `not s.strip()`
unfoldable pub is_blank : String → Bool
is_blank s = all is_space (codes s)

-- `==` on `str | None`
abbrev pub opt_eq : Option String → Option String → Bool
opt_eq none none = true
opt_eq (some a) (some b) = str_eq a b
opt_eq _ _ = false

pub opt_eq-some : (o : Option String) (k : String) → opt_eq o (some k) ≡ true → o ≡ some k
opt_eq-some none k h = cc
opt_eq-some (some j) k h = ap some ((eq_iff j k).0 h)

pub some-opt_eq : (o : Option String) (k : String) → o ≡ some k → opt_eq o (some k) ≡ true
some-opt_eq o k h = rw h ((eq_iff k k).1 refl)

-- `str.strip`
abbrev pub strip_left : String → String
strip_left String.[] = String.[]
strip_left (String.◌∷◌ c s) = if is_space (code c) then strip_left s else String.◌∷◌ c s

abbrev pub strip_right : String → String
strip_right String.[] = String.[]
strip_right (String.◌∷◌ c s) =
    let rest = strip_right s in
    if is_space (code c) && str_eq rest "" then String.[] else String.◌∷◌ c rest

abbrev pub strip : String → String
strip s = strip_right (strip_left s)
